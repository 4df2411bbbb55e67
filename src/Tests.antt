-- ===== src/Tests.antt =====
-- Tests of the definitions at concrete inputs, and each theorem at an input that meets its
-- hypotheses.
mod Modes
mod Monitors
mod Log
mod Files
mod Garbage
mod Locks
mod Keys
mod Logins
mod Moves
mod Names
mod Passwords
mod Polls
mod Rates
mod Rebuilds
mod Rotation
mod Sequences
mod Uploads
