-- ===== src/Tests/Rotation.antt =====
-- The lock of a rotation that another instance holds at the first attempt.
use art_store.Common.{zero, if◌then◌else◌, ◌==◌}
use art_store.KeyRotation.{Setting, acquired, taken, acquire_lock}
use art_store.KeyRotation.Locking.{IsEnd, acquire_lock-IsEnd}

abbrev setting : Setting
setting = record { set_nx = λ n. if n == 0 then taken else acquired }

acquire_lock-IsEnd_example : IsEnd setting zero 2 (acquire_lock setting)
acquire_lock-IsEnd_example = acquire_lock-IsEnd setting
