-- ===== src/Lib.antt =====
-- A verification of the artStore file storage: its data, its operations and what makes them correct.
--
-- The program is a set of Python services. The Admin Module knows the users, the service accounts and
-- the elements. A storage element keeps the files: each operation on a file starts a transaction of
-- the write-ahead log, changes the physical store, the attribute file that describes the file and the
-- row of the metadata table, in an order that each operation fixes, and ends the transaction. The mode
-- of the element says which operations are permitted. The ingester moves a finished file from one
-- element to another and verifies the copy by its checksum.
--
--   * Common: Boolean tests, lists, results of calls that may raise, integers, JSON and dictionaries.
--   * StorageMode: storage-element/app/core/storage_mode.py, the machine of the four modes. Machine is
--     StorageModeStateMachine, and each method is a function of its name; logging is left out.
--   * Wal: storage-element/app/services/wal_service.py with app/models/wal.py. The state is the table
--     of transactions; start_transaction, commit, rollback and mark_failed have the names of the
--     methods. A Session says which calls of the database return; a statement that raises leaves the
--     table as it was. Wal.Lifecycle runs sequences of calls.
--   * Storage: storage-element/app/services/storage_service.py, the local store and S3, as a map from
--     relative paths to bytes. write_file reads chunks up to the first empty one.
--   * FileService: storage-element/app/services/file_service.py with app/utils/attr_utils.py and
--     app/models/file_metadata.py. World is the state: the log, the store, the attribute files by the
--     path of their data file, and the rows. create_file, delete_file (delete_file_by_id) and
--     update_file_metadata are written step by step, each step a function of what the step before it
--     gave, with the two handlers of each. Refinement states the store of files that they implement.
--   * CacheLock: storage-element/app/services/cache_lock_manager.py. Redis with the other clients is the
--     record Redis; Grants.Documented says what Redis documents of its calls. The polls are counted, two
--     to a second, so that the loop needs no fuel.
--   * CacheRebuild: storage-element/app/services/cache_rebuild_service.py, over the locks of CacheLock. Db is the
--     session with the rows that a commit will write; World is the storage backend with the answers of the
--     database. Defs.Scan is the loop of both rebuilds, Defs.Run has the operations. Of an error message only
--     the path is kept.
--   * FileNaming: storage-element/app/utils/file_naming.py, on texts as lists of code points. The stem and
--     the suffix of the original path, strftime, strptime and the parser of UUIDs are parameters.
--   * Finalize: ingester-module/app/services/finalize_service.py with the statuses and the response of
--     app/schemas/upload.py. The storage elements, the selector and the Admin Module are the record
--     Network. Model has the data and the calls, Phases the phases and the handler of finalize_file. The
--     loop of _verify_checksum recurses on the attempts that are left.
--   * PasswordPolicy: admin-module/app/core/password_policy.py, on passwords as lists of code points. The
--     random numbers, the shuffle, the digits of `re` and the hashes are parameters.
--   * RateLimit: admin-module/app/middleware/rate_limit.py, the sliding window of a service account over
--     the record SortedSets, with times in milliseconds; Window.Documented says what Redis documents.
--   * GarbageCollector: admin-module/app/services/garbage_collector_service.py with the queue of
--     app/models/cleanup_queue.py. State has the tables that a run changes and the DELETEs that it sent; the
--     answers to them are a parameter. Defs.Delete processes the queue, Defs.Fill adds to it, Defs.Run is
--     run_garbage_collection.
--   * Tokens: admin-module/app/services/token_service.py with the keys of app/models/jwt_key.py. jose is the
--     record Jose over a type of tokens; Decoding.Documented says what it documents.
--   * KeyRotation: admin-module/app/services/jwt_key_rotation_service.py. Only the loop that takes the
--     lock, which recurses on the attempts that are left; the answers of Redis are a parameter.
--   * AdminAuth: admin-module/app/services/admin_auth_service.py with app/models/admin_user.py. The state is
--     the table of administrators; an Attempt is a call of authenticate at its time. It signs and decodes
--     with Tokens and validates with PasswordPolicy.
--   * Upload: ingester-module/app/services/storage_selector.py and upload_service.py, with the list of elements
--     of capacity_monitor.py. The capacities at each selection, the list of the Admin Module and the answers
--     to the POSTs are the record Network. The loop of upload_file recurses on the attempts that are left.
--   * CapacityMonitor: ingester-module/app/services/capacity_monitor.py. The election works on the record Redis;
--     Lock.Documented says what Redis documents of its key, and Calls lets the instances make their calls in
--     any order. Info has what is known of an element, Poll the polling of it, whose loop recurses on the
--     attempts that are left, and the commands that it sends to the cache.
--   * Tests: examples at concrete inputs.
--
-- UUIDs and points in time are natural numbers. What is not the program's own is a parameter: the
-- digest, the size of a JSON text, the clock, the generated names and which calls to the database
-- and to the storage fail. A call that fails leaves its target as it was. Logs and metrics are left
-- out, and temporary files are not paths of the store. Not modelled: the HTTP endpoints, the database
-- schema, health checks, the query service, and of the Admin Module
-- the registries, the service accounts and the audit log.

pub mod AdminAuth
pub mod CacheLock
pub mod CacheRebuild
pub mod CapacityMonitor
pub mod Common
pub mod FileNaming
pub mod FileService
pub mod Finalize
pub mod GarbageCollector
pub mod KeyRotation
pub mod PasswordPolicy
pub mod RateLimit
pub mod Storage
pub mod StorageMode
pub mod Tests
pub mod Tokens
pub mod Upload
pub mod Wal
