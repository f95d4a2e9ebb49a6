-- ===== src/Lock.antt =====
-- The write lock, `src/lock.rs`: a file that exists as long as one process writes to the database.
pub mod Exclusion
pub mod Samples
use aira_graphdb.Errors.{ErrorCode}
use aira_graphdb.Io.{File, World, Action, map_err, create_new, remove_file}

unfoldable pub acquire_write_lock : Action (Unit {0})
unfolding create_new
acquire_write_lock =
    map_err ErrorCode.write_lock_conflict "write lock conflict: " (create_new File.lock)

-- `Drop for WriteLockGuard`: the result of `remove_file` is ignored.
unfoldable pub drop_guard : World → World
unfolding remove_file
drop_guard w = (remove_file File.lock w).1
