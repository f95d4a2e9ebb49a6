-- ===== src/Lock/Exclusion.antt =====
-- At most one process holds the write lock, whatever the order of the calls and their answers.
use aira_graphdb.Base.{ℕ, suc, ◌+◌, ◌≤◌, true, ◌≡◌, Option, none, some, arith, is_some}
use aira_graphdb.Errors.{ErrorCode, Result, ok, err}
use aira_graphdb.Io.{World}
use aira_graphdb.Lock.{acquire_write_lock, drop_guard}

-- The files, and how many processes hold a guard.
pub record Holders : Type 0 where
  pub world : World
  pub count : ℕ

-- The code of a refusal.
abbrev pub code_of : Result (Unit {0}) → Option ErrorCode
code_of (ok _) = none
code_of (err e) = some e.code

abbrev counted : Result (Unit {0}) → ℕ → ℕ
counted (ok _) n = n + 1
counted (err e) n = n

pub data Step (h : Holders) : Holders → Type 0 where
  acquires : Step h (record {
    world = (acquire_write_lock h.world).1;
    count = counted (acquire_write_lock h.world).0 h.count;
  })
  drops : (n : ℕ) → h.count ≡ suc n → Step h (record { world = drop_guard h.world; count = n })
  -- A process that dies leaves its lock file behind.
  crashes : (n : ℕ) → h.count ≡ suc n → Step h (record h { count = n })
  -- Anything else may happen, but nobody else touches the lock file.
  works : (w : World) → w.lock_content ≡ h.world.lock_content → Step h (record h { world = w })

pub data Reach : Holders → Type 0 where
  start : (w : World) → Reach (record { world = w; count = 0 })
  next : {h h' : Holders} → Reach h → Step h h' → Reach h'

abbrev pub IsExclusive : Holders → Type 0
IsExclusive h = (h.count ≤ 1) × (h.count ≡ 1 → is_some h.world.lock_content ≡ true)

Step-IsExclusive : {h h' : Holders} → Step h h' → IsExclusive h → IsExclusive h'
unfolding acquire_write_lock drop_guard
Step-IsExclusive {h} acquires (one, there) = (ground arith, λ e. ground arith)
Step-IsExclusive {h} (drops n same) (one, there) = (ground arith, λ e. absurd (ground arith))
Step-IsExclusive {h} (crashes n same) (one, there) = (ground arith, λ e. absurd (ground arith))
Step-IsExclusive {h} (works w same) (one, there) = (one, λ e. ground (arith, there e))

Reach-IsExclusive : {h : Holders} → Reach h → IsExclusive h
Reach-IsExclusive (start w) = (omega arith, λ e. absurd (omega arith))
Reach-IsExclusive (next r st) = Step-IsExclusive st (Reach-IsExclusive r)

-- From any files that no process holds, whether or not a lock file was left there, at most one
-- process holds a guard at any time, whatever the system answers.
pub at_most_one_holder : {h : Holders} → Reach h → h.count ≤ 1
at_most_one_holder r = (Reach-IsExclusive r).0

-- As long as a process holds a guard the lock file exists.
pub lock_file_exists : {h : Holders} → Reach h → h.count ≡ 1 → is_some h.world.lock_content ≡ true
lock_file_exists r = (Reach-IsExclusive r).1

-- While the lock file is there no further process gets the lock, whatever the system answers, and
-- the file stays as it is.
pub acquire_locked :
    (w : World)
    → is_some w.lock_content ≡ true
    → (code_of (acquire_write_lock w).0 ≡ some ErrorCode.write_lock_conflict)
      × ((acquire_write_lock w).1.lock_content ≡ w.lock_content)
unfolding acquire_write_lock
acquire_locked w there = ground arith
