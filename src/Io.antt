-- ===== src/Io.antt =====
-- The part of the operating system that the engine sees: the four files beside one another
-- (`db_file`, and its siblings with the extensions `wal`, `audit.log` and `write.lock`), and the
-- clock. The files are taken to be four different ones, which they are unless the database itself
-- has one of these extensions.
-- Every call to the system may fail. What it answers is read from `schedule`, which is the
-- environment's choice: `fails message left` is a failure with that error text, and a write that
-- fails leaves the file with any content `left`. Where the schedule is used up, calls succeed.
pub mod Utf8
use Prim.Native.String.{◌++◌ as append}
use aira_graphdb.Base.{
  ℕ, String, Bool, true, false, Option, none, some, List, [], ◌∷◌, ◌++◌, is_some, if◌then◌else◌,
}
use aira_graphdb.Errors.{ErrorCode, Result, ok, err, new}

abbrev pub Bytes : Type 0
Bytes = List ℕ

pub data File : Type 0 where
  db wal audit lock : File

pub data Outcome : Type 0 where
  succeeds : Outcome
  fails : String → Option Bytes → Outcome

pub record World : Type 0 where
  pub db_content : Option Bytes
  pub wal_content : Option Bytes
  pub audit_content : Option Bytes
  pub lock_content : Option Bytes
  pub schedule : List Outcome
  pub clock : List ℕ

abbrev pub content : File → World → Option Bytes
content File.db w = w.db_content
content File.wal w = w.wal_content
content File.audit w = w.audit_content
content File.lock w = w.lock_content

abbrev pub set_content : File → Option Bytes → World → World
set_content File.db c w = record w { db_content = c }
set_content File.wal c w = record w { wal_content = c }
set_content File.audit c w = record w { audit_content = c }
set_content File.lock c w = record w { lock_content = c }

-- `io::Result`
pub data IoResult {ℓ} (A : Type ℓ) : Type ℓ where
  done : A → IoResult A
  failed : String → IoResult A

-- The outcome of the next call, and the schedule behind it.
abbrev pub head_outcome : List Outcome → Outcome
head_outcome [] = succeeds
head_outcome (o ∷ os) = o

abbrev pub tail_outcomes : List Outcome → List Outcome
tail_outcomes [] = []
tail_outcomes (o ∷ os) = os

abbrev pub advance : World → World
advance w = record w { schedule = tail_outcomes w.schedule }

-- `Path::exists`
abbrev pub exists : File → World → Bool
exists f w = is_some (content f w)

-- The answer to reading a file with that content.
abbrev pub contents_of : Option Bytes → IoResult Bytes
contents_of none = failed "No such file or directory (os error 2)"
contents_of (some b) = done b

-- `fs::read`
unfoldable pub read : File → World → IoResult Bytes × World
read f w = elim (head_outcome w.schedule) [
  | succeeds ↦ (contents_of (content f w), advance w)
  | fails m left ↦ (failed m, advance w)
]

-- `fs::write`
unfoldable pub write : File → Bytes → World → IoResult (Unit {0}) × World
write f bytes w = elim (head_outcome w.schedule) [
  | succeeds ↦ (done tt, set_content f (some bytes) (advance w))
  | fails m left ↦ (failed m, set_content f left (advance w))
]

-- `OpenOptions` with `create`, `truncate` and `write`
unfoldable pub open_truncate : File → World → IoResult (Unit {0}) × World
open_truncate f w = elim (head_outcome w.schedule) [
  | succeeds ↦ (done tt, set_content f (some []) (advance w))
  | fails m left ↦ (failed m, advance w)
]

abbrev pub bytes_or_empty : Option Bytes → Bytes
bytes_or_empty none = []
bytes_or_empty (some b) = b

-- `OpenOptions` with `create` and `append`
unfoldable pub open_append : File → World → IoResult (Unit {0}) × World
open_append f w = elim (head_outcome w.schedule) [
  | succeeds ↦ (done tt, set_content f (some (bytes_or_empty (content f w))) (advance w))
  | fails m left ↦ (failed m, advance w)
]

-- `OpenOptions` with `create_new`
unfoldable pub create_new : File → World → IoResult (Unit {0}) × World
create_new f w = elim (head_outcome w.schedule) [
  | succeeds ↦
      if exists f w
      then (failed "File exists (os error 17)", advance w)
      else (done tt, set_content f (some []) (advance w))
  | fails m left ↦ (failed m, advance w)
]

-- `write_all` behind what the open file holds
unfoldable pub write_all : File → Bytes → World → IoResult (Unit {0}) × World
write_all f bytes w = elim (head_outcome w.schedule) [
  | succeeds ↦ (done tt, set_content f (some (bytes_or_empty (content f w) ++ bytes)) (advance w))
  | fails m left ↦ (failed m, set_content f left (advance w))
]

-- `flush`
unfoldable pub flush : World → IoResult (Unit {0}) × World
flush w = elim (head_outcome w.schedule) [
  | succeeds ↦ (done tt, advance w)
  | fails m left ↦ (failed m, advance w)
]

-- `fs::remove_file`
unfoldable pub remove_file : File → World → IoResult (Unit {0}) × World
remove_file f w = elim (head_outcome w.schedule) [
  | succeeds ↦
      if exists f w
      then (done tt, set_content f none (advance w))
      else (failed "No such file or directory (os error 2)", advance w)
  | fails m left ↦ (failed m, advance w)
]

abbrev pub head_time : List ℕ → ℕ
head_time [] = 0
head_time (t ∷ ts) = t

abbrev pub tail_times : List ℕ → List ℕ
tail_times [] = []
tail_times (t ∷ ts) = ts

-- `SystemTime::now`, in milliseconds since the epoch
unfoldable pub now : World → ℕ × World
now w = (head_time w.clock, record w { clock = tail_times w.clock })

-- `and_then` of two calls: the second is made only if the first succeeds.
infixl 5 ◌then_io◌
abbrev pub ◌then_io◌ :
    (World → IoResult (Unit {0}) × World)
    → (World → IoResult (Unit {0}) × World)
    → World
    → IoResult (Unit {0}) × World
◌then_io◌ m k w = let (r, w') = m w in elim r [ done _ ↦ k w' | failed e ↦ (failed e, w') ]

-- What the engine runs: a result beside the world after it.
abbrev pub Action {ℓ} : Type ℓ → Type ℓ
Action A = World → Result A × World

abbrev pub pure {ℓ} : {A : Type ℓ} → A → Action A
pure a w = (ok a, w)

abbrev pub lift {ℓ} : {A : Type ℓ} → Result A → Action A
lift r w = (r, w)

infixl 5 ◌>>=◌ ◌>>◌
abbrev pub ◌>>=◌ {ℓ κ} : {A : Type ℓ} {B : Type κ} → Action A → (A → Action B) → Action B
◌>>=◌ m f w = let (r, w') = m w in elim r [ ok a ↦ f a w' | err e ↦ (err e, w') ]

abbrev pub ◌>>◌ {ℓ} : {B : Type ℓ} → Action (Unit {0}) → Action B → Action B
m >> k = m >>= λ _. k

-- `map_err(|e| GraphDbError::new(code, format!("{prefix}{e}")))`
abbrev pub map_err_result {ℓ} : {A : Type ℓ} → ErrorCode → String → IoResult A → Result A
map_err_result code prefix (done a) = ok a
map_err_result code prefix (failed e) = err (new code (append prefix e))

abbrev pub map_err {ℓ} : {A : Type ℓ} → ErrorCode → String → (World → IoResult A × World) → Action A
map_err code prefix m w = let (r, w') = m w in (map_err_result code prefix r, w')
