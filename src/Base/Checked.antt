-- ===== src/Base/Checked.antt =====
-- `Result` with a text for its error, as the contract modules return it.
use Prim.Native.String.{String}
use mathlib.Core.Path.{◌≡◌, refl, ap}
use mathlib.Core.Bool.{Bool, true, false}
use mathlib.Core.Option.{Option, none, some}
use native.Mathlib.Omega.{arith}

pub data Checked {ℓ} (A : Type ℓ) : Type ℓ where
  valid : A → Checked A
  invalid : String → Checked A

infixl 5 ◌>>=◌
-- The operator `?`
abbrev pub ◌>>=◌ {ℓ κ} : {A : Type ℓ} {B : Type κ} → Checked A → (A → Checked B) → Checked B
◌>>=◌ (valid a) k = k a
◌>>=◌ (invalid message) k = invalid message

-- A test, with the message if it fails
abbrev pub ensure : Bool → String → Checked (Unit {0})
ensure true message = valid tt
ensure false message = invalid message

-- `ok_or_else`
abbrev pub ok_or {ℓ} : {A : Type ℓ} → Option A → String → Checked A
ok_or (some a) message = valid a
ok_or none message = invalid message

-- What a `?` that succeeds has read.
pub bind_valid {ℓ κ} :
    {A : Type ℓ} {B : Type κ} (r : Checked A) (k : A → Checked B) (b : B)
    → (r >>= k) ≡ valid b
    → (a : A) × ((r ≡ valid a) × (k a ≡ valid b))
bind_valid (valid a) k b h = (a, (refl, h))
bind_valid (invalid message) k b h = absurd cc

pub ensure_valid :
    (b : Bool) (message : String) (u : Unit {0}) → ensure b message ≡ valid u → b ≡ true
ensure_valid true message u h = refl
ensure_valid false message u h = absurd (ground arith)

pub valid_injective {ℓ} : {A : Type ℓ} {a b : A} → valid a ≡ valid b → a ≡ b
valid_injective h = cc

pub some_injective {ℓ} : {A : Type ℓ} {a b : A} → some a ≡ some b → a ≡ b
some_injective h = cc

pub ok_or_valid {ℓ} :
    {A : Type ℓ} (o : Option A) (message : String) (a : A) → ok_or o message ≡ valid a → o ≡ some a
ok_or_valid (some b) message a h = ap some (valid_injective h)
ok_or_valid none message a h = absurd cc
