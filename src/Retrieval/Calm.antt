-- ===== src/Retrieval/Calm.antt =====
-- Outcomes that are no panic, and the rules by which a `do` block gives one.
pub mod Iterated
pub mod Handlers
pub mod Dispatch
pub mod Fields
pub mod Vetted
pub mod Expressions
pub mod Samples
use aira_graphdb.Base.{
  ℕ, String, Bool, true, false, ◌≡◌, ◌≢◌, Option, none, some, List, [], ◌∷◌, All, if◌then◌else◌,
}
use aira_graphdb.Retrieval.Json.{Json}
use aira_graphdb.Retrieval.Pointer.{
  Outcome, gives, fails, panics, ◌>>=◌, or_fail, EvalValue, ref, refs, owned, Current, one,
  values_equal,
}
use aira_graphdb.Retrieval.Values.{Run, Child, Children, find_child}

pub record IsCalm {A : Type 0} (r : Outcome A) : Type 0 where
  pub at : r ≢ panics

pub IsCalm-gives : {A : Type 0} (a : A) → IsCalm (gives a)
IsCalm-gives a = record { at = λ h. absurd cc }

pub IsCalm-fails : {A : Type 0} (message : String) → IsCalm {A = A} (fails message)
IsCalm-fails message = record { at = λ h. absurd cc }

pub IsCalm-or_fail : {A : Type 0} (o : Option A) (message : String) → IsCalm (or_fail o message)
IsCalm-or_fail (some a) message = IsCalm-gives a
IsCalm-or_fail none message = IsCalm-fails message

pub IsCalm-if :
    {A : Type 0} (b : Bool) (x y : Outcome A) → IsCalm x → IsCalm y → IsCalm (if b then x else y)
IsCalm-if true x y p q = p
IsCalm-if false x y p q = q

pub IsCalm-bind :
    {A B : Type 0} (r : Outcome A) (k : A → Outcome B)
    → IsCalm r
    → ((a : A) → IsCalm (k a))
    → IsCalm (r >>= k)
IsCalm-bind (gives a) k p q = q a
IsCalm-bind (fails message) k p q = IsCalm-fails message
IsCalm-bind panics k p q = absurd (p.at (λ i. panics))

pub IsCalm-one : (value : EvalValue) (label : String) → IsCalm (one value label)
IsCalm-one (ref v) label = IsCalm-gives v
IsCalm-one (owned v) label = IsCalm-gives v
IsCalm-one (refs []) label = IsCalm-fails _
IsCalm-one (refs (v ∷ [])) label = IsCalm-gives v
IsCalm-one (refs (v ∷ w ∷ vs)) label = IsCalm-fails _

pub IsCalm-values_equal : (a b : EvalValue) → IsCalm (values_equal a b)
unfolding values_equal
IsCalm-values_equal (refs vs) b = IsCalm-fails _
IsCalm-values_equal (ref v) (ref w) = IsCalm-gives _
IsCalm-values_equal (ref v) (owned w) = IsCalm-gives _
IsCalm-values_equal (ref v) (refs ws) = IsCalm-fails _
IsCalm-values_equal (owned v) (ref w) = IsCalm-gives _
IsCalm-values_equal (owned v) (owned w) = IsCalm-gives _
IsCalm-values_equal (owned v) (refs ws) = IsCalm-fails _

-- A function of the current item that never panics
pub record IsCalmRun (run : Run) : Type 0 where
  pub on : (current : Current) → IsCalm (run current)

pub record IsCalmChild (child : Child) : Type 0 where
  pub itself : IsCalmRun child.run
  pub each : All IsCalmRun child.items

pub IsCalm-run : (run : Run) (current : Current) → IsCalmRun run → IsCalm (run current)
IsCalm-run run current p = p.on current

pub ruleset calm_rules = (
  IsCalm-gives, IsCalm-fails, IsCalm-or_fail, IsCalm-one, IsCalm-values_equal, IsCalm-run,
  IsCalm-if, IsCalm-bind,
)
