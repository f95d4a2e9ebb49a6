-- ===== src/Lowercase.antt =====
-- The lower casing of Unicode 16, `src/unicode16_lowercase.rs`. The generated tables are a parameter. A
-- binary search in a sorted table is written as what it gives: whether an entry is there.
pub mod Whole
pub mod Samples
use aira_graphdb.Base.{
  ℕ, ◌+◌, ◌-◌, ◌^◌, Bool, true, false, not, ◌&&◌, ◌||◌, Option, none, some, List, [], ◌∷◌, ◌++◌,
  any, leb, ltb, nat_eq, u64_mod, if◌then◌else◌,
}

-- The tables: the mappings of a scalar to some scalars, and two lists of ranges.
pub record Tables : Type 0 where
  pub mappings : List (ℕ × List ℕ)
  pub cased : List (ℕ × ℕ)
  pub case_ignorable : List (ℕ × ℕ)

unfoldable pub in_ranges : ℕ → List (ℕ × ℕ) → Bool
in_ranges value ranges = any (λ r. leb r.0 value && leb value r.1) ranges

pub data LowercaseError (E : Type 0) : Type 0 where
  checkpoint_failed : E → LowercaseError E
  resource : LowercaseError E

pub data Bounded (E A : Type 0) : Type 0 where
  done : A → Bounded E A
  failed : LowercaseError E → Bounded E A

-- `str::len` of the scalars, in bytes
abbrev pub len_utf8 : ℕ → ℕ
len_utf8 value =
    if ltb value 0x80 then 1 else if ltb value 0x800 then 2 else if ltb value 0x10000 then 3 else 4

abbrev pub utf8_length : List ℕ → ℕ
utf8_length [] = 0
utf8_length (value ∷ values) = len_utf8 value + utf8_length values

abbrev pub capital_sigma : ℕ
capital_sigma = 0x03A3

unfoldable pub lookup : ℕ → List (ℕ × List ℕ) → List ℕ
lookup value [] = value ∷ []
lookup value ((source, values) ∷ mappings) =
    let rest = lookup value mappings in if nat_eq source value then values else rest

-- What a scalar becomes.
abbrev pub mapped : Tables → ℕ → Bool → List ℕ
mapped t value true = 0x03C2 ∷ []
mapped t value false = lookup value t.mappings

-- The loop that appends, with the bound on the output.
unfoldable pub push_all : ℕ → List ℕ → List ℕ → Option (List ℕ)
push_all max_output_bytes [] output = some output
push_all max_output_bytes (value ∷ values) output =
    let next = utf8_length output + len_utf8 value in
    let pushed = push_all max_output_bytes values (output ++ (value ∷ [])) in
    if leb u64_mod next || ltb max_output_bytes next then none else pushed

-- `checkpoint` is called between the steps, and may end the work; `S` is what it changes.
module _ {S E : Type 0} (checkpoint : S → Option E × S) where
  -- The operator `?` on a step that has the state of the checkpoints.
  abbrev pub and_then :
      {A B : Type 0} → (A → S → Bounded E B × S) → Bounded E A → S → Bounded E B × S
  and_then k (done a) s = k a s
  and_then k (failed e) s = (failed e, s)

  abbrev checked : {A : Type 0} → (S → Bounded E A × S) → Option E → S → Bounded E A × S
  checked k none s = k s
  checked k (some e) s = (failed (LowercaseError.checkpoint_failed e), s)

  -- Whether the first scalar that is not to be ignored is cased.
  unfoldable pub first_cased_checked : Tables → List ℕ → S → Bounded E Bool × S
  unfolding in_ranges
  first_cased_checked t [] s = (done false, s)
  first_cased_checked t (value ∷ values) s =
      let (stopped, s') = checkpoint s in
      checked
        (λ s''. elim (in_ranges value t.case_ignorable) [
          | true ↦ first_cased_checked t values s''
          | false ↦ (done (in_ranges value t.cased), s'')
        ])
        stopped s'

  -- The scalars before the sigma are the last one first.
  unfoldable pub is_final_sigma_checked : Tables → List ℕ → List ℕ → S → Bounded E Bool × S
  unfolding first_cased_checked
  is_final_sigma_checked t before after s =
      let (cased_before, s') = first_cased_checked t before s in
      and_then
        (λ has_cased_before s''. elim has_cased_before [
          | false ↦ (done false, s'')
          | true ↦
              let (cased_after, later) = first_cased_checked t after s'' in
              and_then (λ has_cased_after end. (done (not has_cased_after), end)) cased_after later
        ])
        cased_before s'

  -- The first loop, which collects the scalars.
  unfoldable pub collect : List ℕ → S → Bounded E (Unit {0}) × S
  collect [] s = (done tt, s)
  collect (value ∷ values) s =
      let (stopped, s') = checkpoint s in checked (λ s''. collect values s'') stopped s'

  -- The test for a sigma at the end of a word, which is only made of a sigma.
  abbrev pub final_sigma_checked : Tables → ℕ → List ℕ → List ℕ → S → Bounded E Bool × S
  final_sigma_checked t value before after s =
      if nat_eq value capital_sigma
      then is_final_sigma_checked t before after s
      else (done false, s)

  unfoldable pub lower_loop : Tables → ℕ → List ℕ → List ℕ → List ℕ → S → Bounded E (List ℕ) × S
  unfolding is_final_sigma_checked push_all lookup
  lower_loop t max_output_bytes before [] output s = (done output, s)
  lower_loop t max_output_bytes before (value ∷ after) output s =
      let (stopped, s') = checkpoint s in
      checked
        (λ s''.
          let (final_sigma, s1) = final_sigma_checked t value before after s'' in
          and_then
            (λ is_final s2. elim (push_all max_output_bytes (mapped t value is_final) output) [
              | none ↦ (failed LowercaseError.resource, s2)
              | some output' ↦ lower_loop t max_output_bytes (value ∷ before) after output' s2
            ])
            final_sigma s1)
        stopped s'

  unfoldable pub lowercase_bounded : Tables → ℕ → List ℕ → S → Bounded E (List ℕ) × S
  unfolding collect lower_loop
  lowercase_bounded t max_output_bytes value s =
      let (collected, s') = collect value s in
      and_then (λ all s''. lower_loop t max_output_bytes [] value [] s'') collected s'

abbrev done_or_panic : Bounded ⊥ (List ℕ) → Option (List ℕ)
done_or_panic (done output) = some output
done_or_panic (failed e) = none

-- Without a bound but that of a `usize`, and with checkpoints that never fail; `none` is a panic.
unfoldable pub lowercase : Tables → List ℕ → Option (List ℕ)
unfolding lowercase_bounded
lowercase t value =
    done_or_panic (lowercase_bounded {S = Unit {0}} (λ s. (none, s)) t (u64_mod - 1) value tt).0
