-- ===== src/Persistence/Frames.antt =====
-- What a progress frame that was accepted holds.
use aira_graphdb.Base.{
  ℕ, ◌≤◌, ◌≡◌, ◌≢◌, ◌↔◌, String, Bool, true, false, not, ◌||◌, Option, none, some, any, refl, arith,
  ◌==◌, eq_iff, string_eq, ◌∙◌, ap, sym, ◌⊎◌, inl, inr, nat_eq, if◌then◌else◌,
}
use mathlib.Core.Path.{subst}
use aira_graphdb.Base.Checked.{Checked, valid, ensure, bind_valid, ensure_valid, valid_injective}
use aira_graphdb.Persistence.{json_safe_integer_max, is_safe_integer}
use aira_graphdb.Persistence.Progress.{
  ProgressCounters, NativeProgressFrame, RawNativeProgressFrame, check_total, new_counters,
  no_counters, admitted, progress, frame_bytes, is_first, validated_frame, is_inventory,
  from_canonical_bytes, batch_commit_phases,
}

-- A count is at most its total, if this is known.
pub record IsCount (completed : ℕ) (total : Option ℕ) : Type 0 where
  pub safe : completed ≤ json_safe_integer_max
  pub within : (t : ℕ) → total ≡ some t → (completed ≤ t) × (t ≤ json_safe_integer_max)

pub record IsFrame (f : NativeProgressFrame) : Type 0 where
  pub id_safe : f.id ≤ json_safe_integer_max
  pub some_sequence : 1 ≤ f.sequence
  pub sequence_safe : f.sequence ≤ json_safe_integer_max
  pub known_phase : any (λ p. p == f.phase) batch_commit_phases ≡ true
  pub first_iff : (f.phase ≡ "admitted") ↔ (f.sequence ≡ 1)
  pub units : IsCount f.counters.completed_units f.counters.total_units
  pub bytes : IsCount f.counters.completed_bytes f.counters.total_bytes

check_total_lem :
    (name : String) (completed : ℕ) (total : Option ℕ) (u : Unit {0})
    → completed ≤ json_safe_integer_max
    → check_total name completed total ≡ valid u
    → IsCount completed total
check_total_lem name completed none u safe h = record { safe = safe; within = λ t x. absurd cc }
check_total_lem name completed (some total) u safe h =
    let (_, (total_safe, h1)) = bind_valid (ensure (is_safe_integer total true) _) _ u h in
    let is_total = ensure_valid _ _ _ total_safe in
    let is_within = ensure_valid _ _ _ h1 in
    record { safe = safe; within = λ t x. (ground (arith, is_within), ground (arith, is_total)) }

new_counters_lem :
    (c d : ProgressCounters)
    → new_counters c ≡ valid d
    → IsCount d.completed_units d.total_units × IsCount d.completed_bytes d.total_bytes
unfolding new_counters
new_counters_lem c d h =
    let (_, (units, h1)) = bind_valid (ensure (is_safe_integer c.completed_units true) _) _ d h in
    let (_, (bytes, h2)) = bind_valid (ensure (is_safe_integer c.completed_bytes true) _) _ d h1 in
    let (u, (in_units, h3)) =
      bind_valid (check_total "totalUnits" c.completed_units c.total_units) _ d h2 in
    let (v, (in_bytes, done)) =
      bind_valid (check_total "totalBytes" c.completed_bytes c.total_bytes) _ d h3 in
    let safe_units = ensure_valid _ _ _ units in
    let safe_bytes = ensure_valid _ _ _ bytes in
    let same : c ≡ d = valid_injective done in
    subst (λ d. IsCount d.completed_units d.total_units × IsCount d.completed_bytes d.total_bytes)
      same
      (
        check_total_lem "totalUnits" c.completed_units c.total_units u (ground (arith, safe_units))
            in_units,
        check_total_lem "totalBytes" c.completed_bytes c.total_bytes v (ground (arith, safe_bytes))
            in_bytes,
      )

safe_lem :
    (n : ℕ) (allow_zero : Bool) → is_safe_integer n allow_zero ≡ true → n ≤ json_safe_integer_max
safe_lem n allow_zero h = ground arith

positive_lem : (n : ℕ) → is_safe_integer n false ≡ true → 1 ≤ n
positive_lem n h = ground arith

later_lem : (n : ℕ) → not (nat_eq n 1) ≡ true → n ≢ 1
later_lem n h = ground arith

not_both : (b : Bool) → b ≡ true → b ≢ false
not_both b h g = absurd cc

phase_lem :
    (is_admitted known : Bool)
    → not (is_admitted || not known) ≡ true
    → (is_admitted ≡ false) × (known ≡ true)
phase_lem is_admitted known h = ground arith

either {ℓ} : {A : Type ℓ} (b : Bool) (x y r : A) → (if b then x else y) ≡ r → (x ≡ r) ⊎ (y ≡ r)
either true x y r h = inl h
either false x y r h = inr h

admitted-IsFrame : (id : ℕ) (g : NativeProgressFrame) → admitted id ≡ valid g → IsFrame g
unfolding admitted
admitted-IsFrame id g h =
    let (_, (safe, done)) = bind_valid (ensure (is_safe_integer id true) _) _ g h in
    let same : record { id = id; sequence = 1; phase = "admitted"; counters = no_counters } ≡ g =
      valid_injective done in
    subst IsFrame same record {
      id_safe = safe_lem id true (ensure_valid _ _ _ safe);
      some_sequence = omega arith;
      sequence_safe = omega arith;
      known_phase = refl;
      first_iff = ((λ x. refl), (λ x. refl));
      units = record { safe = omega arith; within = λ t x. absurd cc };
      bytes = record { safe = omega arith; within = λ t x. absurd cc };
    }

progress-IsFrame :
    (id sequence : ℕ) (phase : String) (c : ProgressCounters) (g : NativeProgressFrame)
    → IsCount c.completed_units c.total_units × IsCount c.completed_bytes c.total_bytes
    → progress id sequence phase c ≡ valid g
    → IsFrame g
unfolding progress
progress-IsFrame id sequence phase c g (units, bytes) h =
    let known = any (λ p. p == phase) batch_commit_phases in
    let (_, (phases, h1)) = bind_valid (ensure (not (phase == "admitted" || not known)) _) _ g h in
    let (_, (safe, h2)) = bind_valid (ensure (is_safe_integer id true) _) _ g h1 in
    let (_, (sequence_safe, h3)) = bind_valid (ensure (is_safe_integer sequence false) _) _ g h2 in
    let (_, (reserved, done)) = bind_valid (ensure (not (nat_eq sequence 1)) _) _ g h3 in
    let is_sequence = ensure_valid _ _ _ sequence_safe in
    let (later, is_known) = phase_lem (phase == "admitted") known (ensure_valid _ _ _ phases) in
    let not_first = later_lem sequence (ensure_valid _ _ _ reserved) in
    subst IsFrame (valid_injective done) record {
      id_safe = safe_lem id true (ensure_valid _ _ _ safe);
      some_sequence = positive_lem sequence is_sequence;
      sequence_safe = safe_lem sequence false is_sequence;
      known_phase = is_known;
      first_iff = (
        (λ is_admitted.
            absurd
              (not_both (phase == "admitted") ((eq_iff phase "admitted").1 is_admitted) later)),
        (λ is_one. absurd (not_first is_one)),
      );
      units = units;
      bytes = bytes;
    }

validated-IsFrame : (f g : NativeProgressFrame) → validated_frame f ≡ valid g → IsFrame g
unfolding validated_frame
validated-IsFrame f g h = elim (either (f.phase == "admitted") _ _ _ h) [
  | inl first ↦
      let (_, (_, h1)) = bind_valid (ensure (is_first f) _) _ g first in admitted-IsFrame f.id g h1
  | inr later ↦
      let (c, (counted, h1)) = bind_valid (new_counters f.counters) _ g later in
      progress-IsFrame f.id f.sequence f.phase c g (new_counters_lem f.counters c counted) h1
]

-- Whatever the JSON parser reads, bytes that are accepted as a progress frame are the canonical
-- bytes of the frame. It is of a known phase, it has sequence 1 exactly if it is the admitted one,
-- its numbers are integers that JSON holds exactly, and no counter is above its total.
pub from_canonical_bytes-IsFrame :
    (parse : String → Checked RawNativeProgressFrame) (raw : String) (f : NativeProgressFrame)
    → from_canonical_bytes parse raw ≡ valid f
    → (frame_bytes f ≡ raw) × IsFrame f
unfolding from_canonical_bytes
from_canonical_bytes-IsFrame parse raw f h =
    let (parsed, (_, h1)) = bind_valid (parse raw) _ f h in
    let (_, (_, h2)) = bind_valid (ensure (is_inventory parsed) _) _ f h1 in
    let (g, (validated, h3)) = bind_valid (validated_frame parsed.frame) _ f h2 in
    let (u, (canonical, done)) = bind_valid (ensure (frame_bytes g == raw) _) _ f h3 in
    let written = (eq_iff (frame_bytes g) raw).0 (ensure_valid _ _ u canonical) in
    let same : g ≡ f = valid_injective done in
    (
      ap frame_bytes (sym same) ∙ written,
      subst IsFrame same (validated-IsFrame parsed.frame g validated),
    )
