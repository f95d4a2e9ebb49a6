-- ===== src/Retrieval/Conforms.antt =====
-- What it means that a value conforms to a schema, and that `validate_schema` decides this.
use aira_graphdb.Base.{
  ℕ, suc, ◌≡◌, ◌≢◌, ◌↔◌, String, Bool, true, false, not, none, some, List, [], ◌∷◌, string_eq, any,
  all, if◌then◌else◌, All, refl, sym, arith,
}
use mathlib.Core.Path.{subst}
use aira_graphdb.Base.Checked.{valid, invalid}
use aira_graphdb.Retrieval.Json.{
  Json, null, bool, number, string, array, object, Items, Fields, to_list, get, keys, json_eq,
}
use aira_graphdb.Retrieval.Schema.{
  ContractNode, any_string, any_number, any_boolean, literal, array_of, tuple, optional, object_of,
  external_ref, Nodes, no_nodes, node, Members, no_members, member, Ends, ends, endless, ◌then◌,
  fail, done, test, contains, is_optional, member_keys, each, with_array, with_object,
  is_finite_number, domain_version, is_string, is_boolean, is_null,
}

-- `Refers kind value`: the value conforms to the contract of the domain with this name.
module _ (Refers : String → Json → Type 0) where
  unfoldable mutual
    pub Conforms : ContractNode → Json → Type 0
    Conforms any_string value = (s : String) × (value ≡ string s)
    Conforms any_number value = is_finite_number value ≡ true
    Conforms any_boolean value = (b : Bool) × (value ≡ bool b)
    Conforms (literal values) value = any (λ expected. json_eq expected value) values ≡ true
    Conforms (array_of item) value =
        (xs : Items) × (value ≡ array xs) × All (Conforms item) (to_list xs)
    Conforms (tuple items) value = (xs : Items) × (value ≡ array xs) × ConformAll items (to_list xs)
    Conforms (optional item) value = (value ≢ null) × Conforms item value
    Conforms (object_of fields) value =
        (map : Fields) × (value ≡ object map)
        × ((all (λ key. contains key (member_keys fields)) (keys map) ≡ true)
            × HasMembers fields map)
    Conforms (external_ref dependency kind) value =
        (dependency ≡ domain_version) × Refers kind value

    -- As many values as nodes, each of which conforms
    pub ConformAll : Nodes → List Json → Type 0
    ConformAll no_nodes [] = Unit
    ConformAll no_nodes (x ∷ xs) = ⊥
    ConformAll (node item items) [] = ⊥
    ConformAll (node item items) (x ∷ xs) = Conforms item x × ConformAll items xs

    -- Every field of the contract is there and conforms, or is optional.
    pub HasMembers : Members → Fields → Type 0
    HasMembers no_members map = Unit
    HasMembers (member key child rest) map =
        ((value : Json) → get key map ≡ some value → Conforms child value)
        × (get key map ≡ none → is_optional child ≡ true)
        × HasMembers rest map

pub test_iff : (b : Bool) (message : String) → (test b message ≡ done) ↔ (b ≡ true)
test_iff true message = (λ h. refl, λ h. refl)
test_iff false message = (λ h. absurd (ground arith), λ h. absurd cc)

pub then_iff : (e k : Ends (Unit {0})) → ((e then k) ≡ done) ↔ ((e ≡ done) × (k ≡ done))
then_iff (ends (valid _)) k = (λ h. (refl, h), λ h. h.1)
then_iff (ends (invalid message)) k = (λ h. absurd (ground arith), λ h. absurd (ground arith))
then_iff endless k = (λ h. absurd cc, λ h. absurd (cc))

-- Both parts of a sequence, each with its meaning.
pub both {ℓ κ} :
    {P : Type ℓ} {Q : Type κ} (e k : Ends (Unit {0}))
    → (e ≡ done) ↔ P
    → (k ≡ done) ↔ Q
    → ((e then k) ≡ done) ↔ (P × Q)
both e k p q = (
  λ h. let (l, r) = (then_iff e k).0 h in (p.0 l, q.0 r),
  λ h. (then_iff e k).1 (p.1 h.0, q.1 h.1),
)

pub each_iff {ℓ} :
    (check : ℕ → Json → Ends (Unit {0})) (P : Json → Type ℓ)
    → ((index : ℕ) (x : Json) → (check index x ≡ done) ↔ P x)
    → (index : ℕ) (xs : List Json) → (each check index xs ≡ done) ↔ All P xs
unfolding each
each_iff check P h index [] = (λ g. tt, λ g. refl)
each_iff check P h index (x ∷ xs) = both _ _ (h index x) (each_iff check P h (suc index) xs)

pub is_string_iff : (v : Json) → (is_string v ≡ true) ↔ ((s : String) × (v ≡ string s))
is_string_iff (string s) = (λ h. (s, refl), λ h. refl)
is_string_iff null = (λ h. absurd cc, λ h. absurd (cc h.1))
is_string_iff (bool b) = (λ h. absurd cc, λ h. absurd (cc h.1))
is_string_iff (number n) = (λ h. absurd cc, λ h. absurd (cc h.1))
is_string_iff (array xs) = (λ h. absurd cc, λ h. absurd (cc h.1))
is_string_iff (object fs) = (λ h. absurd cc, λ h. absurd (cc h.1))

pub is_boolean_iff : (v : Json) → (is_boolean v ≡ true) ↔ ((b : Bool) × (v ≡ bool b))
is_boolean_iff (bool b) = (λ h. (b, refl), λ h. refl)
is_boolean_iff null = (λ h. absurd cc, λ h. absurd (cc h.1))
is_boolean_iff (string s) = (λ h. absurd cc, λ h. absurd (cc h.1))
is_boolean_iff (number n) = (λ h. absurd cc, λ h. absurd (cc h.1))
is_boolean_iff (array xs) = (λ h. absurd cc, λ h. absurd (cc h.1))
is_boolean_iff (object fs) = (λ h. absurd cc, λ h. absurd (cc h.1))

pub is_null_iff : (v : Json) → (not (is_null v) ≡ true) ↔ (v ≢ null)
is_null_iff null = (λ h. absurd cc, λ h. absurd (h refl))
is_null_iff (bool b) = (λ h g. absurd cc, λ h. refl)
is_null_iff (string s) = (λ h g. absurd cc, λ h. refl)
is_null_iff (number n) = (λ h g. absurd cc, λ h. refl)
is_null_iff (array xs) = (λ h g. absurd cc, λ h. refl)
is_null_iff (object fs) = (λ h g. absurd cc, λ h. refl)

pub never {ℓ} : {P : Type ℓ} (message : String) → (P → ⊥) → (fail message ≡ done) ↔ P
never message no_way = (λ h. absurd (ground arith), λ p. absurd (no_way p))

pub with_array_iff {ℓ} :
    (value : Json) (message : String) (k : List Json → Ends (Unit {0})) (P : List Json → Type ℓ)
    → ((xs : List Json) → (k xs ≡ done) ↔ P xs)
    → (with_array value message k ≡ done) ↔ ((xs : Items) × (value ≡ array xs) × P (to_list xs))
with_array_iff (array xs) message k P h = (
  λ g. (xs, refl, (h (to_list xs)).0 g),
  λ (ys, same, p).
      let is_ys : xs ≡ ys = cc in (h (to_list xs)).1 (subst (λ zs. P (to_list zs)) (sym is_ys) p),
)
with_array_iff null message k P h = never message (λ p. cc p.1)
with_array_iff (bool b) message k P h = never message (λ p. cc p.1)
with_array_iff (string s) message k P h = never message (λ p. cc p.1)
with_array_iff (number n) message k P h = never message (λ p. cc p.1)
with_array_iff (object fs) message k P h = never message (λ p. cc p.1)

pub with_object_iff {ℓ} :
    (value : Json) (message : String) (k : Fields → Ends (Unit {0})) (P : Fields → Type ℓ)
    → ((fs : Fields) → (k fs ≡ done) ↔ P fs)
    → (with_object value message k ≡ done) ↔ ((fs : Fields) × (value ≡ object fs) × P fs)
with_object_iff (object fs) message k P h = (
  λ g. (fs, refl, (h fs).0 g),
  λ (gs, same, p). let is_gs : fs ≡ gs = cc in (h fs).1 (subst P (sym is_gs) p),
)
with_object_iff null message k P h = never message (λ p. cc p.1)
with_object_iff (bool b) message k P h = never message (λ p. cc p.1)
with_object_iff (string s) message k P h = never message (λ p. cc p.1)
with_object_iff (number n) message k P h = never message (λ p. cc p.1)
with_object_iff (array xs) message k P h = never message (λ p. cc p.1)
