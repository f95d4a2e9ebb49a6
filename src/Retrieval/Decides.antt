-- ===== src/Retrieval/Decides.antt =====
-- `validate_schema` decides whether a value conforms.
use aira_graphdb.Base.{
  ℕ, zero, suc, ◌≡◌, ◌↔◌, String, true, ◌==◌, string_eq, eq_iff, Option, none, some, List, [], ◌∷◌,
  all, nat_eq, nat_eq_iff, length, All, refl, ap, arith,
}
use Prim.Native.String.{◌++◌}
use mathlib.Core.Path.{subst}
use aira_graphdb.Retrieval.Json.{Json, Fields, get, keys}
use aira_graphdb.Retrieval.Schema.{
  ContractNode, any_string, any_number, any_boolean, literal, array_of, tuple, optional, object_of,
  external_ref, Nodes, no_nodes, node, Members, no_members, member, Ends, fail, done, contains,
  is_optional, member_keys, nodes_length, check_node, check_tuple, check_members, domain_version,
  contract_of, validate_schema, absent, at_index, at_field, field_or,
}
use aira_graphdb.Retrieval.Conforms.{
  Conforms, ConformAll, HasMembers, test_iff, both, each_iff, is_string_iff, is_boolean_iff,
  is_null_iff, with_array_iff, with_object_iff, then_iff, never,
}

-- A length test and a check in step are a check of all.
module _ (Refers : String → Json → Type 0) where
  ConformAll-length :
      (items : Nodes) (xs : List Json) → ConformAll Refers items xs → length xs ≡ nodes_length items
  unfolding Conforms
  ConformAll-length no_nodes [] h = refl
  ConformAll-length no_nodes (x ∷ xs) h = absurd h
  ConformAll-length (node item items) [] h = absurd h
  ConformAll-length (node item items) (x ∷ xs) h = ap suc (ConformAll-length items xs h.1)

  -- The field of a member, present or not.
  field_iff :
      (found : Option Json) (child : ContractNode) (path : String) (check : Json → Ends (Unit {0}))
      → ((v : Json) → (check v ≡ done) ↔ Conforms Refers child v)
      → (field_or found (absent child path) check ≡ done) ↔ (
          ((v : Json) → found ≡ some v → Conforms Refers child v)
          × (found ≡ none → is_optional child ≡ true))
  field_iff none child path check h = (
    λ g. (λ v same. absurd cc, λ same. (test_iff (is_optional child) _).0 g),
    λ g. (test_iff (is_optional child) _).1 (g.1 refl),
  )
  field_iff (some w) child path check h = (
    λ g. (
      λ v same. let is_v : w ≡ v = cc in subst (Conforms Refers child) is_v ((h w).0 g),
      λ same. absurd cc,
    ),
    λ g. (h w).1 (g.0 w refl),
  )

module _ (resolve : String → Json → String → Ends (Unit {0})) (Refers : String → Json → Type 0)
    (meaning : (kind : String) (v : Json) (path : String)
      → (resolve kind v path ≡ done) ↔ Refers kind v) where
  mutual
    unfolding check_node Conforms

    check_node_iff :
        (n : ContractNode) (v : Json) (path : String)
        → (check_node resolve n v path ≡ done) ↔ Conforms Refers n v
    check_node_iff any_string v path =
        let (to, from) = test_iff _ _ in
        let (to', from') = is_string_iff v in (λ h. to' (to h), λ h. from (from' h))
    check_node_iff any_number v path = test_iff _ _
    check_node_iff any_boolean v path =
        let (to, from) = test_iff _ _ in
        let (to', from') = is_boolean_iff v in (λ h. to' (to h), λ h. from (from' h))
    check_node_iff (literal values) v path = test_iff _ _
    check_node_iff (array_of item) v path = with_array_iff v _ _ (All (Conforms Refers item)) λ xs.
        each_iff _ (Conforms Refers item) (λ index x. check_node_iff item x (at_index path index)) 0
          xs
    check_node_iff (tuple items) v path = with_array_iff v _ _ (ConformAll Refers items) λ xs.
        let (to, from) = test_iff (nat_eq (length xs) (nodes_length items)) _ in
        let (to', from') = nat_eq_iff (length xs) (nodes_length items) in
        let checked = check_tuple_iff items 0 xs path in
        (
          λ h. let (l, r) = (then_iff _ _).0 h in (checked (to' (to l))).0 r,
          λ h.
              let same = ConformAll-length Refers items xs h in
              (then_iff _ _).1 (from (from' same), (checked same).1 h),
        )
    check_node_iff (optional item) v path =
        let (to, from) = test_iff _ _ in
        let (to', from') = is_null_iff v in
        both _ _ ((λ h. to' (to h), λ h. from (from' h))) (check_node_iff item v path)
    check_node_iff (object_of fields) v path =
        with_object_iff v _ _
          (λ map.
            (all (λ key. contains key (member_keys fields)) (keys map) ≡ true)
            × HasMembers Refers fields map)
          λ map. both _ _ (test_iff _ _) (check_members_iff fields map path)
    check_node_iff (external_ref dependency kind) v path =
        let (to, from) = test_iff (dependency == domain_version) _ in
        let (to', from') = eq_iff dependency domain_version in
        both _ _ ((λ h. to' (to h), λ h. from (from' h))) (meaning kind v path)

    check_tuple_iff :
        (items : Nodes) (index : ℕ) (xs : List Json) (path : String)
        → length xs ≡ nodes_length items
        → (check_tuple resolve items index xs path ≡ done) ↔ ConformAll Refers items xs
    check_tuple_iff no_nodes index [] path same = (λ h. tt, λ h. refl)
    check_tuple_iff no_nodes index (x ∷ xs) path same = absurd (omega arith)
    check_tuple_iff (node item items) index [] path same = absurd (omega arith)
    check_tuple_iff (node item items) index (x ∷ xs) path same =
        both _ _ (check_node_iff item x (at_index path index))
          (check_tuple_iff items (suc index) xs path (omega arith))

    check_members_iff :
        (ms : Members) (map : Fields) (path : String)
        → (check_members resolve ms map path ≡ done) ↔ HasMembers Refers ms map
    check_members_iff no_members map path = (λ h. tt, λ h. refl)
    check_members_iff (member key child rest) map path =
        let here =
          field_iff Refers (get key map) child (at_field path key) _
            λ v. check_node_iff child v (at_field path key) in
        let there = check_members_iff rest map path in
        let (to, from) = both _ _ here there in
        (λ h. let (l, r) = to h in (l.0, l.1, r), λ h. from ((h.0, h.1), h.2))

-- What a reference of the domain means, with so many further references below it.
unfoldable pub Refers : ℕ → Members → String → Json → Type 0
unfolding Conforms
Refers zero domain kind value = ⊥
Refers (suc references) domain kind value =
    (child : ContractNode) × ((contract_of kind domain ≡ some child)
      × Conforms (Refers references domain) child value)

reference_iff :
    (o : Option ContractNode) (message : String) (check : ContractNode → Ends (Unit {0}))
    (P : ContractNode → Type 0)
    → ((child : ContractNode) → (check child ≡ done) ↔ P child)
    → (elim o [ none ↦ fail message | some child ↦ check child ] ≡ done)
      ↔ ((child : ContractNode) × ((o ≡ some child) × P child))
reference_iff none message check P h = never message (λ g. cc g.1.0)
reference_iff (some child) message check P h = (
  λ g. (child, (refl, (h child).0 g)),
  λ (other, (same, p)). let is_child : other ≡ child = cc in (h child).1 (subst P is_child p),
)

-- `validate_schema` accepts a value exactly if it conforms to the schema: with the right shape
-- everywhere, a tuple in its length, an object with no unknown field and with each field that is
-- not optional, and a reference to the domain by what the contract with this name says, as deep as
-- the references that are allowed.
pub validate_schema_iff :
    (references : ℕ) (domain : Members) (n : ContractNode) (value : Json) (path : String)
    → (validate_schema references domain n value path ≡ done)
      ↔ Conforms (Refers references domain) n value
unfolding validate_schema Refers
validate_schema_iff zero domain n value path =
    check_node_iff _ (Refers zero domain) (λ kind v path. (λ h. absurd cc, λ h. absurd h)) n value
      path
validate_schema_iff (suc references) domain n value path =
    check_node_iff _ (Refers (suc references) domain)
      (λ kind v path.
        reference_iff (contract_of kind domain) ("unknown delegated domain reference " ++ kind)
          (λ child. validate_schema references domain child v path)
          (λ child. Conforms (Refers references domain) child v)
          (λ child. validate_schema_iff references domain child v path))
      n value path
