-- ===== src/Retrieval/Finite.antt =====
-- `validate_schema` ends on any value, if the references of the domain do not go round in a circle.
use aira_graphdb.Base.{
  ℕ, zero, suc, ◌<◌, ◌≡◌, ◌≢◌, String, Bool, true, false, string_eq, Option, none, some, List, [],
  ◌∷◌, refl, arith,
}
use Prim.Native.String.{◌++◌}
use aira_graphdb.Base.Checked.{valid, invalid}
use aira_graphdb.Retrieval.Json.{
  null, bool, number, string, array, object, Json, Fields, get, to_list,
}
use aira_graphdb.Retrieval.Schema.{
  ContractNode, any_string, any_number, any_boolean, literal, array_of, tuple, optional, object_of,
  external_ref, Nodes, no_nodes, node, Members, no_members, member, Ends, ends, endless, ◌then◌,
  fail, test, each, check_node, check_tuple, check_members, contract_of, validate_schema, at_index,
  at_field, with_array, with_object, field_or,
}

-- Every reference in a node satisfies `P`.
module _ (P : String → Type 0) where
  unfoldable mutual
    pub AllRefs : ContractNode → Type 0
    AllRefs any_string = Unit
    AllRefs any_number = Unit
    AllRefs any_boolean = Unit
    AllRefs (literal values) = Unit
    AllRefs (array_of item) = AllRefs item
    AllRefs (tuple items) = AllRefsNodes items
    AllRefs (optional item) = AllRefs item
    AllRefs (object_of fields) = AllRefsMembers fields
    AllRefs (external_ref dependency kind) = P kind

    pub AllRefsNodes : Nodes → Type 0
    AllRefsNodes no_nodes = Unit
    AllRefsNodes (node item items) = AllRefs item × AllRefsNodes items

    pub AllRefsMembers : Members → Type 0
    AllRefsMembers no_members = Unit
    AllRefsMembers (member key child rest) = AllRefs child × AllRefsMembers rest

test-ends : (b : Bool) (message : String) → test b message ≢ endless
test-ends true message h = absurd cc
test-ends false message h = absurd cc

then-ends : (e k : Ends (Unit {0})) → e ≢ endless → k ≢ endless → (e then k) ≢ endless
then-ends (ends (valid _)) k he hk = hk
then-ends (ends (invalid message)) k he hk = λ h. absurd cc
then-ends endless k he hk = absurd (he refl)

each-ends :
    (check : ℕ → Json → Ends (Unit {0})) (index : ℕ) (xs : List Json)
    → ((index : ℕ) (x : Json) → check index x ≢ endless)
    → each check index xs ≢ endless
unfolding each
each-ends check index [] h = λ g. absurd cc
each-ends check index (x ∷ xs) h = then-ends _ _ (h index x) (each-ends check (suc index) xs h)

with_array-ends :
    (v : Json) (message : String) (k : List Json → Ends (Unit {0}))
    → ((xs : List Json) → k xs ≢ endless)
    → with_array v message k ≢ endless
with_array-ends (array xs) message k h = h (to_list xs)
with_array-ends null message k h = λ g. absurd cc
with_array-ends (bool b) message k h = λ g. absurd cc
with_array-ends (string s) message k h = λ g. absurd cc
with_array-ends (number n) message k h = λ g. absurd cc
with_array-ends (object fs) message k h = λ g. absurd cc

with_object-ends :
    (v : Json) (message : String) (k : Fields → Ends (Unit {0}))
    → ((fs : Fields) → k fs ≢ endless)
    → with_object v message k ≢ endless
with_object-ends (object fs) message k h = h fs
with_object-ends null message k h = λ g. absurd cc
with_object-ends (bool b) message k h = λ g. absurd cc
with_object-ends (string s) message k h = λ g. absurd cc
with_object-ends (number n) message k h = λ g. absurd cc
with_object-ends (array xs) message k h = λ g. absurd cc

field_or-ends :
    (found : Option Json) (missing : Ends (Unit {0})) (k : Json → Ends (Unit {0}))
    → missing ≢ endless
    → ((v : Json) → k v ≢ endless)
    → field_or found missing k ≢ endless
field_or-ends none missing k hm hk = hm
field_or-ends (some v) missing k hm hk = hk v

module _ (resolve : String → Json → String → Ends (Unit {0})) where
  abbrev Resolves : String → Type 0
  Resolves kind = (v : Json) (path : String) → resolve kind v path ≢ endless

  mutual
    unfolding check_node AllRefs

    check_node-ends :
        (n : ContractNode) (v : Json) (path : String)
        → AllRefs Resolves n
        → check_node resolve n v path ≢ endless
    check_node-ends any_string v path r = test-ends _ _
    check_node-ends any_number v path r = test-ends _ _
    check_node-ends any_boolean v path r = test-ends _ _
    check_node-ends (literal values) v path r = test-ends _ _
    check_node-ends (array_of item) v path r =
        with_array-ends v _ _
          λ xs. each-ends _ 0 xs (λ index x. check_node-ends item x (at_index path index) r)
    check_node-ends (tuple items) v path r =
        with_array-ends v _ _
          λ xs. then-ends _ _ (test-ends _ _) (check_tuple-ends items 0 xs path r)
    check_node-ends (optional item) v path r =
        then-ends _ _ (test-ends _ _) (check_node-ends item v path r)
    check_node-ends (object_of fields) v path r =
        with_object-ends v _ _
          λ map. then-ends _ _ (test-ends _ _) (check_members-ends fields map path r)
    check_node-ends (external_ref dependency kind) v path r =
        then-ends _ _ (test-ends _ _) (r v path)

    check_tuple-ends :
        (items : Nodes) (index : ℕ) (xs : List Json) (path : String)
        → AllRefsNodes Resolves items
        → check_tuple resolve items index xs path ≢ endless
    check_tuple-ends no_nodes index xs path r = λ h. absurd cc
    check_tuple-ends (node item items) index [] path r = λ h. absurd cc
    check_tuple-ends (node item items) index (x ∷ xs) path r =
        then-ends _ _ (check_node-ends item x (at_index path index) r.0)
          (check_tuple-ends items (suc index) xs path r.1)

    check_members-ends :
        (ms : Members) (map : Fields) (path : String)
        → AllRefsMembers Resolves ms
        → check_members resolve ms map path ≢ endless
    check_members-ends no_members map path r = λ h. absurd cc
    check_members-ends (member key child rest) map path r =
        then-ends _ _
          (field_or-ends (get key map) _ _ (test-ends _ _)
            (λ v. check_node-ends child v (at_field path key) r.0))
          (check_members-ends rest map path r.1)

mutual
  unfolding AllRefs

  AllRefs-map :
      (P Q : String → Type 0) (f : (kind : String) → P kind → Q kind) (n : ContractNode)
      → AllRefs P n
      → AllRefs Q n
  AllRefs-map P Q f any_string r = tt
  AllRefs-map P Q f any_number r = tt
  AllRefs-map P Q f any_boolean r = tt
  AllRefs-map P Q f (literal values) r = tt
  AllRefs-map P Q f (array_of item) r = AllRefs-map P Q f item r
  AllRefs-map P Q f (tuple items) r = AllRefsNodes-map P Q f items r
  AllRefs-map P Q f (optional item) r = AllRefs-map P Q f item r
  AllRefs-map P Q f (object_of fields) r = AllRefsMembers-map P Q f fields r
  AllRefs-map P Q f (external_ref dependency kind) r = f kind r

  AllRefsNodes-map :
      (P Q : String → Type 0) (f : (kind : String) → P kind → Q kind) (ns : Nodes)
      → AllRefsNodes P ns
      → AllRefsNodes Q ns
  AllRefsNodes-map P Q f no_nodes r = tt
  AllRefsNodes-map P Q f (node item items) r =
      (AllRefs-map P Q f item r.0, AllRefsNodes-map P Q f items r.1)

  AllRefsMembers-map :
      (P Q : String → Type 0) (f : (kind : String) → P kind → Q kind) (ms : Members)
      → AllRefsMembers P ms
      → AllRefsMembers Q ms
  AllRefsMembers-map P Q f no_members r = tt
  AllRefsMembers-map P Q f (member key child rest) r =
      (AllRefs-map P Q f child r.0, AllRefsMembers-map P Q f rest r.1)

-- If the contracts of the domain refer to one another only downwards by some level, and the schema
-- only to levels below the number of references that is allowed, then `validate_schema` ends on
-- every value.
pub validate_schema-ends :
    (domain : Members) (level : String → ℕ) (references : ℕ) (n : ContractNode) (value : Json)
    (path : String)
    → ((kind : String) (child : ContractNode)
        → contract_of kind domain ≡ some child
        → AllRefs (λ k. level k < level kind) child)
    → AllRefs (λ k. level k < references) n
    → validate_schema references domain n value path ≢ endless
unfolding validate_schema
validate_schema-ends domain level zero n value path ranked below =
    check_node-ends _ n value path
      (AllRefs-map (λ k. level k < zero) _ (λ kind h. absurd (omega arith)) n below)
validate_schema-ends domain level (suc references) n value path ranked below =
    check_node-ends _ n value path (
      AllRefs-map (λ k. level k < suc references) _
        (λ kind h v path. found (contract_of kind domain) kind (λ child same.
          validate_schema-ends domain level references child v path ranked (
            AllRefs-map (λ k. level k < level kind) _ (λ k lower. omega arith) child
              (ranked kind child same))))
        n below)
  where
    found :
        {check : ContractNode → Ends (Unit {0})} (o : Option ContractNode) (kind : String)
        → ((child : ContractNode) → o ≡ some child → check child ≢ endless)
        → (elim o [
          | none ↦ fail ("unknown delegated domain reference " ++ kind)
          | some child ↦ check child
        ])
          ≢ endless
    found none kind h = λ g. absurd cc
    found (some child) kind h = h child refl
