-- ===== src/Retrieval/Schema.antt =====
-- `ContractNode`, how it is read from JSON, and `validate_schema`. A reference to a contract of the
-- domain is a recursive call on the same value: the model counts the references that are still open, and
-- `endless` stands for a recursion that has no more of them.
use Prim.Native.String.{◌++◌}
use aira_graphdb.Base.{
  ◌%◌, ◌^◌, ltb, ℕ, zero, suc, String, Bool, true, false, not, Option, none, some, List, [], ◌∷◌,
  ◌==◌, string_eq, any, all, nat_eq, length, if◌then◌else◌,
}
use aira_graphdb.Base.Decimal.{to_string}
use aira_graphdb.Base.Checked.{Checked, valid, invalid, ensure}
use aira_graphdb.Retrieval.Json.{
  Json, null, bool, number, string, array, object, Fields, pos_int, neg_int, float, to_list, get,
  keys, json_eq,
}

mutual
  pub data ContractNode : Type 0 where
    any_string any_number any_boolean : ContractNode
    literal : List Json → ContractNode
    array_of : ContractNode → ContractNode
    tuple : Nodes → ContractNode
    optional : ContractNode → ContractNode
    object_of : Members → ContractNode
    external_ref : String → String → ContractNode

  pub data Nodes : Type 0 where
    no_nodes : Nodes
    node : ContractNode → Nodes → Nodes

  -- A `BTreeMap`, in the order of its keys
  pub data Members : Type 0 where
    no_members : Members
    member : String → ContractNode → Members → Members

-- What a piece of the code gives: a result, or no end.
pub data Ends {ℓ} (A : Type ℓ) : Type ℓ where
  ends : Checked A → Ends A
  endless : Ends A

infixl 5 ◌then◌
-- What follows a check that succeeds
abbrev pub ◌then◌ : Ends (Unit {0}) → Ends (Unit {0}) → Ends (Unit {0})
◌then◌ (ends (valid _)) k = k
◌then◌ (ends (invalid message)) k = ends (invalid message)
◌then◌ endless k = endless

abbrev pub fail : String → Ends (Unit {0})
fail message = ends (invalid message)

abbrev pub done : Ends (Unit {0})
done = ends (valid tt)

abbrev pub contains : String → List String → Bool
contains key = any (λ k. k == key)

abbrev pub is_optional : ContractNode → Bool
is_optional (optional n) = true
is_optional _ = false

abbrev pub nodes_length : Nodes → ℕ
nodes_length no_nodes = 0
nodes_length (node n ns) = suc (nodes_length ns)

abbrev pub member_keys : Members → List String
member_keys no_members = []
member_keys (member key n ms) = key ∷ member_keys ms

abbrev pub at_index : String → ℕ → String
at_index path index = path ++ ("[" ++ (to_string index ++ "]"))

abbrev pub at_field : String → String → String
at_field path key = path ++ ("." ++ key)

-- Every item of a list, with its index
unfoldable pub each : (ℕ → Json → Ends (Unit {0})) → ℕ → List Json → Ends (Unit {0})
each check index [] = done
each check index (x ∷ xs) = check index x then each check (suc index) xs

abbrev pub is_string : Json → Bool
is_string (string s) = true
is_string _ = false

abbrev pub is_boolean : Json → Bool
is_boolean (bool b) = true
is_boolean _ = false

abbrev pub is_null : Json → Bool
is_null null = true
is_null _ = false

-- `value.as_f64()` that is finite: an integer always is, a float unless its exponent is all ones.
abbrev pub is_finite_number : Json → Bool
is_finite_number (number (float bits)) = ltb (bits % 2 ^ 63) 0x7FF0000000000000
is_finite_number (number (pos_int n)) = true
is_finite_number (number (neg_int n)) = true
is_finite_number _ = false

abbrev pub domain_version : String
domain_version = "aira-synapse-domain-contract@1"

abbrev pub test : Bool → String → Ends (Unit {0})
test b message = ends (ensure b message)

-- What the check of a member does where its field is missing.
abbrev pub absent : ContractNode → String → Ends (Unit {0})
absent child path = test (is_optional child) (path ++ " is missing")

-- `as_array().ok_or_else(..)?` and `object(..)?`
abbrev pub with_array : Json → String → (List Json → Ends (Unit {0})) → Ends (Unit {0})
with_array (array xs) message k = k (to_list xs)
with_array _ message k = fail message

abbrev pub with_object : Json → String → (Fields → Ends (Unit {0})) → Ends (Unit {0})
with_object (object fs) message k = k fs
with_object _ message k = fail message

abbrev pub field_or : Option Json → Ends (Unit {0}) → (Json → Ends (Unit {0})) → Ends (Unit {0})
field_or (some value) missing k = k value
field_or none missing k = missing

-- `resolve` checks a value against a contract of the domain.
module _ (resolve : String → Json → String → Ends (Unit {0})) where
  unfoldable mutual
    unfolding each json_eq

    pub check_node : ContractNode → Json → String → Ends (Unit {0})
    check_node any_string value path = test (is_string value) (path ++ " must be a string")
    check_node any_number value path =
        test (is_finite_number value) (path ++ " must be a finite number")
    check_node any_boolean value path = test (is_boolean value) (path ++ " must be a boolean")
    check_node (literal values) value path =
        test (any (λ expected. json_eq expected value) values)
          (path ++ " is not an allowed literal")
    check_node (array_of item) value path =
        with_array value (path ++ " must be an array")
          λ values. each (λ index x. check_node item x (at_index path index)) 0 values
    check_node (tuple items) value path = with_array value (path ++ " must be a tuple") λ values.
        test (nat_eq (length values) (nodes_length items)) (path ++ " tuple cardinality mismatch")
        then check_tuple items 0 values path
    check_node (optional item) value path =
        test (not (is_null value)) (path ++ " optional value cannot be null")
        then check_node item value path
    check_node (object_of fields) value path =
        with_object value (path ++ " must be an object") λ map.
          test (all (λ key. contains key (member_keys fields)) (keys map))
            (path ++ " contains an unknown field")
          then check_members fields map path
    check_node (external_ref dependency kind) value path =
        test (dependency == domain_version) ("unknown contract dependency " ++ dependency)
        then resolve kind value path

    -- `items.iter().zip(values)`
    pub check_tuple : Nodes → ℕ → List Json → String → Ends (Unit {0})
    check_tuple no_nodes index values path = done
    check_tuple (node item items) index [] path = done
    check_tuple (node item items) index (x ∷ xs) path =
        check_node item x (at_index path index) then check_tuple items (suc index) xs path

    pub check_members : Members → Fields → String → Ends (Unit {0})
    check_members no_members map path = done
    check_members (member key child rest) map path =
        field_or (get key map) (absent child (at_field path key))
          (λ value. check_node child value (at_field path key))
        then check_members rest map path

-- `domain.get(kind)`
abbrev pub contract_of : String → Members → Option ContractNode
contract_of kind no_members = none
contract_of kind (member key child rest) =
    let others = contract_of kind rest in if key == kind then some child else others

-- With the number of nested references that may be open
unfoldable pub validate_schema : ℕ → Members → ContractNode → Json → String → Ends (Unit {0})
unfolding check_node
validate_schema zero domain = check_node λ kind value path. endless
validate_schema (suc references) domain = check_node λ kind value path.
    elim (contract_of kind domain) [
      | none ↦ fail ("unknown delegated domain reference " ++ kind)
      | some child ↦ validate_schema references domain child value path
    ]
