-- ===== src/Retrieval/Json.antt =====
-- `serde_json::Value`, as far as the contract reads it. An object is a `BTreeMap`: its entries stand in
-- the order of their keys.
use aira_graphdb.Base.{
  ℕ, String, Bool, true, false, ◌&&◌, Option, none, some, List, [], ◌∷◌, ◌==◌, nat_eq,
  if◌then◌else◌,
}
use aira_graphdb.Graph.{f64_eq}

-- `Number` keeps whether it was written as a whole number; a float is its 64 bits.
pub data Number : Type 0 where
  pos_int neg_int float : ℕ → Number

mutual
  pub data Json : Type 0 where
    null : Json
    bool : Bool → Json
    number : Number → Json
    string : String → Json
    array : Items → Json
    object : Fields → Json

  pub data Items : Type 0 where
    nil : Items
    cons : Json → Items → Items

  pub data Fields : Type 0 where
    end : Fields
    field : String → Json → Fields → Fields

abbrev pub to_list : Items → List Json
to_list nil = []
to_list (cons x xs) = x ∷ to_list xs

-- `Map::get`
abbrev pub get : String → Fields → Option Json
get key end = none
get key (field k v fs) = let rest = get key fs in if k == key then some v else rest

abbrev pub keys : Fields → List String
keys end = []
keys (field k v fs) = k ∷ keys fs

abbrev pub values : Fields → List Json
values end = []
values (field k v fs) = v ∷ values fs

abbrev pub as_str : Json → Option String
as_str (string s) = some s
as_str _ = none

abbrev pub as_bool : Json → Option Bool
as_bool (bool b) = some b
as_bool _ = none

abbrev pub as_u64 : Json → Option ℕ
as_u64 (number (pos_int n)) = some n
as_u64 _ = none

abbrev pub as_array : Json → Option (List Json)
as_array (array xs) = some (to_list xs)
as_array _ = none

abbrev pub as_object : Json → Option Fields
as_object (object fs) = some fs
as_object _ = none

-- `Value::get` with a text
abbrev pub get_in : String → Json → Option Json
get_in key (object fs) = get key fs
get_in key _ = none

abbrev number_eq : Number → Number → Bool
number_eq (pos_int m) (pos_int n) = nat_eq m n
number_eq (neg_int m) (neg_int n) = nat_eq m n
number_eq (float x) (float y) = f64_eq x y
number_eq _ _ = false

abbrev bool_eq : Bool → Bool → Bool
bool_eq true b = b
bool_eq false true = false
bool_eq false false = true

-- `==`
unfoldable mutual
  unfolding f64_eq

  pub json_eq : Json → Json → Bool
  json_eq null null = true
  json_eq (bool a) (bool b) = bool_eq a b
  json_eq (number m) (number n) = number_eq m n
  json_eq (string s) (string t) = s == t
  json_eq (array xs) (array ys) = items_eq xs ys
  json_eq (object fs) (object gs) = fields_eq fs gs
  json_eq _ _ = false

  pub items_eq : Items → Items → Bool
  items_eq nil nil = true
  items_eq (cons x xs) (cons y ys) = json_eq x y && items_eq xs ys
  items_eq _ _ = false

  pub fields_eq : Fields → Fields → Bool
  fields_eq end end = true
  fields_eq (field j x fs) (field k y gs) = (j == k) && (json_eq x y && fields_eq fs gs)
  fields_eq _ _ = false
