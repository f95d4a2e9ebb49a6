-- ===== src/Errors/Registry.antt =====
-- `ErrorRegistry` of `src/errors.rs`, built from the contract that `src/contracts.rs` reads.
pub mod Known
use aira_graphdb.Base.{
  ℕ, String, Bool, true, false, not, ◌≡◌, refl, Option, none, some, List, [], ◌∷◌, arith, ◌==◌,
  eq_iff, string_eq, if◌then◌else◌, is_some, filter, nat_eq, inl, inr, Option-cases, Bool-cases,
  ◌⊎◌, ◌↔◌, Eq,
}
use aira_graphdb.HashMap
use aira_graphdb.HashMap.{HashMap}
use aira_graphdb.HashMap.Laws.{get-insert}
use aira_graphdb.Errors.{ErrorCode, ErrorCategory, from_str, category_from_str, as_str, code_eq}
use aira_graphdb.Errors.Codes.{from_str-as_str, as_str_of_from_str}

pub record ErrorCodeEntry : Type 0 where
  pub code : String
  pub category : String
  pub description : String

pub record ErrorCodeSpec : Type 0 where
  pub spec_id : String
  pub codes : List ErrorCodeEntry

pub record ErrorDefinition : Type 0 where
  pub code : ErrorCode
  pub category : ErrorCategory
  pub description : String

pub record ErrorRegistry : Type 0 where
  pub definitions : HashMap ErrorCode ErrorDefinition

pub data RegistryError : Type 0 where
  spec_id_mismatch : String → String → RegistryError
  unknown_code : String → RegistryError
  unknown_category : String → RegistryError
  duplicate_code : String → RegistryError

-- `Result<T, RegistryError>`
pub data RegistryResult {ℓ} (A : Type ℓ) : Type ℓ where
  built : A → RegistryResult A
  refused : RegistryError → RegistryResult A

abbrev pub error_spec_id : String
error_spec_id = "AGDB-ERROR-CODES@1.0.0"

abbrev pub Definitions : Type 0
Definitions = HashMap ErrorCode ErrorDefinition

-- One round of the loop over the entries.
unfoldable pub add_entry : ErrorCodeEntry → Definitions → RegistryResult Definitions
unfolding from_str category_from_str
add_entry entry definitions = elim (from_str entry.code) [
  | none ↦ refused (unknown_code entry.code)
  | some code ↦ elim (category_from_str entry.category) [
    | none ↦ refused (unknown_category entry.category)
    | some category ↦
        if HashMap.contains_key code definitions
        then refused (duplicate_code entry.code)
        else built (
            HashMap.insert code
              (record { code = code; category = category; description = entry.description })
              definitions)
  ]
]

unfoldable pub add_entries : List ErrorCodeEntry → Definitions → RegistryResult Definitions
unfolding add_entry
add_entries [] definitions = built definitions
add_entries (entry ∷ entries) definitions = elim (add_entry entry definitions) [
  | refused e ↦ refused e
  | built definitions' ↦ add_entries entries definitions'
]

unfoldable pub from_spec : ErrorCodeSpec → RegistryResult ErrorRegistry
unfolding add_entries
from_spec spec =
    if not (spec.spec_id == error_spec_id)
    then refused (spec_id_mismatch error_spec_id spec.spec_id)
    else (elim (add_entries spec.codes []) [
      | refused e ↦ refused e
      | built definitions ↦ built (record { definitions = definitions })
    ])

unfoldable pub definition : ErrorRegistry → ErrorCode → Option ErrorDefinition
definition registry code = HashMap.get code registry.definitions

unfoldable pub is_known_code_str : ErrorRegistry → String → Bool
unfolding from_str
is_known_code_str registry value = elim (from_str value) [
  | none ↦ false
  | some code ↦ is_some (HashMap.get code registry.definitions)
]

-- The derived `==` of the categories.
abbrev category_number : ErrorCategory → ℕ
category_number ErrorCategory.protocol = 0
category_number ErrorCategory.query = 1
category_number ErrorCategory.transaction = 2
category_number ErrorCategory.storage = 3
category_number ErrorCategory.auth = 4
category_number ErrorCategory.integrity = 5
category_number ErrorCategory.validation = 6

unfoldable pub definitions_by_category : ErrorRegistry → ErrorCategory → List ErrorDefinition
definitions_by_category registry category =
    filter (λ (d : ErrorDefinition). nat_eq (category_number d.category) (category_number category))
      (HashMap.values registry.definitions)
