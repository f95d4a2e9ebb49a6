-- ===== src/Errors/Registry/Known.antt =====
-- Which codes a registry knows: those of its contract.
use aira_graphdb.Base.{
  String, false, ◌≡◌, refl, ap, ◌∙◌, sym, none, some, List, [], ◌∷◌, arith, ◌==◌, eq_iff, string_eq,
  is_some, any, ◌||◌, inl, inr, Option-cases, Bool-cases, ◌⊎◌,
}
use aira_graphdb.HashMap
use aira_graphdb.HashMap.Laws.{get-insert}
use aira_graphdb.Errors.{ErrorCode, from_str, category_from_str, code_eq, code_beq, code_beq_iff}
use aira_graphdb.Errors.Codes.{as_str_of_from_str}
use aira_graphdb.Errors.Registry.{
  ErrorCodeEntry, ErrorCodeSpec, ErrorDefinition, ErrorRegistry, Definitions, RegistryResult,
  RegistryError, built, refused, add_entry, add_entries, from_spec, is_known_code_str,
}

RegistryResult-cases {ℓ} :
    {A : Type ℓ} (r : RegistryResult A)
    → ((a : A) × (r ≡ built a)) ⊎ ((e : RegistryError) × (r ≡ refused e))
RegistryResult-cases (built a) = inl (a, refl)
RegistryResult-cases (refused e) = inr (e, refl)

-- Two names stand for the same code exactly if they are the same.
same_code :
    (s t : String) (c d : ErrorCode)
    → from_str s ≡ some c
    → from_str t ≡ some d
    → code_beq c d ≡ (s == t)
same_code s t c d h k =
    ground (arith, as_str_of_from_str s c h, as_str_of_from_str t d k, eq_iff s t, code_beq_iff c d)

module _ (value : String) (code : ErrorCode) (known : from_str value ≡ some code) where
  add_entry_known :
      (entry : ErrorCodeEntry) (definitions after : Definitions)
      → add_entry entry definitions ≡ built after
      → is_some (HashMap.get code after)
        ≡ ((entry.code == value) || is_some (HashMap.get code definitions))
  unfolding add_entry
  add_entry_known entry definitions after h = elim (Option-cases (from_str entry.code)) [
    | inl unknown ↦ absurd (ground (arith, rw (unknown, add_entry) at h))
    | inr (c, found) ↦
        let h' = rw (found, add_entry) at h in
        elim (Option-cases (category_from_str entry.category)) [
          | inl unknown ↦ absurd (ground (arith, rw (unknown, add_entry) at h'))
          | inr (category, named) ↦
              let made : ErrorDefinition = record {
                code = c;
                category = category;
                description = entry.description;
              } in
              let h'' = rw (named, add_entry) at h' in
              elim (Bool-cases (HashMap.contains_key c definitions)) [
                | inl twice ↦ absurd (ground (arith, rw (twice, add_entry) at h''))
                | inr once ↦
                    let same : HashMap.insert c made definitions ≡ after =
                      ground (arith, rw (once, add_entry) at h'') in
                    ground (
                      arith,
                      same,
                      get-insert c code made definitions,
                      same_code entry.code value c code found known,
                    )
              ]
        ]
  ]

  add_entries_known :
      (entries : List ErrorCodeEntry) (definitions after : Definitions)
      → add_entries entries definitions ≡ built after
      → is_some (HashMap.get code after) ≡ (
          any (λ (e : ErrorCodeEntry). e.code == value) entries
          || is_some (HashMap.get code definitions))
  unfolding add_entries
  add_entries_known [] definitions after h = ground arith
  add_entries_known (entry ∷ entries) definitions after h =
      elim (RegistryResult-cases (add_entry entry definitions)) [
        | inr (e, f) ↦ absurd (ground (arith, rw (f, add_entries) at h))
        | inl (d, f) ↦ ground (
          arith,
          add_entry_known entry definitions d f,
          add_entries_known entries d after (rw (f, add_entries) at h),
        )
      ]

none_ne : (c : ErrorCode) → none ≡ some c → ⊥
none_ne c h = ground arith

other_name :
    (s t : String) (c : ErrorCode) → from_str s ≡ some c → from_str t ≡ none → (s == t) ≡ false
other_name s t c h k = elim (Bool-cases (s == t)) [
  | inl same ↦ absurd (none_ne c (sym k ∙ (ap from_str (sym ((eq_iff s t).0 same)) ∙ h)))
  | inr other ↦ other
]

-- Every entry of a contract that is accepted has the name of a code.
add_entries_unknown :
    (value : String) (entries : List ErrorCodeEntry) (definitions after : Definitions)
    → from_str value ≡ none
    → add_entries entries definitions ≡ built after
    → any (λ (e : ErrorCodeEntry). e.code == value) entries ≡ false
unfolding add_entries add_entry
add_entries_unknown value [] definitions after unknown h = refl
add_entries_unknown value (entry ∷ entries) definitions after unknown h =
    elim (RegistryResult-cases (add_entry entry definitions)) [
      | inr (e, f) ↦ absurd (ground (arith, rw (f, add_entries) at h))
      | inl (d, f) ↦ elim (Option-cases (from_str entry.code)) [
        | inl missing ↦ absurd (ground (arith, rw (missing, add_entry) at f))
        | inr (c, found) ↦
            rw (other_name entry.code value c found unknown)
              (add_entries_unknown value entries d after unknown (rw (f, add_entries) at h))
      ]
    ]

-- A registry that was built from a contract knows exactly the names of the codes in the contract,
-- among all strings.
pub is_known-from_spec :
    (spec : ErrorCodeSpec) (registry : ErrorRegistry) (value : String)
    → from_spec spec ≡ built registry
    → is_known_code_str registry value ≡ any (λ (e : ErrorCodeEntry). e.code == value) spec.codes
unfolding from_spec is_known_code_str HashMap.get
is_known-from_spec spec registry value h = elim (RegistryResult-cases (add_entries spec.codes [])) [
  | inr (e, f) ↦ absurd (ground arith)
  | inl (d, f) ↦ elim (Option-cases (from_str value)) [
    | inl unknown ↦ ground (arith, add_entries_unknown value spec.codes [] d unknown f)
    | inr (c, known) ↦ ground (arith, add_entries_known value c known spec.codes [] d f)
  ]
]
