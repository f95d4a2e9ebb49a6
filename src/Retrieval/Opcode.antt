-- ===== src/Retrieval/Opcode.antt =====
-- The opcodes of refinement expressions that the native process executes.
use aira_graphdb.Base.{String, Option, none, some, List, [], ◌∷◌, ◌==◌, string_eq, if◌then◌else◌}

pub data RefinementHandler : Type 0 where
  all any array_at array_length coalesce concat corpus_eq_ref eq field_eq_ref finite_range for_each
        iteration_pointer length_eq length_lte_ref literal lt lte map_lookup max multiply
        normalize_ref not ordered_score_desc_id_asc pointer prefixed_identity rank_is_index_plus_one
        safe_integer_range set_contains tuple_tags unique_by :
      RefinementHandler

-- `HANDLER_OPCODES`, each with its handler
abbrev pub inventory : List (String × RefinementHandler)
inventory =
    ("all", RefinementHandler.all)
    ∷ ("any", RefinementHandler.any)
    ∷ ("array_at", RefinementHandler.array_at)
    ∷ ("array_length", RefinementHandler.array_length)
    ∷ ("coalesce", RefinementHandler.coalesce)
    ∷ ("concat", RefinementHandler.concat)
    ∷ ("corpus_eq_ref", RefinementHandler.corpus_eq_ref)
    ∷ ("eq", RefinementHandler.eq)
    ∷ ("field_eq_ref", RefinementHandler.field_eq_ref)
    ∷ ("finite_range", RefinementHandler.finite_range)
    ∷ ("for_each", RefinementHandler.for_each)
    ∷ ("iteration_pointer", RefinementHandler.iteration_pointer)
    ∷ ("length_eq", RefinementHandler.length_eq)
    ∷ ("length_lte_ref", RefinementHandler.length_lte_ref)
    ∷ ("literal", RefinementHandler.literal)
    ∷ ("lt", RefinementHandler.lt)
    ∷ ("lte", RefinementHandler.lte)
    ∷ ("map_lookup", RefinementHandler.map_lookup)
    ∷ ("max", RefinementHandler.max)
    ∷ ("multiply", RefinementHandler.multiply)
    ∷ ("normalize_ref", RefinementHandler.normalize_ref)
    ∷ ("not", RefinementHandler.not)
    ∷ ("ordered_score_desc_id_asc", RefinementHandler.ordered_score_desc_id_asc)
    ∷ ("pointer", RefinementHandler.pointer)
    ∷ ("prefixed_identity", RefinementHandler.prefixed_identity)
    ∷ ("rank_is_index_plus_one", RefinementHandler.rank_is_index_plus_one)
    ∷ ("safe_integer_range", RefinementHandler.safe_integer_range)
    ∷ ("set_contains", RefinementHandler.set_contains)
    ∷ ("tuple_tags", RefinementHandler.tuple_tags)
    ∷ ("unique_by", RefinementHandler.unique_by)
    ∷ []

abbrev pub find : String → List (String × RefinementHandler) → Option RefinementHandler
find opcode [] = none
find opcode ((name, handler) ∷ rest) =
    let others = find opcode rest in if opcode == name then some handler else others

unfoldable pub refinement_handler : String → Option RefinementHandler
refinement_handler opcode = find opcode inventory
