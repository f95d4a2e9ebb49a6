-- ===== src/Retrieval/Caps.antt =====
-- The hard caps of the native process.
use aira_graphdb.Base.{ℕ, ◌+◌, ◌*◌, String}

abbrev pub candidate_search : String
candidate_search = "candidate_search_bounded@1"

abbrev pub fact_expand : String
fact_expand = "fact_expand_bounded@1"

abbrev pub ppr_materialize : String
ppr_materialize = "ppr_materialize_bounded@1"

abbrev pub max_safe_generation : ℕ
max_safe_generation = 9007199254740991

abbrev pub max_vector_dimensions : ℕ
max_vector_dimensions = 4096

abbrev pub max_vector_comparisons : ℕ
max_vector_comparisons = 1500000

abbrev pub max_search_slots : ℕ
max_search_slots = 8

abbrev pub max_facts_inspected : ℕ
max_facts_inspected = 1500000

abbrev pub max_graph_nodes : ℕ
max_graph_nodes = 1500000

abbrev pub max_graph_edges : ℕ
max_graph_edges = 4000000

abbrev pub max_iterations : ℕ
max_iterations = 128

-- The passes over the nodes and the edges that one request may make
abbrev pub max_graph_scan_units : ℕ
max_graph_scan_units =
    57 * max_graph_nodes
    + 50 * max_graph_edges
    + max_iterations * (4 * max_graph_nodes + max_graph_edges)
    + 1

abbrev pub max_search_result_limit : ℕ
max_search_result_limit = 100

abbrev pub max_expansion_results : ℕ
max_expansion_results = 64

abbrev pub max_seeds : ℕ
max_seeds = 512

abbrev pub max_returned_passages : ℕ
max_returned_passages = 100

abbrev pub max_returned_facts : ℕ
max_returned_facts = 100

abbrev pub max_combined_objects : ℕ
max_combined_objects = 128

abbrev pub max_input_frame_bytes : ℕ
max_input_frame_bytes = 256 * 1024

abbrev pub max_object_bytes : ℕ
max_object_bytes = 256 * 1024

abbrev pub max_response_frame_bytes : ℕ
max_response_frame_bytes = 2 * 1024 * 1024

abbrev pub max_transient_bytes : ℕ
max_transient_bytes = 512 * 1024 * 1024
