-- ===== src/Graph/Samples.antt =====
-- The graph theorems on two nodes and an edge between them.
use aira_graphdb.Base.{String, true, ◌≡◌, ◌≢◌, refl, some, [], ◌∷◌, arith, eq_iff, string_eq}
use aira_graphdb.HashMap
use aira_graphdb.HashMap.{values}
use aira_graphdb.Graph.{
  InMemoryGraphStore, GraphNode, Properties, Value, new, create_node, create_edge, get_node,
  rename_nodes, has_property, value_eq, find_in, rename_label, matches,
  find_node_by_label_and_props,
}
use aira_graphdb.Graph.Valid.{IsValid, IsReferential}
use aira_graphdb.Base.Decimal.{to_string}
use aira_graphdb.Graph.Reach.{Step, Reach, Reach-IsSound}

abbrev one_name : Properties
one_name = ("name", Value.string "a") ∷ []

abbrev one : InMemoryGraphStore
one = (create_node new ("City" ∷ []) one_name).0

abbrev two : InMemoryGraphStore
two = (create_node one ("Port" ∷ []) []).0

abbrev pub joined : InMemoryGraphStore
joined = (create_edge two "n1" "n2" "ROAD" []).0

two_reached : Reach two
unfolding create_node
two_reached =
    Reach.next (Reach.next Reach.start (Step.creates_node ("City" ∷ []) one_name (omega arith)))
      (Step.creates_node ("Port" ∷ []) [] (omega arith))

joined_reached : Reach joined
unfolding create_node
joined_reached = Reach.next two_reached (Step.creates_edge "n1" "n2" "ROAD" [] (omega arith))

pub joined_sound : IsValid joined × IsReferential joined
joined_sound = Reach-IsSound joined_reached

two_sound : IsValid two × IsReferential two
two_sound = Reach-IsSound two_reached

Reach-IsSound_example : IsValid joined × IsReferential joined
Reach-IsSound_example = Reach-IsSound joined_reached

abbrev renamed_node : GraphNode
renamed_node = record { id = "n1"; labels = "Town" ∷ []; properties = one_name }

different : ◌≢◌ {A = String} "Town" "City"
different h = let town : String = "Town" in ground (arith, (eq_iff town "City").1 h)

towns : get_node (rename_label joined "City" "Town").0 "n1" ≡ some renamed_node
unfolding get_node rename_label rename_nodes create_node create_edge HashMap.contains_key
    HashMap.insert to_string
towns = refl

abbrev city_node : GraphNode
city_node = record { id = "n1"; labels = "City" ∷ []; properties = one_name }

city_there : get_node joined "n1" ≡ some city_node
unfolding get_node create_node create_edge HashMap.contains_key HashMap.insert to_string
city_there = refl

city_passes : matches (some "City") one_name city_node ≡ true
unfolding matches has_property HashMap.get value_eq
city_passes = refl

city_found : find_node_by_label_and_props joined (some "City") one_name ≡ some city_node
unfolding find_node_by_label_and_props find_in has_property value_eq values create_node create_edge
    HashMap.contains_key HashMap.insert to_string
city_found = refl
