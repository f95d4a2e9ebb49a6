-- ===== src/Query/Sound.antt =====
-- The clauses that delete, rename or choose take a graph that the methods of the graph can make to such a
-- graph.
use aira_graphdb.Base.{
  ℕ, ◌+◌, ◌<◌, ◌≡◌, zero, suc, String, Bool, true, false, not, ◌&&◌, ◌||◌, Option, some, none, List,
  [], ◌∷◌, arith, refl, sym, Bool-cases, Option-cases, inl, inr, if◌then◌else◌, u64_mod, string_eq,
  ◌==◌, any,
}
use aira_graphdb.Base
use aira_graphdb.Errors.{ok, Result-cases}
use aira_graphdb.Graph.{
  InMemoryGraphStore, delete_node, delete_node_detach, has_node, edges_touching_node, rename_label,
}
use aira_graphdb.Graph.Reach.{next, deletes_node, detaches_node, renames_label}
use aira_graphdb.Str.{split_whitespace}
use aira_graphdb.Query.{F64, QueryResult}
use aira_graphdb.Query.Write.{delete_target_node, delete_target, execute_delete}
use aira_graphdb.Query.Procedure.{
  rename_args, call_rename, call_procedure, parse_call, execute_call,
}
use aira_graphdb.Query.Execute.{writes, execute_clause}
use aira_graphdb.Query.Effects.{
  IsSound, unchanged-IsSound, no_rows-IsSound, if-IsSound, if_written-IsSound,
  execute_create-IsSound, execute_merge-IsSound, execute_set-IsSound, execute_remove-IsSound,
}

is_empty_nil {ℓ} : {A : Type ℓ} (xs : List A) → Base.is_empty xs ≡ true → xs ≡ []
is_empty_nil [] h = refl
is_empty_nil (x ∷ xs) h = absurd (ground arith)

-- A node is deleted with its edges, or where it has none.
deleted-IsSound :
    (s : InMemoryGraphStore) (node_id : String) (detach : Bool)
    → (not (Base.is_empty (edges_touching_node s node_id)) && not detach) ≡ false
    → IsSound s (
        writes (
          if detach
          then (ok QueryResult.ack, (delete_node_detach s node_id).0)
          else (ok QueryResult.ack, (delete_node s node_id).0)))
deleted-IsSound s node_id true h =
    no_rows-IsSound s _ (λ r room. (next r (detaches_node node_id), refl))
deleted-IsSound s node_id false h = no_rows-IsSound s _ (λ r room. (
  next r (deletes_node node_id (is_empty_nil (edges_touching_node s node_id) (ground arith))),
  refl,
))

delete_target_node-IsSound :
    (s : InMemoryGraphStore) (node_id : String) (detach : Bool)
    → IsSound s (writes (delete_target_node s node_id detach))
unfolding delete_target_node
delete_target_node-IsSound s node_id detach =
    if_written-IsSound (not (has_node s node_id)) s _ _ (unchanged-IsSound _ s)
      (elim (Bool-cases (not (Base.is_empty (edges_touching_node s node_id)) && not detach)) [
        | inl refused ↦ rw refused (unchanged-IsSound _ s)
        | inr allowed ↦ rw allowed (deleted-IsSound s node_id detach allowed)
      ])

execute_delete-IsSound :
    (s : InMemoryGraphStore) (q : String) → IsSound s (writes (execute_delete s q))
unfolding execute_delete
execute_delete-IsSound s q = elim (Result-cases (delete_target (split_whitespace q))) [
  | inr (e, failed) ↦ rw (failed, execute_delete) (unchanged-IsSound _ s)
  | inl ((node_id, detach), parsed) ↦
      rw (parsed, execute_delete) (delete_target_node-IsSound s node_id detach)
]

call_rename-IsSound :
    (f : F64) (s : InMemoryGraphStore) (args : String) → IsSound s (writes (call_rename f s args))
unfolding call_rename rename_label
call_rename-IsSound f s args = elim (Result-cases (rename_args f args)) [
  | inr (e, failed) ↦ rw (failed, call_rename) (unchanged-IsSound _ s)
  | inl ((from, to), parsed) ↦
      rw (parsed, call_rename)
        (record { sound = λ r room. (next r (renames_label from to), λ rows. refl) })
]

call_procedure-IsSound :
    (f : F64) (s : InMemoryGraphStore) (name args : String)
    → IsSound s (writes (call_procedure f s name args))
unfolding call_procedure
call_procedure-IsSound f s name args =
    search (if_written-IsSound, unchanged-IsSound, call_rename-IsSound) depth 12

execute_call-IsSound :
    (f : F64) (s : InMemoryGraphStore) (q : String) → IsSound s (writes (execute_call f s q))
unfolding execute_call
execute_call-IsSound f s q = elim (Result-cases (parse_call q)) [
  | inr (e, failed) ↦ rw (failed, execute_call) (unchanged-IsSound _ s)
  | inl ((name, args), parsed) ↦ rw (parsed, execute_call) (call_procedure-IsSound f s name args)
]

pub execute_clause-IsSound :
    (f : F64) (s : InMemoryGraphStore) (q : String) → IsSound s (execute_clause f s q)
unfolding execute_clause
execute_clause-IsSound f s q =
    search
      (
        if-IsSound, unchanged-IsSound, execute_create-IsSound, execute_merge-IsSound,
        execute_delete-IsSound, execute_set-IsSound, execute_remove-IsSound, execute_call-IsSound,
      )
      depth 12
