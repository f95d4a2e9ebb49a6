-- ===== src/Tx/Isolation.antt =====
-- What one transaction sees of another: nothing before a commit, and after it a conflict.
use aira_graphdb.Base.{
  ◌+◌, ◌%◌, ◌<◌, String, ◌≡◌, ◌≢◌, refl, some, arith, eq_iff, string_eq, u64_mod, inl, inr,
  Option-cases,
}
use aira_graphdb.HashMap
use aira_graphdb.HashMap.Laws.{get-insert}
use aira_graphdb.Errors.{ok, err}
use aira_graphdb.Graph.{InMemoryGraphStore}
use aira_graphdb.Io.{World}
use aira_graphdb.Storage.{Codec}
use aira_graphdb.Tx.{TransactionManager, TxSession, begin, graph_of, set_graph, commit, conflict}
use aira_graphdb.Tx.Commit.{Committed, commit_ok, commit_kept, commit_stale}

module _ (m : TransactionManager) where
  -- A transaction begins on a copy of the committed graph, and the committed graph and the graphs
  -- of all others stay.
  pub begin_lem :
      let (m', tx_id) = begin m in
      (graph_of m' tx_id ≡ ok m.base_graph)
      × (m'.base_graph ≡ m.base_graph)
      × ((t : String) → t ≢ tx_id → graph_of m' t ≡ graph_of m t)
  unfolding begin graph_of
  begin_lem =
      let seq = (m.tx_seq + 1) % u64_mod in
      let session : TxSession = record { graph = m.base_graph; base_version = m.graph_version } in
      let name = (begin m).1 in
      (
        ground (arith, get-insert name name session m.sessions, eq_iff name name),
        refl,
        (λ t h. ground (arith, get-insert name t session m.sessions, eq_iff name t)),
      )

  -- What a transaction that is there writes is seen by itself alone: the committed graph and the
  -- graphs of the other transactions stay.
  pub set_graph_lem :
      (tx_id : String) (g old : InMemoryGraphStore)
      → graph_of m tx_id ≡ ok old
      → let m' = set_graph m tx_id g in
        (graph_of m' tx_id ≡ ok g)
        × ((t : String) → t ≢ tx_id → graph_of m' t ≡ graph_of m t)
        × (m'.base_graph ≡ m.base_graph)
        × (m'.graph_version ≡ m.graph_version)
  unfolding set_graph graph_of
  set_graph_lem tx_id g old h = elim (Option-cases (HashMap.get tx_id m.sessions)) [
    | inl missing ↦ absurd (ground (arith, h))
    | inr (session, found) ↦
        let session' : TxSession = record session { graph = g } in
        rw (found, set_graph)
          (
            ground (arith, get-insert tx_id tx_id session' m.sessions, eq_iff tx_id tx_id),
            (λ t n. ground (arith, get-insert tx_id t session' m.sessions, eq_iff tx_id t)),
            refl,
            refl,
          )
  ]

module _ (c : Codec) (m : TransactionManager) (first second : String) (s₁ s₂ : TxSession)
    (w w' : World) (different : first ≢ second) (found₁ : HashMap.get first m.sessions ≡ some s₁)
    (found₂ : HashMap.get second m.sessions ≡ some s₂)
    (together : s₁.base_version ≡ s₂.base_version) (small : m.graph_version < u64_mod)
    (commits : (commit c m first w).0 ≡ ok tt) where
  -- Of two different transactions that began at one version the first to commit wins: the second
  -- one fails with a conflict, and the graph of the first one stays.
  pub first_committer_wins :
      let m' = (commit c m first w).1 in
      ((commit c m' second w').0 ≡ err (conflict second))
      × ((commit c m' second w').1.base_graph ≡ s₁.graph)
  first_committer_wins =
      let (kept, seq) = commit_kept c m first w in
      let done : Committed m first (commit c m first w).1 = commit_ok c m first w commits in
      let there : HashMap.get second (commit c m first w).1.sessions ≡ some s₂ =
        ground (arith, kept second, eq_iff first second, found₂) in
      let same : s₁ ≡ done.session = ground (arith, found₁, done.found) in
      let stale : s₂.base_version ≢ (commit c m first w).1.graph_version =
        ground (arith, done.bumped, done.current, same, together, small) in
      let (refused, after) = commit_stale c (commit c m first w).1 second w' s₂ there stale in
      (refused, rw after (ground (arith, done.published, same)))
