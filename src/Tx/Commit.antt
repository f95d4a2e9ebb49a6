-- ===== src/Tx/Commit.antt =====
-- What `commit`, `rollback` and recovery do on each of their branches.
use aira_graphdb.Base.{
  ◌+◌, ◌%◌, String, true, ◌≡◌, ◌≢◌, ◌↔◌, refl, none, some, arith, ◌==◌, eq_iff, if◌then◌else◌,
  string_eq, u64_mod, inl, inr, Option-cases,
}
use aira_graphdb.HashMap
use aira_graphdb.HashMap.Laws.{get-remove}
use aira_graphdb.Errors.{GraphDbError, ok, err}
use aira_graphdb.Io.{World}
use aira_graphdb.Storage.{Codec}
use aira_graphdb.Tx.{
  TransactionManager, TxSession, commit, commit_session, rollback, conflict, audited,
  record_audit_event,
}

-- A commit took the graph of a session that began at the present version.
pub record Committed (m : TransactionManager) (tx_id : String) (m' : TransactionManager)
    : Type 0 where
  pub session : TxSession
  pub found : HashMap.get tx_id m.sessions ≡ some session
  pub current : session.base_version ≡ m.graph_version
  pub published : m'.base_graph ≡ session.graph
  pub bumped : m'.graph_version ≡ (m.graph_version + 1) % u64_mod

module _ (c : Codec) (m : TransactionManager) (tx_id : String) (session : TxSession)
    (w : World) where
  session_ok :
      let (r, m', w') = commit_session c m tx_id session w in
      r ≡ ok tt
      → (session.base_version ≡ m.graph_version)
        × (m'.base_graph ≡ session.graph)
        × (m'.graph_version ≡ (m.graph_version + 1) % u64_mod)
  unfolding commit_session
  session_ok h = ground arith

  session_err :
      let (r, m', w') = commit_session c m tx_id session w in
      (e : GraphDbError)
      → r ≡ err e
      → (m'.base_graph ≡ m.base_graph) × (m'.graph_version ≡ m.graph_version)
  unfolding commit_session
  session_err e h = ground arith

  session_kept :
      let (r, m', w') = commit_session c m tx_id session w in
      (m'.sessions ≡ m.sessions) × (m'.tx_seq ≡ m.tx_seq)
  unfolding commit_session
  session_kept = ground arith

module _ (c : Codec) (m : TransactionManager) (tx_id : String) (w : World) where
  abbrev without : TransactionManager
  without = record m { sessions = HashMap.remove tx_id m.sessions }

  commit_known :
      (session : TxSession)
      → HashMap.get tx_id m.sessions ≡ some session
      → commit c m tx_id w ≡ commit_session c without tx_id session w
  commit_known session found = unfold commit in rw (found, commit)

  -- A commit that succeeds publishes the graph of its session, which began at the present version,
  -- and counts one version up.
  pub commit_ok : (commit c m tx_id w).0 ≡ ok tt → Committed m tx_id (commit c m tx_id w).1
  commit_ok h = elim (Option-cases (HashMap.get tx_id m.sessions)) [
    | inl missing ↦ absurd (unfold commit in ground (arith, h))
    | inr (session, found) ↦
        let known = commit_known session found in
        let (current, published, bumped) = session_ok c without tx_id session w (rw known at h) in
        rw known (record {
          session = session;
          found = found;
          current = current;
          published = published;
          bumped = bumped;
        })
  ]

  -- A commit that fails leaves the committed graph and its version as they were.
  pub commit_err :
      (e : GraphDbError)
      → (commit c m tx_id w).0 ≡ err e
      → ((commit c m tx_id w).1.base_graph ≡ m.base_graph)
        × ((commit c m tx_id w).1.graph_version ≡ m.graph_version)
  commit_err e h = elim (Option-cases (HashMap.get tx_id m.sessions)) [
    | inl missing ↦ unfold commit in ground arith
    | inr (session, found) ↦
        let known = commit_known session found in
        rw known (session_err c without tx_id session w e (rw known at h))
  ]

  -- Whether a commit succeeds or fails, exactly the committed transaction is over, and the
  -- numbering of transactions goes on.
  pub commit_kept :
      ((t : String)
        → HashMap.get t (commit c m tx_id w).1.sessions
          ≡ (if tx_id == t then none else HashMap.get t m.sessions))
      × ((commit c m tx_id w).1.tx_seq ≡ m.tx_seq)
  commit_kept = elim (Option-cases (HashMap.get tx_id m.sessions)) [
    | inl missing ↦
        unfold commit in rw (missing, commit) ((λ t. ground (arith, eq_iff tx_id t)), refl)
    | inr (session, found) ↦
        let (same, seq) = session_kept c without tx_id session w in
        rw (commit_known session found) ((λ t. rw same (get-remove tx_id t m.sessions)), seq)
  ]

  -- A transaction that began at another version than the present one is refused as a conflict, and
  -- only this transaction is over.
  pub commit_stale :
      (session : TxSession)
      → HashMap.get tx_id m.sessions ≡ some session
      → session.base_version ≢ m.graph_version
      → ((commit c m tx_id w).0 ≡ err (conflict tx_id)) × ((commit c m tx_id w).1 ≡ without)
  unfolding commit_session
  commit_stale session found stale = rw (commit_known session found) (ground arith)

  -- A rollback of a transaction that is there ends it and no other; of another one it fails. The
  -- committed graph, its version, the snapshot file and the log stay as they were.
  pub rollback_lem :
      let (r, m', w') = rollback c m tx_id w in
      ((r ≡ ok tt) ↔ (HashMap.contains_key tx_id m.sessions ≡ true))
      × (m'.base_graph ≡ m.base_graph)
      × (m'.graph_version ≡ m.graph_version)
      × ((t : String)
          → HashMap.get t m'.sessions ≡ (if tx_id == t then none else HashMap.get t m.sessions))
      × (w'.db_content ≡ w.db_content)
      × (w'.wal_content ≡ w.wal_content)
  unfolding rollback HashMap.contains_key audited record_audit_event
  rollback_lem = elim (Option-cases (HashMap.get tx_id m.sessions)) [
    | inl missing ↦
        rw (missing, rollback)
          (
            ((λ h. ground (arith, h)), (λ h. ground (arith, h))),
            refl,
            refl,
            (λ t. ground (arith, eq_iff tx_id t)),
            refl,
            refl,
          )
    | inr (session, found) ↦
        rw (found, rollback)
          (
            ((λ h. refl), (λ h. refl)),
            refl,
            refl,
            (λ t. get-remove tx_id t m.sessions),
            ground arith,
            ground arith,
          )
  ]
