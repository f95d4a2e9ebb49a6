-- ===== src/Tx/History.antt =====
-- Histories of a manager: no committed change is lost, whatever the order of the calls.
use aira_graphdb.Base.{
  ℕ, ◌+◌, ◌%◌, ◌<◌, ◌≤◌, String, false, ◌≡◌, ◌≢◌, refl, none, some, [], arith, ◌==◌, eq_iff,
  string_eq, u64_mod, inl, inr, Option-cases, Bool-cases,
}
use aira_graphdb.Base.Decimal.{prefix-to_string_inj}
use aira_graphdb.HashMap
use aira_graphdb.HashMap.{HashMap}
use aira_graphdb.HashMap.Laws.{get-insert}
use aira_graphdb.Errors.{ok, Result-cases}
use aira_graphdb.Graph.{InMemoryGraphStore}
use aira_graphdb.Io.{World}
use aira_graphdb.Storage.{Codec}
use aira_graphdb.Storage.Engine.{recover}
use aira_graphdb.Storage.Format.{Decoded-cases}
use aira_graphdb.Tx.{
  TransactionManager, TxSession, begin, set_graph, commit, rollback, recover_manager, manager_of,
  tx_name,
}
use aira_graphdb.Tx.Commit.{commit_ok, commit_err, commit_kept, rollback_lem}

-- A manager, and for each transaction the graph on which it began.
pub record History : Type 0 where
  pub manager : TransactionManager
  pub started : HashMap String InMemoryGraphStore

module _ (c : Codec) where
  -- One call, with any answers of the system, below the limits of the counters.
  pub data Step (h : History) : History → Type 0 where
    begins :
        h.manager.tx_seq + 1 < u64_mod
        → Step h (record {
          manager = (begin h.manager).0;
          started = HashMap.insert (begin h.manager).1 h.manager.base_graph h.started;
        })
    writes :
        (tx_id : String) (g : InMemoryGraphStore)
        → Step h (record h { manager = set_graph h.manager tx_id g })
    commits :
        (tx_id : String) (w : World)
        → h.manager.graph_version + 1 < u64_mod
        → Step h (record h { manager = (commit c h.manager tx_id w).1 })
    rolls_back :
        (tx_id : String) (w : World)
        → Step h (record h { manager = (rollback c h.manager tx_id w).1 })
    recovers :
        (w : World)
        → h.manager.graph_version + 1 < u64_mod
        → Step h (record h { manager = (recover_manager c h.manager w).1 })

  -- From a manager that was opened on any graph.
  pub data Reach : History → Type 0 where
    opened : (g : InMemoryGraphStore) → Reach (record { manager = manager_of c g; started = [] })
    next : {h h' : History} → Reach h → Step h h' → Reach h'

-- No session is ahead of the present version, one at the present version began on the present
-- graph, and the next numbers of transactions are not in use.
pub record IsConsistent (h : History) : Type 0 where
  pub behind :
      (t : String) (s : TxSession)
      → HashMap.get t h.manager.sessions ≡ some s
      → s.base_version ≤ h.manager.graph_version
  pub based :
      (t : String) (s : TxSession)
      → HashMap.get t h.manager.sessions ≡ some s
      → s.base_version ≡ h.manager.graph_version
      → HashMap.get t h.started ≡ some h.manager.base_graph
  pub fresh : (j : ℕ) → h.manager.tx_seq < j → HashMap.get (tx_name j) h.manager.sessions ≡ none

tx_name_ne : (i j : ℕ) → i ≢ j → (tx_name i == tx_name j) ≡ false
tx_name_ne i j h = elim (Bool-cases (tx_name i == tx_name j)) [
  | inl same ↦ absurd (h (prefix-to_string_inj "tx-" i j ((eq_iff (tx_name i) (tx_name j)).0 same)))
  | inr other ↦ other
]

begins-IsConsistent :
    (h : History)
    → h.manager.tx_seq + 1 < u64_mod
    → IsConsistent h
    → IsConsistent (record {
      manager = (begin h.manager).0;
      started = HashMap.insert (begin h.manager).1 h.manager.base_graph h.started;
    })
unfolding begin
begins-IsConsistent h room i =
    let m = h.manager in
    let e : (m.tx_seq + 1) % u64_mod ≡ m.tx_seq + 1 = omega arith in
    let name = tx_name (m.tx_seq + 1) in
    let session : TxSession = record { graph = m.base_graph; base_version = m.graph_version } in
    rw e (record {
      behind = λ t s f. ground (arith, f, get-insert name t session m.sessions, i.behind t s);
      based = λ t s f v. ground (
        arith,
        f,
        v,
        get-insert name t session m.sessions,
        get-insert name t m.base_graph h.started,
        i.based t s,
      );
      fresh = λ j l. ground (
        arith,
        get-insert name (tx_name j) session m.sessions,
        tx_name_ne (m.tx_seq + 1) j (omega arith),
        i.fresh j (omega arith),
      );
    })

writes-IsConsistent :
    (h : History) (tx_id : String) (g : InMemoryGraphStore)
    → IsConsistent h
    → IsConsistent (record h { manager = set_graph h.manager tx_id g })
unfolding set_graph
writes-IsConsistent h tx_id g i = elim (Option-cases (HashMap.get tx_id h.manager.sessions)) [
  | inl missing ↦ rw (missing, set_graph) i
  | inr (session, found) ↦
      let session' : TxSession = record session { graph = g } in
      let changed = λ (t : String). get-insert tx_id t session' h.manager.sessions in
      rw (found, set_graph)
        (record {
          behind =
              λ t s f. ground (arith, f, changed t, i.behind t s, i.behind tx_id session found);
          based = λ t s f v.
              ground
                (arith, f, v, changed t, i.based t s, i.based tx_id session found, eq_iff tx_id t);
          fresh = λ j l.
              ground (arith, changed (tx_name j), i.fresh j l, eq_iff tx_id (tx_name j), found);
        })
]

rollback_seq :
    (c : Codec) (m : TransactionManager) (tx_id : String) (w : World)
    → (rollback c m tx_id w).1.tx_seq ≡ m.tx_seq
unfolding rollback
rollback_seq c m tx_id w = ground arith

module _ (c : Codec) (h : History) (tx_id : String) (w : World) (i : IsConsistent h) where
  commits-IsConsistent :
      h.manager.graph_version + 1 < u64_mod
      → IsConsistent (record h { manager = (commit c h.manager tx_id w).1 })
  commits-IsConsistent room =
      let (kept, seq) = commit_kept c h.manager tx_id w in
      elim (Result-cases (commit c h.manager tx_id w).0) [
        | inl (_, fine) ↦
            let done = commit_ok c h.manager tx_id w fine in
            record {
              behind = λ t s f. ground (arith, f, kept t, done.bumped, i.behind t s);
              based = λ t s f v. ground (arith, f, v, kept t, done.bumped, i.behind t s);
              fresh = λ j l. ground (arith, kept (tx_name j), seq, i.fresh j);
            }
        | inr (e, failed) ↦
            let (graph, version) = commit_err c h.manager tx_id w e failed in
            record {
              behind = λ t s f. ground (arith, f, kept t, version, i.behind t s);
              based = λ t s f v. ground (arith, f, v, kept t, version, graph, i.based t s);
              fresh = λ j l. ground (arith, kept (tx_name j), seq, i.fresh j);
            }
      ]

  rolls_back-IsConsistent : IsConsistent (record h { manager = (rollback c h.manager tx_id w).1 })
  rolls_back-IsConsistent =
      let (_, graph, version, kept, _, _) = rollback_lem c h.manager tx_id w in
      record {
        behind = λ t s f. ground (arith, f, kept t, version, i.behind t s);
        based = λ t s f v. ground (arith, f, v, kept t, version, graph, i.based t s);
        fresh =
            λ j l. ground (arith, kept (tx_name j), rollback_seq c h.manager tx_id w, i.fresh j, l);
      }

module _ (c : Codec) (h : History) (w : World) (i : IsConsistent h) where
  recovers-IsConsistent :
      h.manager.graph_version + 1 < u64_mod
      → IsConsistent (record h { manager = (recover_manager c h.manager w).1 })
  unfolding recover_manager HashMap.get
  recovers-IsConsistent room = elim (Decoded-cases (recover c w).0) [
    | inl (g, fine) ↦
        rw (fine, recover_manager)
          (record { behind = λ t s f. cc; based = λ t s f v. cc; fresh = λ j l. refl })
    | inr (inl (e, failed)) ↦ rw (failed, recover_manager) i
    | inr (inr stopped) ↦ rw (stopped, recover_manager) i
  ]

Step-IsConsistent : {c : Codec} {h h' : History} → Step c h h' → IsConsistent h → IsConsistent h'
Step-IsConsistent {h = h} (begins room) i = begins-IsConsistent h room i
Step-IsConsistent {h = h} (writes tx_id g) i = writes-IsConsistent h tx_id g i
Step-IsConsistent {c} {h = h} (commits tx_id w room) i = commits-IsConsistent c h tx_id w i room
Step-IsConsistent {c} {h = h} (rolls_back tx_id w) i = rolls_back-IsConsistent c h tx_id w i
Step-IsConsistent {c} {h = h} (recovers w room) i = recovers-IsConsistent c h w i room

pub Reach-IsConsistent : {c : Codec} {h : History} → Reach c h → IsConsistent h
unfolding HashMap.get
Reach-IsConsistent (opened g) = record {
  behind = λ t s f. cc;
  based = λ t s f v. cc;
  fresh = λ j l. refl;
}
Reach-IsConsistent (next r st) = Step-IsConsistent st (Reach-IsConsistent r)

-- After any calls in any order, below the limits of the counters, a commit that succeeds replaces
-- the very graph on which its transaction began: no change that another one committed is lost.
pub no_lost_update :
    (c : Codec) (h : History) (tx_id : String) (w : World)
    → Reach c h
    → (commit c h.manager tx_id w).0 ≡ ok tt
    → HashMap.get tx_id h.started ≡ some h.manager.base_graph
no_lost_update c h tx_id w r fine =
    let done = commit_ok c h.manager tx_id w fine in
    (Reach-IsConsistent r).based tx_id done.session done.found done.current
