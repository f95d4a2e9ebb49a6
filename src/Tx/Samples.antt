-- ===== src/Tx/Samples.antt =====
-- The transaction theorems on two transactions of one manager.
use aira_graphdb.Base.{String, ◌≡◌, ◌≢◌, refl, none, some, [], ◌∷◌, arith, eq_iff, string_eq}
use aira_graphdb.Base.Decimal.{to_string}
use aira_graphdb.HashMap
use aira_graphdb.Errors.{ErrorCode, GraphDbError, ok, err, new as new_error}
use aira_graphdb.Graph.{new}
use aira_graphdb.Io.{World, Outcome}
use aira_graphdb.Storage.Engine.{append_wal, persist_after_wal}
use aira_graphdb.Storage.Format.{encode_snapshot}
use aira_graphdb.Storage.Samples.{codec, one_node, bare}
use aira_graphdb.Tx.{
  TransactionManager, TxSession, begin, graph_of, set_graph, commit, commit_session, manager_of,
  conflict,
}
use aira_graphdb.Tx.Commit.{commit_err}
use aira_graphdb.Tx.Isolation.{first_committer_wins}
use aira_graphdb.Tx.History.{History, Step, Reach, no_lost_update}

abbrev opened : History
opened = record { manager = manager_of codec new; started = [] }

abbrev after_begin : History → History
after_begin h = record {
  manager = (begin h.manager).0;
  started = HashMap.insert (begin h.manager).1 h.manager.base_graph h.started;
}

abbrev wrote : History → History
wrote h = record h { manager = set_graph h.manager "tx-1" one_node }

-- Two transactions began, and the first one wrote a node.
abbrev both : History
both = wrote (after_begin (after_begin opened))

both_reached : Reach codec both
unfolding begin
both_reached =
    Reach.next
      (Reach.next (Reach.next (Reach.opened new) (Step.begins (omega arith)))
        (Step.begins (omega arith)))
      (Step.writes "tx-1" one_node)

commits_one : (commit codec both.manager "tx-1" bare).0 ≡ ok tt
unfolding begin set_graph commit commit_session persist_after_wal append_wal encode_snapshot
    to_string HashMap.get HashMap.insert
commits_one = refl

no_lost_update_example : HashMap.get "tx-1" both.started ≡ some both.manager.base_graph
no_lost_update_example = no_lost_update codec both "tx-1" bare both_reached commits_one

-- The sessions of the two transactions.
abbrev session_1 : TxSession
session_1 = record { graph = one_node; base_version = 0 }

abbrev session_2 : TxSession
session_2 = record { graph = new; base_version = 0 }

abbrev manager_2 : TransactionManager
manager_2 = record {
  base_graph = new;
  sessions = ("tx-1", session_1) ∷ ("tx-2", session_2) ∷ [];
  tx_seq = 2;
  graph_version = 0;
}

different : ◌≢◌ {A = String} "tx-1" "tx-2"
different h = let first : String = "tx-1" in ground (arith, (eq_iff first "tx-2").1 h)

found_1 : HashMap.get "tx-1" manager_2.sessions ≡ some session_1
unfolding HashMap.get
found_1 = refl

found_2 : HashMap.get "tx-2" manager_2.sessions ≡ some session_2
unfolding HashMap.get
found_2 = refl

commits_manager : (commit codec manager_2 "tx-1" bare).0 ≡ ok tt
unfolding commit commit_session persist_after_wal append_wal encode_snapshot HashMap.get
commits_manager = refl

first_committer_wins_example :
    let m' = (commit codec manager_2 "tx-1" bare).1 in
    ((commit codec m' "tx-2" bare).0 ≡ err (conflict "tx-2"))
    × ((commit codec m' "tx-2" bare).1.base_graph ≡ one_node)
first_committer_wins_example =
    first_committer_wins codec manager_2 "tx-1" "tx-2" session_1 session_2 bare bare different
      found_1 found_2 refl (omega arith) commits_manager

-- The disk refuses the log.
abbrev refusing : World
refusing = record bare { schedule = Outcome.fails "Permission denied" none ∷ [] }

abbrev refusal : GraphDbError
refusal = new_error ErrorCode.incompatible_format "open wal failed: Permission denied"

commit_refused : (commit codec manager_2 "tx-1" refusing).0 ≡ err refusal
unfolding commit commit_session persist_after_wal append_wal HashMap.get
commit_refused = refl

commit_err_example :
    ((commit codec manager_2 "tx-1" refusing).1.base_graph ≡ new)
    × ((commit codec manager_2 "tx-1" refusing).1.graph_version ≡ 0)
commit_err_example = commit_err codec manager_2 "tx-1" refusing refusal commit_refused

abbrev ahead : TransactionManager
ahead = record manager_2 { graph_version = 1 }

graph_2 : graph_of manager_2 "tx-2" ≡ ok new
unfolding graph_of HashMap.get
graph_2 = refl
