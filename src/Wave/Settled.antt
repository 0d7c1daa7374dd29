-- ===== src/Wave/Settled.antt =====
-- `Graph::run_dag` and `Graph::resume_dag` of src/graph.rs on a DAG in which no node is pending.
use takeln.Base.{
  ℕ, suc, ◌+◌, ◌≤◌, ◌≡◌, refl, false, String, Option, some, List, [], ◌∷◌, length, any, ltb, arith,
}
use takeln.Error.{ok}
use takeln.Checkpoint.{CheckpointMeta, Checkpointer}
use takeln.Context.{Host}
use takeln.Graph.{Graph}
use takeln.Dag.Data.{DagNode, Dag, restore_statuses}
use takeln.Exec.Defs.{Exec, done, graph_finished, Action, ◌>>◌, pure, send, set_dag}
use takeln.Exec.Starts.{starts, send_graph_finished-IsSilent}
use takeln.Wave.Ready.{is_pending, is_ready, ready_from}
use takeln.Wave.Task.{Turn}
use takeln.Wave.Collect.{get_dag}
use takeln.Wave.Engine.{
  Progress, break, on_no_ready, dispatch, run_round, by_wave, run_waves, first_progress,
  check_depth, check_dag_size, run_dag,
}
use takeln.Wave.Resume.{restore, resume_loaded, resume_dag}
use takeln.Resume.Crash.{is_running}

none_ready :
    (i : ℕ) (completed : List ℕ) (nodes : List DagNode)
    → any (λ n. is_pending n.status) nodes ≡ false
    → ready_from i completed nodes ≡ []
unfolding ready_from is_ready
none_ready i completed [] h = refl
none_ready i completed (n ∷ ns) h = ground (arith, none_ready (i + 1) completed ns (ground arith))

module _ {S V C W St : Type 0} (host : Host S V C W) (graph : Graph S V C W)
    (cp : Checkpointer S V C St) (merge : S → S → S) where
  settled_round :
      (turns : ℕ → Turn) (p : Progress S C) (x : Exec C W St)
      → any (λ n. is_pending n.status) x.dag.nodes ≡ false
      → run_round host graph cp merge turns p x ≡ (done (break p), x)
  unfolding run_round get_dag dispatch on_no_ready
  settled_round turns p x h = rw (none_ready 0 p.completed x.dag.nodes h, h) refl

  -- The end of a run that starts no wave.
  abbrev finished_run : String → S → Action C W St S
  finished_run thread_id state = send (graph_finished thread_id host.zero_cost) >> pure state

  settled_waves :
      (schedule : ℕ → ℕ → Turn) (fuel k : ℕ) (p : Progress S C) (x : Exec C W St)
      → any (λ n. is_pending n.status) x.dag.nodes ≡ false
      → run_waves host graph cp merge schedule (suc fuel) k p x
        ≡ (send (graph_finished p.thread_id p.running_cost_eur) >> pure p.state) x
  unfolding run_waves by_wave
  settled_waves schedule fuel k p x h = rw (settled_round (schedule k) p x h) refl

  settled_run :
      (schedule : ℕ → ℕ → Turn) (thread_id : String) (state : S) (cancellation : Option ℕ)
      (depth : ℕ) (x : Exec C W St) (head : Option String) (st : St)
      → any (λ n. is_pending n.status) x.dag.nodes ≡ false
      → depth ≤ 8
      → length x.dag.nodes ≤ graph.resource_limits.max_dag_nodes
      → cp.current_head thread_id x.store ≡ (ok head, st)
      → run_dag host graph cp merge schedule thread_id state cancellation depth x
        ≡ finished_run thread_id state (record x { store = st })
  unfolding run_dag check_depth check_dag_size get_dag first_progress
  settled_run schedule thread_id state cancellation depth x head st h shallow small e =
      let limit = graph.resource_limits.max_dag_nodes in
      let not_deep : ltb 8 depth ≡ false = ground (arith, shallow) in
      let not_large : ltb limit (length x.dag.nodes) ≡ false = ground (arith, small) in
      let fuel : length x.dag.nodes + 1 ≡ suc (length x.dag.nodes) = omega arith in
      rw (not_deep, not_large, e, fuel)
        (settled_waves schedule (length x.dag.nodes) 0
          (first_progress host thread_id state cancellation x.dag.nodes head)
          (record x { store = st }) h)

  -- The statuses that a resume gives the DAG: those of the snapshot.
  restore_idle :
      (thread_id : String) (meta : CheckpointMeta V) (saved : Dag) (x : Exec C W St)
      → is_running meta.status ≡ false
      → restore host graph cp merge thread_id meta.status saved x
        ≡ (done tt, record x { dag = restore_statuses saved x.dag })
  unfolding restore get_dag set_dag
  restore_idle thread_id meta saved x idle = rw idle refl

  -- Where the snapshot of a checkpoint that was not taken mid-execution leaves no node of the DAG pending, a
  -- resume within the limits on depth and nodes returns the stored state and starts no node, if the
  -- store gives the head.
  pub resume_dag-settled :
      (schedule : ℕ → ℕ → Turn) (thread_id : String) (cancellation : Option ℕ) (depth : ℕ)
      (x : Exec C W St) (state : S) (meta : CheckpointMeta V) (saved : Dag) (head : Option String)
      (st st' : St)
      → cp.backend.load_state thread_id x.store ≡ (ok (some (state, meta, some saved)), st)
      → is_running meta.status ≡ false
      → any (λ n. is_pending n.status) (restore_statuses saved x.dag).nodes ≡ false
      → depth ≤ 8
      → length (restore_statuses saved x.dag).nodes ≤ graph.resource_limits.max_dag_nodes
      → cp.current_head thread_id st ≡ (ok head, st')
      → ((resume_dag host graph cp merge schedule thread_id cancellation depth x).0
          ≡ done (some state))
        × (starts (resume_dag host graph cp merge schedule thread_id cancellation depth x).1.events
            ≡ starts x.events)
  unfolding resume_dag resume_loaded send
  resume_dag-settled schedule thread_id cancellation depth x state meta saved head st st' e idle h
        shallow small e' =
      let y = record x { store = st; dag = restore_statuses saved x.dag } in
      let run =
        settled_run schedule thread_id state cancellation depth y head st' h shallow small e' in
      let restored = restore_idle thread_id meta saved (record x { store = st }) idle in
      rw (e, restored, run)
        (refl, send_graph_finished-IsSilent thread_id host.zero_cost (record y { store = st' }))
