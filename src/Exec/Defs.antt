-- ===== src/Exec/Defs.antt =====
-- The state that a run threads, and the actions over it. An action ends with a value, with an error, or
-- not at all (`hang`: a loop of the source that does not end); what was done before an error stays done.
use takeln.Base.{
  ℕ, ◌+◌, ◌%◌, ◌^◌, String, Option, none, some, List, [], ◌∷◌, ◌++◌, length, leb, if◌then◌else◌,
}
use takeln.Error.{TakelnError, Result, ok, err}
use takeln.Dag.Data.{Dag}
use takeln.Node.{NodeMeta}
use takeln.Hitl.{ResumeRecord}

-- src/history.rs
pub record ExecutionRecord (C : Type 0) : Type 0 where
  pub node_name : String
  pub started_at : ℕ
  pub duration_ms : ℕ
  pub status : String
  pub cost_eur : Option C
  pub checkpoint_id : Option String
  pub attempts : ℕ
  pub actor : Option String
  pub response_hash : Option String
  pub tokens_in : Option ℕ
  pub tokens_out : Option ℕ

-- `GraphEvent` of src/graph.rs
pub data GraphEvent (C : Type 0) : Type 0 where
  node_started : (thread_id node_name : String) (started_at sequence_number : ℕ) → GraphEvent C
  node_finished :
      (thread_id node_name : String) (duration_ms : ℕ) (status : String) (cost : Option C)
      (sequence_number : ℕ)
      → GraphEvent C
  graph_finished : (thread_id : String) (cost : C) (sequence_number : ℕ) → GraphEvent C

-- src/emitter.rs
pub data SpanStatus : Type 0 where
  success error cancelled retrying : SpanStatus

pub record SpanContext (C : Type 0) : Type 0 where
  pub thread_id : String
  pub node_name : String
  pub checkpoint_id : Option String
  pub attempt : ℕ
  pub duration_ms : ℕ
  pub cost_eur : Option C
  pub status : SpanStatus
  pub dag_id : Option String
  pub error : Option String
  pub meta : NodeMeta C

-- The calls of the metrics hook, src/metrics.rs.
pub data MetricsCall (C : Type 0) : Type 0 where
  on_node_complete : (node_name : String) (duration_ms : ℕ) → SpanStatus → MetricsCall C
  on_graph_complete : (thread_id : String) (total_cost : C) (total_duration_ms : ℕ) → MetricsCall C
  on_checkpoint_saved : (thread_id checkpoint_id : String) → MetricsCall C
  on_resume : ResumeRecord → MetricsCall C

-- `env` is the machine and what the nodes see, `store` the checkpointer's store. Events, spans and
-- metrics are the calls made, newest first; records are oldest first. `last_head` is the out-parameter
-- of `run_inner`, and `dag` the `&mut DAG` of the wave runner.
pub record Exec (C W St : Type 0) : Type 0 where
  pub env : W
  pub store : St
  pub event_seq : ℕ
  pub events : List (GraphEvent C)
  pub spans : List (SpanContext C)
  pub metrics : List (MetricsCall C)
  pub records : List (ExecutionRecord C)
  pub last_head : Option (Option String)
  pub dag : Dag

-- How an action ends.
pub data Outcome (C A : Type 0) : Type 0 where
  done : A → Outcome C A
  fail : TakelnError C → Outcome C A
  hang : Outcome C A

abbrev pub Action : Type 0 → Type 0 → Type 0 → Type 0 → Type 0
Action C W St A = Exec C W St → Outcome C A × Exec C W St

abbrev pub after :
    {C W St A B : Type 0}
    → Outcome C A × Exec C W St
    → (A → Action C W St B)
    → Outcome C B × Exec C W St
after (done a, x) f = f a x
after (fail e, x) f = (fail e, x)
after (hang, x) f = (hang, x)

infixl 5 ◌>>=◌ ◌>>◌
abbrev pub ◌>>=◌ : {C W St A B : Type 0} → Action C W St A → (A → Action C W St B) → Action C W St B
◌>>=◌ m f x = after (m x) f

abbrev pub ◌>>◌ : {C W St A B : Type 0} → Action C W St A → Action C W St B → Action C W St B
m >> k = m >>= λ _. k

module _ {C W St : Type 0} where
  abbrev pub pure : {A : Type 0} → A → Action C W St A
  pure a x = (done a, x)

  abbrev pub throw : {A : Type 0} → TakelnError C → Action C W St A
  throw e x = (fail e, x)

  -- `?` on a result
  abbrev pub lift : {A : Type 0} → Result C A → Action C W St A
  lift (ok a) x = (done a, x)
  lift (err e) x = (fail e, x)

  -- `if let Some(a) = o { … }`
  unfoldable pub for_some :
      {A : Type 0} → Option A → (A → Action C W St (Unit {0})) → Action C W St (Unit {0})
  for_some none body = pure tt
  for_some (some a) body = body a

  -- A call of the machine.
  abbrev pub ask : {A : Type 0} → (W → A × W) → Action C W St A
  ask f x = let (a, w) = f x.env in (done a, record x { env = w })

  -- A call of the checkpointer.
  abbrev pub ask_store : {A : Type 0} → (St → Result C A × St) → Action C W St A
  ask_store f x = let (r, st) = f x.store in lift r (record x { store = st })

  -- `next_seq`: an atomic 64-bit counter, which wraps.
  unfoldable pub next_seq : Action C W St ℕ
  next_seq x = (done x.event_seq, record x { event_seq = (x.event_seq + 1) % 2 ^ 64 })

  -- `event_tx.send`, with the sequence number that is drawn for the event.
  unfoldable pub send : (ℕ → GraphEvent C) → Action C W St (Unit {0})
  unfolding next_seq
  send event = do n ← next_seq; λ x. (done tt, record x { events = event n ∷ x.events })

  unfoldable pub emit : SpanContext C → Action C W St (Unit {0})
  emit span x = (done tt, record x { spans = span ∷ x.spans })

  unfoldable pub notify : MetricsCall C → Action C W St (Unit {0})
  notify call x = (done tt, record x { metrics = call ∷ x.metrics })

  -- `Graph::execution_history`
  unfoldable pub execution_history : Action C W St (List (ExecutionRecord C))
  execution_history x = (done x.records, x)

  unfoldable pub set_last_head : Option String → Action C W St (Unit {0})
  set_last_head head x = (done tt, record x { last_head = some head })

  unfoldable pub set_dag : Dag → Action C W St (Unit {0})
  set_dag dag x = (done tt, record x { dag = dag })

-- `while records.len() >= max { records.pop_front(); }`: on the empty deque `pop_front` does nothing, so
-- where the test holds there it holds for ever, and the loop does not end (`none`).
unfoldable pub evict :
    {C : Type 0} → ℕ → List (ExecutionRecord C) → Option (List (ExecutionRecord C))
evict limit [] = if leb limit 0 then none else some []
evict limit (r ∷ rs) =
    let rest = evict limit rs in if leb limit (length rs + 1) then rest else some (r ∷ rs)

-- The history keeps the newest records.
unfoldable pub push_record : {C W St : Type 0} → ℕ → ExecutionRecord C → Action C W St (Unit {0})
unfolding evict
push_record limit r x = elim (evict limit x.records) [
  | none ↦ (hang, x)
  | some kept ↦ (done tt, record x { records = kept ++ r ∷ [] })
]
