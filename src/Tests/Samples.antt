-- ===== src/Tests/Samples.antt =====
-- The data that the tests run on: a machine, a graph that waits for an approval, and two stores.
use takeln.Base.{
  ℕ, zero, suc, ◌+◌, ◌-◌, refl, Bool, true, false, ltb, String, ◌==◌, Option, some, none, List, [],
  ◌∷◌, concat, unwrap_or, lookup, insert, inl, if◌then◌else◌, inr,
}
use takeln.Hitl.{YieldRequest, ResumeContext, re_entry}
use takeln.Error.{yield, Result, ok}
use takeln.Limits.{default_limits}
use takeln.Retry.{default_policy}
use takeln.Checkpoint.{
  CheckpointStatus, CheckpointSave, advanced, conflict, yielded, reset_to_pending, in_progress,
  SaveRequest, CheckpointProof, Checkpointer,
}
use takeln.Context.{Host}
use takeln.Node.{Node, default_meta, done, failed, unconditional, fail_fast}
use takeln.Graph.{Graph}
use takeln.Schema.{null, number, string, object, JsonView}
use takeln.Exec.Defs.{Exec, ExecutionRecord}
use takeln.Store.Memory.Data.{Machine, MemoryCheckpoint, MemoryStore, Serde}
use takeln.Store.Memory.SingleWinner.{IsClaimable}

-- Values of JSON; `typed t` is the schema `{"type": t}`.
pub data Json : Type 0 where
  nothing : Json
  num : ℕ → Json
  text : String → Json
  typed : String → Json

abbrev pub json_view : JsonView Json
json_view = record {
  kind = λ v. elim v [ nothing ↦ null | num _ ↦ number true | text _ ↦ string | typed _ ↦ object ];
  get = λ key v. elim v [ typed t ↦ (if key == "type" then some (text t) else none) | _ ↦ none ];
  as_str = λ v. elim v [ text s ↦ some s | _ ↦ none ];
  as_array = λ v. none;
  eq = λ v w. false;
  debug = λ v. "value";
  debug_array = λ vs. "values";
}

abbrev pub machine : Host ℕ Json ℕ ℕ
machine = record {
  utc_now = λ w. (w, w + 1);
  new_v4 = λ w. ("attempt", w);
  random = λ w. (w, w);
  sleep = λ ms w. w + ms;
  new_v5 = λ s. s;
  json_len = λ s. some 8;
  response_hash = λ v. "hash";
  show_nat = λ n. "n";
  show_duration = λ n. "ms";
  show_cost = λ c. "eur";
  error_text = λ e. "error";
  zero_cost = 0;
  add_cost = λ a b. a + b;
  sub_cost = λ a b. a - b;
  gt_cost = λ a b. ltb b a;
}

abbrev pub approval : YieldRequest Json
approval = record {
  interrupt_id = "approve";
  message = "Publish?";
  schema = some (typed "string");
  resume_mode = re_entry;
  payload_ref = none;
}

-- A node that waits for an answer, and one that counts.
abbrev pub review : Node ℕ Json ℕ ℕ
review ctx s w = (
  record {
    result = elim ctx.resumed_input [
      | none ↦ failed (yield approval)
      | some _ ↦ done (record { state = s + 1; event = none; meta = default_meta })
    ];
    elapsed = false;
    cancelled = false;
  },
  w,
)

abbrev pub publish : Node ℕ Json ℕ ℕ
publish ctx s w = (
  record {
    result = done (record { state = s + 10; event = none; meta = default_meta });
    elapsed = false;
    cancelled = false;
  },
  w,
)

abbrev pub approval_graph : Graph ℕ Json ℕ ℕ
approval_graph = record {
  nodes = ("review", review) ∷ ("publish", publish) ∷ [];
  dynamic_nodes = [];
  edges = ("review", unconditional "publish") ∷ [];
  retry_policy = default_policy;
  budget_eur = none;
  interrupt_before = [];
  interrupt_after = [];
  crash_recovery_policy = reset_to_pending;
  node_configs = [];
  wave_failure_policy = fail_fast;
  resource_limits = default_limits;
}

abbrev pub started : {St : Type 0} → St → Exec ℕ ℕ St
started st = record {
  env = 0;
  store = st;
  event_seq = 0;
  events = [];
  spans = [];
  metrics = [];
  records = [];
  last_head = none;
  dag = record { id = 0; nodes = []; created_at = 0 };
}

abbrev pub caller : ResumeContext Json
caller = record { actor = some "alice"; metadata = none }

abbrev pub old_record : ExecutionRecord ℕ
old_record = record {
  node_name = "review";
  started_at = 1;
  duration_ms = 2;
  status = "success";
  cost_eur = none;
  checkpoint_id = none;
  attempts = 1;
  actor = none;
  response_hash = none;
  tokens_in = none;
  tokens_out = none;
}

-- States are stored as numbers.
abbrev pub json_serde : Serde ℕ Json
json_serde = record {
  to_value = λ n. inl (num n);
  from_value = λ v. elim v [ num n ↦ inl n | _ ↦ inr "not a number" ];
  max_duration = 1000;
}

abbrev pub waiting : MemoryCheckpoint Json
waiting = record {
  checkpoint_id = "c1";
  state = num 3;
  next_node = "review";
  dag = none;
  status = yielded;
  created_at = 7;
  yield_request = some approval;
  claimed_interrupt = none;
  resolved_interrupt = none;
}

-- The checkpoint after the answer.
abbrev pub answered : MemoryCheckpoint Json
answered = record {
  checkpoint_id = "c2";
  state = num 4;
  next_node = "publish";
  dag = none;
  status = CheckpointStatus.complete;
  created_at = 8;
  yield_request = none;
  claimed_interrupt = none;
  resolved_interrupt = some "approve";
}

abbrev pub ids : Machine
ids = record { uuids = λ n. "fresh"; drawn = 0; now = 9 }

abbrev pub waiting_store : MemoryStore Json
waiting_store = record { threads = ("t1", waiting ∷ []) ∷ ("t2", waiting ∷ []) ∷ []; machine = ids }

pub waiting-IsClaimable : IsClaimable "t1" "approve" waiting_store
waiting-IsClaimable = record {
  checkpoint = waiting;
  latest = record { history = waiting ∷ []; stored = refl; last = refl };
  waits = refl;
  request = approval;
  asked = refl;
  named = refl;
  open_yet = refl;
}

abbrev pub answered_store : MemoryStore Json
answered_store = record { threads = ("t1", waiting ∷ answered ∷ []) ∷ []; machine = ids }

-- The write of the answered state, resolving the given interrupt.
abbrev pub answer_request : Option String → SaveRequest ℕ Json
answer_request resolved = record {
  thread_id = "t1";
  state = 5;
  next_node = "publish";
  dag = none;
  status = CheckpointStatus.complete;
  yield_request = none;
  claimed_interrupt = none;
  resolved_interrupt = resolved;
}

-- A store of heads alone, which takes a write only where it expects the head.
abbrev pub Heads : Type 0
Heads = List (String × String)

unfoldable pub same_head : Option String → Option String → Bool
same_head none none = true
same_head (some a) (some b) = a == b
same_head _ _ = false

abbrev next_id : Option String → String
next_id head = concat (unwrap_or head "c" ∷ "+" ∷ [])

unfoldable pub save_head :
    SaveRequest ℕ Json → CheckpointProof → Heads → Result ℕ CheckpointSave × Heads
unfolding same_head
save_head r p st =
    let head = lookup r.thread_id st in
    if same_head p.expected_head head
    then (ok (advanced (next_id head)), insert r.thread_id (next_id head) st)
    else (ok (conflict head), st)

abbrev pub heads : Checkpointer ℕ Json ℕ Heads
heads = record {
  backend = record {
    save_state = λ r st. (ok "unused", st);
    load_state = λ t st. (ok none, st);
    load_version = λ t i st. (ok none, st);
    list_checkpoints = λ t st. (ok [], st);
    delete_checkpoints = λ t policy st. (ok 0, st);
    claim_interrupt = λ t i st. (ok in_progress, st);
  };
  current_head = λ t st. (ok (lookup t st), st);
  save_state_bound = save_head;
}

-- The store of heads beside another writer, who moves the head after the given number of writes.
abbrev pub Contested : Type 0
Contested = ℕ × Heads

unfoldable pub save_contested :
    SaveRequest ℕ Json → CheckpointProof → Contested → Result ℕ CheckpointSave × Contested
unfolding save_head
save_contested r p (zero, st) =
    let (answer, st') = save_head r p (insert r.thread_id "rival" st) in (answer, (0, st'))
save_contested r p (suc k, st) = let (answer, st') = save_head r p st in (answer, (k, st'))

abbrev pub contested : Checkpointer ℕ Json ℕ Contested
contested = record {
  backend = record {
    save_state = λ r st. (ok "unused", st);
    load_state = λ t st. (ok none, st);
    load_version = λ t i st. (ok none, st);
    list_checkpoints = λ t st. (ok [], st);
    delete_checkpoints = λ t policy st. (ok 0, st);
    claim_interrupt = λ t i st. (ok in_progress, st);
  };
  current_head = λ t st. (ok (lookup t st.1), st);
  save_state_bound = save_contested;
}

-- The graph without its second node: a run fails behind the first.
abbrev pub lone_graph : Graph ℕ Json ℕ ℕ
lone_graph = record approval_graph { nodes = ("review", review) ∷ [] }
