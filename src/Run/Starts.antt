-- ===== src/Run/Starts.antt =====
-- The bound on the nodes that one run of src/graph.rs starts.
use takeln.Base.{
  ℕ, zero, suc, ◌+◌, arith, false, not, ◌&&◌, ◌==◌, String, Option, none, some, lookup, mem_str,
  if◌then◌else◌,
}
use takeln.Checkpoint.{Checkpointer}
use takeln.Context.{Host}
use takeln.Node.{Node, DynamicNode}
use takeln.Graph.{Graph}
use takeln.Exec.Defs.{Action}
use takeln.Exec.Starts.{
  IsSilent, StartsUpTo, silent, after-starts, silent_then, then_silent, IsSilent-StartsUpTo,
  send_node_started, if-StartsUpTo,
}
use takeln.Run.Call.{Called}
use takeln.Run.Frame.{Frame, Round, stop, again}
use takeln.Run.Engine.{
  start_node, execute_by, execute_node, by_round, finish, interrupt, run_step, run_loop, run_inner,
}
use takeln.Run.Silent.{call_node-IsSilent, call_dynamic-IsSilent, save-IsSilent, on_result-IsSilent}

module _ {S V C W St : Type 0} (host : Host S V C W) (graph : Graph S V C W)
    (cp : Checkpointer S V C St) where
  start_node-StartsUpTo :
      (f : Frame S V C) (call : Action C W St (Called S V C))
      → IsSilent call
      → StartsUpTo 1 (start_node host graph cp f call)
  unfolding start_node
  start_node-StartsUpTo f call h =
      search (silent_then, then_silent, send_node_started, silent, on_result-IsSilent) depth 7

  execute_by-StartsUpTo :
      (f : Frame S V C) (dynamic : Option (DynamicNode S V C W)) (node : Option (Node S V C W))
      → StartsUpTo 1 (execute_by host graph cp f dynamic node)
  unfolding execute_by
  execute_by-StartsUpTo f (some node) registered =
      start_node-StartsUpTo f _ (call_dynamic-IsSilent host graph.nodes _ node _)
  execute_by-StartsUpTo f none (some node) =
      start_node-StartsUpTo f _ (call_node-IsSilent host _ node _)
  execute_by-StartsUpTo f none none = λ x. omega arith

  execute_node-StartsUpTo : (f : Frame S V C) → StartsUpTo 1 (execute_node host graph cp f)
  unfolding execute_node
  execute_node-StartsUpTo f =
      execute_by-StartsUpTo f (lookup f.current_node_name graph.dynamic_nodes)
        (lookup f.current_node_name graph.nodes)

  finish-IsSilent : (f : Frame S V C) → IsSilent (finish host graph cp f)
  unfolding finish
  finish-IsSilent f = search silent

  interrupt-IsSilent : (f : Frame S V C) → IsSilent (interrupt host graph cp f)
  unfolding interrupt
  interrupt-IsSilent f = search (silent, save-IsSilent)

  run_step-StartsUpTo : (f : Frame S V C) → StartsUpTo 1 (run_step host graph cp f)
  unfolding run_step
  run_step-StartsUpTo f =
      if-StartsUpTo 1 (f.current_node_name == "__END__") (finish host graph cp f)
        (if not f.is_first_step && mem_str f.current_node_name graph.interrupt_before
          then interrupt host graph cp f
          else execute_node host graph cp (record f { is_first_step = false }))
        (IsSilent-StartsUpTo 1 (finish host graph cp f) (finish-IsSilent f))
        (if-StartsUpTo 1 (not f.is_first_step && mem_str f.current_node_name graph.interrupt_before)
          (interrupt host graph cp f)
          (execute_node host graph cp (record f { is_first_step = false }))
          (IsSilent-StartsUpTo 1 (interrupt host graph cp f) (interrupt-IsSilent f))
          (execute_node-StartsUpTo (record f { is_first_step = false })))

  by_round-StartsUpTo :
      (k : ℕ) (next : Frame S V C → Action C W St S)
      → ((f : Frame S V C) → StartsUpTo k (next f))
      → (r : Round S V C) → StartsUpTo k (by_round host graph cp next r)
  unfolding by_round
  by_round-StartsUpTo k next h (stop s) x = omega arith
  by_round-StartsUpTo k next h (again f) x = h f x

  run_loop-StartsUpTo :
      (left : ℕ) (f : Frame S V C) → StartsUpTo left (run_loop host graph cp left f)
  unfolding run_loop
  run_loop-StartsUpTo zero f x = omega arith
  run_loop-StartsUpTo (suc left) f x = omega (
    arith,
    after-starts 1 left x (run_step host graph cp (record f { step_count = f.step_count + 1 }) x)
        (by_round host graph cp (run_loop host graph cp left))
        (run_step-StartsUpTo (record f { step_count = f.step_count + 1 }) x)
        (by_round-StartsUpTo left (run_loop host graph cp left) (run_loop-StartsUpTo left)),
  )

  -- A run sends at most `max_sequential_steps` events `NodeStarted`, whatever the nodes answer and wherever
  -- the edges lead.
  pub run_inner-StartsUpTo :
      (thread_id : String) (state : S) (start : String) (cancellation : Option ℕ) (input : Option V)
      (resolved : Option String)
      → StartsUpTo graph.resource_limits.max_sequential_steps
          (run_inner host graph cp thread_id state start cancellation input resolved)
  unfolding run_inner
  run_inner-StartsUpTo thread_id state start cancellation input resolved =
      search (silent_then, silent, run_loop-StartsUpTo)
