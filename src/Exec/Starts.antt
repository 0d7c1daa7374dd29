-- ===== src/Exec/Starts.antt =====
-- How many `NodeStarted` events the actions of a run send.
use takeln.Base.{
  ℕ, ◌+◌, ◌≤◌, ◌≡◌, refl, ◌∙◌, arith, Bool, true, false, String, Option, none, some, List, [], ◌∷◌,
  if◌then◌else◌,
}
use takeln.Error.{TakelnError, Result, ok, err}
use takeln.Exec.Defs.{
  Exec, Outcome, done, fail, hang, Action, after, ◌>>=◌, pure, throw, lift, ask_store, ask,
  for_some, next_seq, send, emit, notify, set_last_head, GraphEvent, node_started, node_finished,
  graph_finished, SpanContext, MetricsCall, ExecutionRecord, push_record,
}

unfoldable pub starts : {C : Type 0} → List (GraphEvent C) → ℕ
starts [] = 0
starts (node_started t n at s ∷ es) = starts es + 1
starts (node_finished t n d st c s ∷ es) = starts es
starts (graph_finished t c s ∷ es) = starts es

module _ {C W St : Type 0} where
  -- An action that starts no node, and one that starts at most so many.
  abbrev pub IsSilent : {A : Type 0} → Action C W St A → Type 0
  IsSilent m = (x : Exec C W St) → starts (m x).1.events ≡ starts x.events

  abbrev pub StartsUpTo : {A : Type 0} → ℕ → Action C W St A → Type 0
  StartsUpTo k m = (x : Exec C W St) → starts (m x).1.events ≤ starts x.events + k

module _ {C W St A B : Type 0} where
  after-silent :
      (x : Exec C W St) (r : Outcome C A × Exec C W St) (f : A → Action C W St B)
      → starts r.1.events ≡ starts x.events
      → ((a : A) → IsSilent (f a))
      → starts (after r f).1.events ≡ starts x.events
  after-silent x (done a, y) f h hf = hf a y ∙ h
  after-silent x (fail e, y) f h hf = h
  after-silent x (hang, y) f h hf = h

  pub >>=-IsSilent :
      (m : Action C W St A) (f : A → Action C W St B)
      → IsSilent m
      → ((a : A) → IsSilent (f a))
      → IsSilent (m >>= f)
  >>=-IsSilent m f hm hf x = after-silent x (m x) f (hm x) hf

  pub after-starts :
      (i k : ℕ) (x : Exec C W St) (r : Outcome C A × Exec C W St) (f : A → Action C W St B)
      → starts r.1.events ≤ starts x.events + i
      → ((a : A) → StartsUpTo k (f a))
      → starts (after r f).1.events ≤ starts x.events + (i + k)
  after-starts i k x (done a, y) f h hf = omega (arith, h, hf a y)
  after-starts i k x (fail e, y) f h hf = omega (arith, h)
  after-starts i k x (hang, y) f h hf = omega (arith, h)

  pub silent_then :
      (k : ℕ) (m : Action C W St A) (f : A → Action C W St B)
      → IsSilent m
      → ((a : A) → StartsUpTo k (f a))
      → StartsUpTo k (m >>= f)
  silent_then k m f hm hf x = omega (arith, after-starts 0 k x (m x) f (omega (arith, hm x)) hf)

  pub then_silent :
      (k : ℕ) (m : Action C W St A) (f : A → Action C W St B)
      → StartsUpTo k m
      → ((a : A) → IsSilent (f a))
      → StartsUpTo k (m >>= f)
  then_silent k m f hm hf x =
      omega (arith, after-starts k 0 x (m x) f (hm x) (λ a y. omega (arith, hf a y)))

module _ {C W St : Type 0} where
  pub IsSilent-StartsUpTo : {A : Type 0} (k : ℕ) (m : Action C W St A) → IsSilent m → StartsUpTo k m
  IsSilent-StartsUpTo k m h x = omega (arith, h x)

  pub pure-IsSilent : {A : Type 0} (a : A) → IsSilent {C = C} {W = W} {St = St} (pure a)
  pure-IsSilent a x = refl

  pub throw-IsSilent :
      (A : Type 0) (e : TakelnError C) → IsSilent {C = C} {W = W} {St = St} {A = A} (throw e)
  throw-IsSilent A e x = refl

  pub ask-IsSilent : {A : Type 0} (f : W → A × W) → IsSilent {C = C} {W = W} {St = St} (ask f)
  ask-IsSilent f x = refl

  pub send_node_finished-IsSilent :
      (t n : String) (d : ℕ) (s : String) (c : Option C)
      → IsSilent {C = C} {W = W} {St = St} (send (node_finished t n d s c))
  unfolding send next_seq starts
  send_node_finished-IsSilent t n d s c x = refl

  pub send_graph_finished-IsSilent :
      (t : String) (c : C) → IsSilent {C = C} {W = W} {St = St} (send (graph_finished t c))
  unfolding send next_seq starts
  send_graph_finished-IsSilent t c x = refl

  pub send_node_started :
      (t n : String) (at : ℕ) → StartsUpTo {C = C} {W = W} {St = St} 1 (send (node_started t n at))
  unfolding send next_seq starts
  send_node_started t n at x = omega arith

  pub emit-IsSilent : (span : SpanContext C) → IsSilent {C = C} {W = W} {St = St} (emit span)
  unfolding emit
  emit-IsSilent span x = refl

  pub notify-IsSilent : (call : MetricsCall C) → IsSilent {C = C} {W = W} {St = St} (notify call)
  unfolding notify
  notify-IsSilent call x = refl

  pub set_last_head-IsSilent :
      (head : Option String) → IsSilent {C = C} {W = W} {St = St} (set_last_head head)
  unfolding set_last_head
  set_last_head-IsSilent head x = refl

  pub push_record-IsSilent :
      (limit : ℕ) (r : ExecutionRecord C) → IsSilent {C = C} {W = W} {St = St} (push_record limit r)
  unfolding push_record
  push_record-IsSilent limit r x = ground arith

module _ {C W St A : Type 0} where
  pub if-IsSilent :
      (b : Bool) (m k : Action C W St A) → IsSilent m → IsSilent k → IsSilent (if b then m else k)
  if-IsSilent true m k hm hk = hm
  if-IsSilent false m k hm hk = hk

  pub if-StartsUpTo :
      (i : ℕ) (b : Bool) (m k : Action C W St A)
      → StartsUpTo i m
      → StartsUpTo i k
      → StartsUpTo i (if b then m else k)
  if-StartsUpTo i true m k hm hk = hm
  if-StartsUpTo i false m k hm hk = hk

  pub lift-IsSilent : (r : Result C A) → IsSilent {C = C} {W = W} {St = St} (lift r)
  lift-IsSilent (ok a) x = refl
  lift-IsSilent (err e) x = refl

  pub ask_store-IsSilent :
      (f : St → Result C A × St) → IsSilent {C = C} {W = W} {St = St} (ask_store f)
  ask_store-IsSilent f x = lift-IsSilent (f x.store).0 (record x { store = (f x.store).1 })

  pub for_some-IsSilent :
      (o : Option A) (body : A → Action C W St (Unit {0}))
      → ((a : A) → IsSilent (body a))
      → IsSilent (for_some o body)
  unfolding for_some
  for_some-IsSilent none body h = pure-IsSilent tt
  for_some-IsSilent (some a) body h = h a

-- The rules by which a chain of actions is seen to start no node.
pub ruleset silent = (
  >>=-IsSilent, if-IsSilent, for_some-IsSilent, pure-IsSilent, throw-IsSilent, lift-IsSilent,
  ask-IsSilent, ask_store-IsSilent, send_node_finished-IsSilent, send_graph_finished-IsSilent,
  emit-IsSilent, notify-IsSilent, set_last_head-IsSilent, push_record-IsSilent,
)
