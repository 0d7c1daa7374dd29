-- ===== src/Exec/Quiet.antt =====
-- Actions that leave the store, the tracked head and the DAG alone, and actions that end.
use takeln.Base.{
  ℕ, ◌<◌, ◌+◌, ◌≡◌, refl, ◌∙◌, ◌≢◌, Bool, true, false, Option, none, some, List, [], ◌∷◌, length,
  leb, arith, if◌then◌else◌, inl, inr, Bool-cases,
}
use takeln.Error.{TakelnError, Result, ok, err}
use takeln.Exec.Defs.{
  Exec, Outcome, done, fail, hang, Action, after, ◌>>=◌, pure, throw, lift, ask_store, ask,
  for_some, next_seq, send, emit, notify, GraphEvent, SpanContext, MetricsCall, ExecutionRecord,
  evict, push_record,
}

-- The second state has the store, the tracked head and the DAG of the first.
pub record SameStore {C W St : Type 0} (x y : Exec C W St) : Type 0 where
  pub store : y.store ≡ x.store
  pub last_head : y.last_head ≡ x.last_head
  pub dag : y.dag ≡ x.dag

module _ {C W St : Type 0} where
  pub SameStore-trans : (x y z : Exec C W St) → SameStore x y → SameStore y z → SameStore x z
  SameStore-trans x y z p q = record {
    store = q.store ∙ p.store;
    last_head = q.last_head ∙ p.last_head;
    dag = q.dag ∙ p.dag;
  }

  abbrev pub IsQuiet : {A : Type 0} → Action C W St A → Type 0
  IsQuiet m = (x : Exec C W St) → SameStore x (m x).1

  abbrev pub Ends : {A : Type 0} → Action C W St A → Type 0
  Ends m = (x : Exec C W St) → (m x).0 ≢ hang

module _ {C W St A B : Type 0} where
  after-SameStore :
      (x : Exec C W St) (r : Outcome C A × Exec C W St) (f : A → Action C W St B)
      → SameStore x r.1
      → ((a : A) → IsQuiet (f a))
      → SameStore x (after r f).1
  after-SameStore x (done a, y) f h hf = SameStore-trans x y _ h (hf a y)
  after-SameStore x (fail e, y) f h hf = h
  after-SameStore x (hang, y) f h hf = h

  pub >>=-IsQuiet :
      (m : Action C W St A) (f : A → Action C W St B)
      → IsQuiet m
      → ((a : A) → IsQuiet (f a))
      → IsQuiet (m >>= f)
  >>=-IsQuiet m f hm hf x = after-SameStore x (m x) f (hm x) hf

  after-ne-hang :
      (r : Outcome C A × Exec C W St) (f : A → Action C W St B)
      → r.0 ≢ hang
      → ((a : A) → Ends (f a))
      → (after r f).0 ≢ hang
  after-ne-hang (done a, y) f h hf = hf a y
  after-ne-hang (fail e, y) f h hf = λ q. cc
  after-ne-hang (hang, y) f h hf = absurd (h refl)

  pub >>=-Ends :
      (m : Action C W St A) (f : A → Action C W St B)
      → Ends m
      → ((a : A) → Ends (f a))
      → Ends (m >>= f)
  >>=-Ends m f hm hf x = after-ne-hang (m x) f (hm x) hf

module _ {C W St : Type 0} where
  pub SameStore-refl : (x : Exec C W St) → SameStore x x
  SameStore-refl x = record { store = refl; last_head = refl; dag = refl }

  pub pure-IsQuiet : {A : Type 0} (a : A) → IsQuiet {C = C} {W = W} {St = St} (pure a)
  pure-IsQuiet a x = SameStore-refl x

  pub throw-IsQuiet :
      (A : Type 0) (e : TakelnError C) → IsQuiet {C = C} {W = W} {St = St} {A = A} (throw e)
  throw-IsQuiet A e x = SameStore-refl x

  pub ask-IsQuiet : {A : Type 0} (f : W → A × W) → IsQuiet {C = C} {W = W} {St = St} (ask f)
  ask-IsQuiet f x = record { store = refl; last_head = refl; dag = refl }

  pub send-IsQuiet : (event : ℕ → GraphEvent C) → IsQuiet {C = C} {W = W} {St = St} (send event)
  unfolding send next_seq
  send-IsQuiet event x = record { store = refl; last_head = refl; dag = refl }

  pub emit-IsQuiet : (span : SpanContext C) → IsQuiet {C = C} {W = W} {St = St} (emit span)
  unfolding emit
  emit-IsQuiet span x = record { store = refl; last_head = refl; dag = refl }

  pub notify-IsQuiet : (call : MetricsCall C) → IsQuiet {C = C} {W = W} {St = St} (notify call)
  unfolding notify
  notify-IsQuiet call x = record { store = refl; last_head = refl; dag = refl }

  pub push_record-IsQuiet :
      (limit : ℕ) (r : ExecutionRecord C) → IsQuiet {C = C} {W = W} {St = St} (push_record limit r)
  unfolding push_record
  push_record-IsQuiet limit r x = ground arith

  pub send-Ends : (event : ℕ → GraphEvent C) → Ends {C = C} {W = W} {St = St} (send event)
  unfolding send next_seq
  send-Ends event x e = cc

  pub emit-Ends : (span : SpanContext C) → Ends {C = C} {W = W} {St = St} (emit span)
  unfolding emit
  emit-Ends span x e = cc

  pub notify-Ends : (call : MetricsCall C) → Ends {C = C} {W = W} {St = St} (notify call)
  unfolding notify
  notify-Ends call x e = cc

  pub pure-Ends : {A : Type 0} (a : A) → Ends {C = C} {W = W} {St = St} (pure a)
  pure-Ends a x e = cc

  pub throw-Ends :
      {A : Type 0} (e : TakelnError C) → Ends {C = C} {W = W} {St = St} {A = A} (throw e)
  throw-Ends e x q = cc

  pub ask-Ends : {A : Type 0} (f : W → A × W) → Ends {C = C} {W = W} {St = St} (ask f)
  ask-Ends f x e = cc

-- With a positive limit the eviction ends, on fewer records than the limit.
pub evict_bounded :
    {C : Type 0} (limit : ℕ) (rs : List (ExecutionRecord C))
    → 0 < limit
    → (kept : List (ExecutionRecord C)) × (evict limit rs ≡ some kept) × (length kept < limit)
unfolding evict
evict_bounded limit [] h = ([], ground arith, h)
evict_bounded limit (r ∷ rs) h = elim (Bool-cases (leb limit (length rs + 1))) [
  | inl over ↦ let (kept, e, b) = evict_bounded limit rs h in (kept, rw over e, b)
  | inr fits ↦ (r ∷ rs, rw fits refl, ground arith)
]

-- Without one it does not end.
pub evict_zero : {C : Type 0} (rs : List (ExecutionRecord C)) → evict 0 rs ≡ none
unfolding evict
evict_zero [] = ground arith
evict_zero (r ∷ rs) = ground (arith, evict_zero rs)

pub push_record-Ends :
    {C W St : Type 0} (limit : ℕ) (r : ExecutionRecord C)
    → 0 < limit
    → Ends {C = C} {W = W} {St = St} (push_record limit r)
unfolding push_record
push_record-Ends limit r h x = ground (arith, (evict_bounded limit x.records h).1)

module _ {C W St A : Type 0} where
  pub if-Ends : (b : Bool) (m k : Action C W St A) → Ends m → Ends k → Ends (if b then m else k)
  if-Ends true m k hm hk = hm
  if-Ends false m k hm hk = hk

  pub if-IsQuiet :
      (b : Bool) (m k : Action C W St A) → IsQuiet m → IsQuiet k → IsQuiet (if b then m else k)
  if-IsQuiet true m k hm hk = hm
  if-IsQuiet false m k hm hk = hk

  pub lift-Ends : (r : Result C A) → Ends {C = C} {W = W} {St = St} (lift r)
  lift-Ends (ok a) x e = cc
  lift-Ends (err e) x q = cc

  pub lift-IsQuiet : (r : Result C A) → IsQuiet {C = C} {W = W} {St = St} (lift r)
  lift-IsQuiet (ok a) x = SameStore-refl x
  lift-IsQuiet (err e) x = SameStore-refl x

  pub ask_store-Ends : (f : St → Result C A × St) → Ends {C = C} {W = W} {St = St} (ask_store f)
  ask_store-Ends f x = lift-Ends (f x.store).0 (record x { store = (f x.store).1 })

module _ {C W St A : Type 0} where
  pub for_some-Ends :
      (o : Option A) (body : A → Action C W St (Unit {0}))
      → ((a : A) → Ends (body a))
      → Ends (for_some o body)
  unfolding for_some
  for_some-Ends none body h = pure-Ends tt
  for_some-Ends (some a) body h = h a

  pub for_some-IsQuiet :
      (o : Option A) (body : A → Action C W St (Unit {0}))
      → ((a : A) → IsQuiet (body a))
      → IsQuiet (for_some o body)
  unfolding for_some
  for_some-IsQuiet none body h = pure-IsQuiet tt
  for_some-IsQuiet (some a) body h = h a

-- The rules by which a chain of actions is seen to end.
pub ruleset ends = (
  >>=-Ends, if-Ends, for_some-Ends, pure-Ends, throw-Ends, lift-Ends, ask-Ends, ask_store-Ends,
  send-Ends, emit-Ends, notify-Ends, push_record-Ends,
)

-- The rules by which it is seen to be quiet.
pub ruleset quiet = (
  >>=-IsQuiet, if-IsQuiet, for_some-IsQuiet, pure-IsQuiet, throw-IsQuiet, lift-IsQuiet, ask-IsQuiet,
  send-IsQuiet, emit-IsQuiet, notify-IsQuiet, push_record-IsQuiet,
)
