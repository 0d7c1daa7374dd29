-- ===== src/Exec/Mild.antt =====
-- Actions that leave the DAG alone, that report no deadlock where `Tidy` is given, and that end where `Ending`
-- is given.
use takeln.Base.{
  ℕ, ◌<◌, ◌≡◌, refl, ◌∙◌, Bool, true, false, Option, none, some, arith, Option-cases, inl, inr,
  if◌then◌else◌,
}
use takeln.Error.{TakelnError, dag_deadlock, Result, ok, err}
use takeln.Exec.Defs.{
  Exec, Outcome, done, fail, hang, Action, after, ◌>>=◌, pure, throw, lift, ask_store, ask,
  for_some, next_seq, send, emit, notify, GraphEvent, SpanContext, MetricsCall, ExecutionRecord,
  evict, push_record,
}
use takeln.Exec.Quiet.{evict_bounded}

abbrev pub is_deadlock : {C : Type 0} → TakelnError C → Bool
is_deadlock (dag_deadlock names) = true
is_deadlock _ = false

-- A result that is not that error.
abbrev pub IsPlain : {C A : Type 0} → Result C A → Type 0
IsPlain (ok a) = Unit
IsPlain (err e) = is_deadlock e ≡ false

module _ {C W St : Type 0} (Tidy Ending : Type 0) where
  abbrev pub EndsMildly : {A : Type 0} → Exec C W St → Outcome C A × Exec C W St → Type 0
  EndsMildly x (done a, y) = y.dag ≡ x.dag
  EndsMildly x (fail e, y) = (y.dag ≡ x.dag) × (Tidy → is_deadlock e ≡ false)
  EndsMildly x (hang, y) = (y.dag ≡ x.dag) × (Ending → ⊥)

  pub record IsMild {A : Type 0} (m : Action C W St A) : Type 0 where
    pub at : (x : Exec C W St) → EndsMildly x (m x)

module _ {C W St B : Type 0} (Tidy Ending : Type 0) where
  rebased :
      (x y : Exec C W St) (r : Outcome C B × Exec C W St)
      → y.dag ≡ x.dag
      → EndsMildly Tidy Ending y r
      → EndsMildly Tidy Ending x r
  rebased x y (done b, z) same h = h ∙ same
  rebased x y (fail e', z) same h = (h.0 ∙ same, h.1)
  rebased x y (hang, z) same h = (h.0 ∙ same, h.1)

module _ {C W St A B : Type 0} (Tidy Ending : Type 0) where
  after-EndsMildly :
      (x : Exec C W St) (r : Outcome C A × Exec C W St) (f : A → Action C W St B)
      → EndsMildly Tidy Ending x r
      → ((a : A) → IsMild Tidy Ending (f a))
      → EndsMildly Tidy Ending x (after r f)
  after-EndsMildly x (fail e, y) f h hf = h
  after-EndsMildly x (hang, y) f h hf = h
  after-EndsMildly x (done a, y) f h hf = rebased Tidy Ending x y (f a y) h ((hf a).at y)

  pub >>=-IsMild :
      (m : Action C W St A) (f : A → Action C W St B)
      → IsMild Tidy Ending m
      → ((a : A) → IsMild Tidy Ending (f a))
      → IsMild Tidy Ending (m >>= f)
  >>=-IsMild m f hm hf = record { at = λ x. after-EndsMildly x (m x) f (hm.at x) hf }

module _ {C W St : Type 0} (Tidy Ending : Type 0) where
  pub pure-IsMild : {A : Type 0} (a : A) → IsMild {C = C} {W = W} {St = St} Tidy Ending (pure a)
  pure-IsMild a = record { at = λ x. refl }

  pub throw-IsMild :
      (A : Type 0) (e : TakelnError C)
      → is_deadlock e ≡ false
      → IsMild {C = C} {W = W} {St = St} Tidy Ending {A = A} (throw e)
  throw-IsMild A e plain = record { at = λ x. (refl, λ _. plain) }

  pub ask-IsMild :
      {A : Type 0} (f : W → A × W) → IsMild {C = C} {W = W} {St = St} Tidy Ending (ask f)
  ask-IsMild f = record { at = λ x. refl }

  pub send-IsMild :
      (event : ℕ → GraphEvent C) → IsMild {C = C} {W = W} {St = St} Tidy Ending (send event)
  unfolding send next_seq
  send-IsMild event = record { at = λ x. refl }

  pub emit-IsMild :
      (span : SpanContext C) → IsMild {C = C} {W = W} {St = St} Tidy Ending (emit span)
  unfolding emit
  emit-IsMild span = record { at = λ x. refl }

  pub notify-IsMild :
      (call : MetricsCall C) → IsMild {C = C} {W = W} {St = St} Tidy Ending (notify call)
  unfolding notify
  notify-IsMild call = record { at = λ x. refl }

  -- The history's eviction ends with a positive limit.
  pub push_record-IsMild :
      (limit : ℕ) (r : ExecutionRecord C)
      → (Ending → 0 < limit)
      → IsMild {C = C} {W = W} {St = St} Tidy Ending (push_record limit r)
  unfolding push_record
  push_record-IsMild limit r h = record {
    at = λ x. elim (Option-cases (evict limit x.records)) [
      | inr kept ↦ rw (kept.1, EndsMildly) (rw (kept.1, push_record) refl)
      | inl empty ↦
          rw (empty, EndsMildly)
            (
              rw (empty, push_record) refl,
              λ e. ground (arith, (evict_bounded limit x.records (h e)).1),
            )
    ];
  }

module _ {C W St A : Type 0} (Tidy Ending : Type 0) where
  pub if-IsMild :
      (b : Bool) (m k : Action C W St A)
      → IsMild Tidy Ending m
      → IsMild Tidy Ending k
      → IsMild Tidy Ending (if b then m else k)
  if-IsMild true m k hm hk = hm
  if-IsMild false m k hm hk = hk

  pub lift-IsMild :
      (r : Result C A) → (Tidy → IsPlain r) → IsMild {C = C} {W = W} {St = St} Tidy Ending (lift r)
  lift-IsMild (ok a) h = record { at = λ x. refl }
  lift-IsMild (err e) h = record { at = λ x. (refl, h) }

  pub ask_store-IsMild :
      (f : St → Result C A × St)
      → (Tidy → (st : St) → IsPlain (f st).0)
      → IsMild {C = C} {W = W} {St = St} Tidy Ending (ask_store f)
  ask_store-IsMild f h = record {
    at =
        λ x. (lift-IsMild (f x.store).0 (λ t. h t x.store)).at (record x { store = (f x.store).1 });
  }

  pub for_some-IsMild :
      (o : Option A) (body : A → Action C W St (Unit {0}))
      → ((a : A) → IsMild Tidy Ending (body a))
      → IsMild Tidy Ending (for_some o body)
  unfolding for_some
  for_some-IsMild none body h = pure-IsMild Tidy Ending tt
  for_some-IsMild (some a) body h = h a

-- The rules by which a chain of actions is seen to be mild.
pub ruleset mild = (
  >>=-IsMild, if-IsMild, for_some-IsMild, pure-IsMild, throw-IsMild, lift-IsMild, ask-IsMild,
  ask_store-IsMild, send-IsMild, emit-IsMild, notify-IsMild, push_record-IsMild, refl,
)
