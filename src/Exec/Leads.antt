-- ===== src/Exec/Leads.antt =====
-- Triples on the DAG that an action threads. Where `P` holds of the DAG before, an action that ends with a
-- value leaves a DAG for which `Q` holds; `Safe` is what holds of the DAG also where it fails or hangs.
use takeln.Base.{◌≡◌, subst, sym, false}
use takeln.Dag.Data.{Dag}
use takeln.Exec.Defs.{Exec, Outcome, done, fail, hang, Action, after, ◌>>=◌}
use takeln.Exec.Mild.{is_deadlock, EndsMildly, IsMild}

module _ {C W St : Type 0} (Tidy Ending : Type 0) (Safe : Dag → Type 0) where
  abbrev pub EndsAs : {A : Type 0} → (A → Dag → Type 0) → Outcome C A × Exec C W St → Type 0
  EndsAs Q (done a, x) = Q a x.dag
  EndsAs Q (fail e, x) = Safe x.dag × (Tidy → is_deadlock e ≡ false)
  EndsAs Q (hang, x) = Safe x.dag × (Ending → ⊥)

  abbrev pub Leads : {A : Type 0} → (Dag → Type 0) → Action C W St A → (A → Dag → Type 0) → Type 0
  Leads P m Q = (x : Exec C W St) → P x.dag → EndsAs Q (m x)

module _ {C W St : Type 0} (Tidy Ending : Type 0) (Safe : Dag → Type 0) where
  after-EndsAs :
      {A B : Type 0} (Q : A → Dag → Type 0) (T : B → Dag → Type 0) (r : Outcome C A × Exec C W St)
      (f : A → Action C W St B)
      → EndsAs Tidy Ending Safe Q r
      → ((a : A) → Leads Tidy Ending Safe (Q a) (f a) T)
      → EndsAs Tidy Ending Safe T (after r f)
  after-EndsAs Q T (done a, x) f h hf = hf a x h
  after-EndsAs Q T (fail e, x) f h hf = h
  after-EndsAs Q T (hang, x) f h hf = h

  pub bind :
      {A B : Type 0} (P : Dag → Type 0) (Q : A → Dag → Type 0) (T : B → Dag → Type 0)
      (m : Action C W St A) (f : A → Action C W St B)
      → Leads Tidy Ending Safe P m Q
      → ((a : A) → Leads Tidy Ending Safe (Q a) (f a) T)
      → Leads Tidy Ending Safe P (m >>= f) T
  bind P Q T m f hm hf x p = after-EndsAs Q T (m x) f (hm x p) hf

  mild-EndsAs :
      {A : Type 0} (P : Dag → Type 0) (x : Exec C W St) (r : Outcome C A × Exec C W St)
      → ((d : Dag) → P d → Safe d)
      → P x.dag
      → EndsMildly Tidy Ending x r
      → EndsAs Tidy Ending Safe (λ a. P) r
  mild-EndsAs P x (done a, y) safe p h = subst P (sym h) p
  mild-EndsAs P x (fail e, y) safe p h = (safe y.dag (subst P (sym h.0) p), h.1)
  mild-EndsAs P x (hang, y) safe p h = (safe y.dag (subst P (sym h.0) p), h.1)

  -- A mild action keeps what holds of the DAG.
  pub mild_leads :
      {A : Type 0} (P : Dag → Type 0) (m : Action C W St A)
      → ((d : Dag) → P d → Safe d)
      → IsMild Tidy Ending m
      → Leads Tidy Ending Safe P m (λ a. P)
  mild_leads P m safe mild x p = mild-EndsAs P x (m x) safe p (mild.at x)
