-- ===== src/Wave/Choice.antt =====
-- What the scheduler's choice gives in a wave of `Graph::run_dag` (src/graph.rs): a task of the pool, while
-- there is one.
use takeln.Base.{
  some_inj, ℕ, zero, suc, ◌≡◌, ◌≢◌, refl, ap, subst, Bool, true, false, List, [], ◌∷◌, ◌++◌, Option,
  some, none, arith, Bool-cases, inl, inr,
}
use takeln.Wave.Task.{
  Stage, queued, calling, returned, finished, crashed, Task, holds_permit, permits_held, has_permit,
  can_move,
}
use takeln.Wave.Scheduler.{Chosen, behind, choose_from, or_first, choose}

module _ {S V C : Type 0} where
  -- Only a task that waits for a permit cannot move.
  waiting :
      (permit : Bool) (stage : Stage S V C)
      → can_move permit stage ≡ false
      → (holds_permit stage ≡ false) × (permit ≡ false)
  unfolding can_move holds_permit
  waiting permit queued e = (refl, e)
  waiting permit (calling at k) e = absurd (ground (arith, e))
  waiting permit (returned at r) e = absurd (ground (arith, e))
  waiting permit (finished r) e = absurd (ground (arith, e))
  waiting permit (crashed msg) e = absurd (ground (arith, e))

module _ {S V C W : Type 0} where
  -- The chosen task can move, and stands in the pool.
  pub record IsChoice (permit : Bool) (ts : List (Task S V C W)) (c : Chosen S V C W) : Type 0 where
    pub split : ts ≡ c.front ++ c.task ∷ c.back
    pub moves : can_move permit c.task.stage ≡ true

  behind-IsChoice :
      (permit : Bool) (t : Task S V C W) (ts : List (Task S V C W)) (o : Option (Chosen S V C W))
      (c : Chosen S V C W)
      → ((d : Chosen S V C W) → o ≡ some d → IsChoice permit ts d)
      → behind t o ≡ some c
      → IsChoice permit (t ∷ ts) c
  unfolding behind
  behind-IsChoice permit t ts none c h e = absurd (ground (arith, e))
  behind-IsChoice permit t ts (some d) c h e =
      subst (λ b. IsChoice permit (t ∷ ts) b) (some_inj e)
        (record { split = ap (λ us. t ∷ us) (h d refl).split; moves = (h d refl).moves })

  choose_from-IsChoice :
      (k : ℕ) (permit : Bool) (ts : List (Task S V C W)) (c : Chosen S V C W)
      → choose_from k permit ts ≡ some c
      → IsChoice permit ts c
  unfolding choose_from
  choose_from-IsChoice k permit [] c e = absurd (ground (arith, e))
  choose_from-IsChoice (suc k) permit (t ∷ ts) c e =
      behind-IsChoice permit t ts (choose_from k permit ts) c (choose_from-IsChoice k permit ts) e
  choose_from-IsChoice zero permit (t ∷ ts) c e = elim (Bool-cases (can_move permit t.stage)) [
    | inl moves ↦
        let here : some (record { front = []; task = t; back = ts }) ≡ some c = rw moves at e in
        subst (λ b. IsChoice permit (t ∷ ts) b) (some_inj here)
          (record { split = refl; moves = moves })
    | inr stays ↦
        behind-IsChoice permit t ts (choose_from zero permit ts) c
          (choose_from-IsChoice zero permit ts) (rw stays at e)
  ]

  or_first-IsChoice :
      (permit : Bool) (ts : List (Task S V C W)) (o : Option (Chosen S V C W)) (c : Chosen S V C W)
      → ((d : Chosen S V C W) → o ≡ some d → IsChoice permit ts d)
      → or_first ts permit o ≡ some c
      → IsChoice permit ts c
  unfolding or_first
  or_first-IsChoice permit ts none c h e = choose_from-IsChoice 0 permit ts c e
  or_first-IsChoice permit ts (some d) c h e = h c e

  pub choose-IsChoice :
      (k : ℕ) (permit : Bool) (ts : List (Task S V C W)) (c : Chosen S V C W)
      → choose k permit ts ≡ some c
      → IsChoice permit ts c
  unfolding choose
  choose-IsChoice k permit ts c e =
      or_first-IsChoice permit ts (choose_from k permit ts) c (choose_from-IsChoice k permit ts) e

  behind-none : (t : Task S V C W) (o : Option (Chosen S V C W)) → behind t o ≡ none → o ≡ none
  unfolding behind
  behind-none t none e = refl
  behind-none t (some c) e = absurd (ground (arith, e))

  head_stuck :
      (permit : Bool) (t : Task S V C W) (ts : List (Task S V C W))
      → choose_from 0 permit (t ∷ ts) ≡ none
      → (can_move permit t.stage ≡ false) × (choose_from 0 permit ts ≡ none)
  unfolding choose_from
  head_stuck permit t ts e = elim (Bool-cases (can_move permit t.stage)) [
    | inl moves ↦ absurd (ground (arith, rw moves at e))
    | inr stays ↦ (stays, behind-none t (choose_from 0 permit ts) (rw stays at e))
  ]

  stuck_idle :
      (permit : Bool) (ts : List (Task S V C W))
      → choose_from 0 permit ts ≡ none
      → permits_held ts ≡ 0
  unfolding permits_held
  stuck_idle permit [] e = refl
  stuck_idle permit (t ∷ ts) e =
      let (stays, rest) = head_stuck permit t ts e in
      ground (arith, (waiting permit t.stage stays).0, stuck_idle permit ts rest)

  or_first-none :
      (permit : Bool) (ts : List (Task S V C W)) (o : Option (Chosen S V C W))
      → or_first ts permit o ≡ none
      → choose_from 0 permit ts ≡ none
  unfolding or_first
  or_first-none permit ts none e = e
  or_first-none permit ts (some d) e = absurd (ground (arith, e))

  -- With at least one permit, the semaphore never blocks a whole wave.
  pub choose_some :
      (k limit : ℕ) (t : Task S V C W) (ts : List (Task S V C W))
      → choose k (has_permit limit (t ∷ ts)) (t ∷ ts) ≢ none
  unfolding choose has_permit
  choose_some k limit t ts e =
      let permit = has_permit limit (t ∷ ts) in
      let none_moves = or_first-none permit (t ∷ ts) (choose_from k permit (t ∷ ts)) e in
      let full = (waiting permit t.stage (head_stuck permit t ts none_moves).0).1 in
      ground (arith, stuck_idle permit (t ∷ ts) none_moves, full)
