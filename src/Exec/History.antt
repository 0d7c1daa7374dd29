-- ===== src/Exec/History.antt =====
-- The bounded history of src/history.rs, as src/graph.rs pushes to it.
use takeln.Base.{
  ℕ, suc, ◌+◌, ◌-◌, ◌≡◌, ◌<◌, ◌≤◌, ◌++◌, refl, sym, ap, ◌∙◌, arith, List, [], ◌∷◌, some, length,
  drop, length-append, length-drop, leb, Bool-cases, inl, inr,
}
use takeln.Exec.Defs.{Exec, done, hang, ExecutionRecord, evict, push_record}
use takeln.Exec.Quiet.{evict_zero}

-- The eviction drops as many of the oldest records as leaves room for one more.
evict-drop :
    {C : Type 0} (limit : ℕ) (rs : List (ExecutionRecord C))
    → 0 < limit
    → evict limit rs ≡ some (drop (length rs + 1 - limit) rs)
unfolding evict
evict-drop limit [] h =
    let none_over : 0 + 1 - limit ≡ 0 = omega (arith, h) in rw none_over (ground (arith, h))
evict-drop limit (r ∷ rs) h = elim (Bool-cases (leb limit (length rs + 1))) [
  | inl over ↦
      let more : suc (length rs) + 1 - limit ≡ suc (length rs + 1 - limit) = ground (arith, over) in
      rw over (evict-drop limit rs h ∙ ap (λ k. some (drop k (r ∷ rs))) (sym more))
  | inr fits ↦
      let none_over : suc (length rs) + 1 - limit ≡ 0 = ground (arith, fits) in
      rw fits (ap (λ k. some (drop k (r ∷ rs))) (sym none_over))
]

-- With a positive limit, pushing a record drops as many of the oldest ones as are over the limit with it,
-- keeps the others in their order, and puts the new one last; no more records than the limit remain.
pub push_record_newest :
    {C W St : Type 0} (limit : ℕ) (r : ExecutionRecord C) (x : Exec C W St)
    → 0 < limit
    → let kept = drop (length x.records + 1 - limit) x.records ++ r ∷ [] in
      (push_record limit r x ≡ (done tt, record x { records = kept })) × (length kept ≤ limit)
unfolding push_record
push_record_newest limit r x h = (
  rw (evict-drop limit x.records h, push_record) refl,
  let kept = drop (length x.records + 1 - limit) x.records in
      omega (
        arith,
        length-append kept (r ∷ []),
        length-drop (length x.records + 1 - limit) x.records,
        h,
      ),
)

-- With the limit 0, the eviction before a push never ends, whatever the history holds.
pub push_record_zero :
    {C W St : Type 0} (r : ExecutionRecord C) (x : Exec C W St) → push_record 0 r x ≡ (hang, x)
unfolding push_record
push_record_zero r x = rw (evict_zero x.records, push_record) refl
