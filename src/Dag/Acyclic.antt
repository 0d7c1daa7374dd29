-- ===== src/Dag/Acyclic.antt =====
-- What one round of the cycle check of src/dag.rs keeps of every node.
use takeln.Base.{
  ℕ, ◌+◌, ◌≤◌, ◌<◌, ◌≡◌, refl, ap, subst, sym, arith, List, [], ◌∷◌, ◌++◌, any, Bool, true, false,
  Bool-cases, Option-cases, inl, inr, some, nat_eq, nat_eq_iff, if◌then◌else◌,
}
use takeln.Dag.Topology.{Slot, mem_id, lower, is_freed, relax}

-- The places of an index in a queue.
abbrev pub count : ℕ → List ℕ → ℕ
count j [] = 0
count j (i ∷ is) = let rest = count j is in if nat_eq i j then rest + 1 else rest

-- The dependencies outside the visited ones.
abbrev pub unmet : List ℕ → List ℕ → ℕ
unmet visited [] = 0
unmet visited (d ∷ ds) = let rest = unmet visited ds in if mem_id d visited then rest else rest + 1

-- A predicate of every slot and its index.
abbrev pub Each : (ℕ → Slot → Type 0) → ℕ → List Slot → Type 0
Each R i [] = Unit
Each R i (s ∷ ss) = R i s × Each R (i + 1) ss

-- What the search keeps of a slot, for a set `X` of identifiers: it is in the queue at most once, and
-- then its in-degree is zero; a visited one has left the queue for good; and the in-degree counts every
-- dependency that is not visited.
pub record IsFine (X : ℕ → Bool) (queue visited : List ℕ) (j : ℕ) (s : Slot) : Type 0 where
  pub once : count j queue ≤ 1
  pub free : 0 < count j queue → s.in_degree ≡ 0
  pub left : mem_id s.node.id visited ≡ true → (s.in_degree ≡ 0) × (count j queue ≡ 0)
  pub counts : unmet visited s.node.depends_on ≤ s.in_degree
  pub closed : X s.node.id ≡ true → any X s.node.depends_on ≡ true

unmet_le : (id : ℕ) (visited ds : List ℕ) → unmet (id ∷ visited) ds ≤ unmet visited ds
unmet_le id visited [] = omega arith
unmet_le id visited (d ∷ ds) = ground (arith, unmet_le id visited ds)

unmet_lt :
    (id : ℕ) (visited ds : List ℕ)
    → mem_id id visited ≡ false
    → mem_id id ds ≡ true
    → unmet (id ∷ visited) ds < unmet visited ds
unmet_lt id visited [] new dep = absurd (ground arith)
unmet_lt id visited (d ∷ ds) new dep = elim (Bool-cases (nat_eq d id)) [
  | inl same ↦ ground (arith, unmet_le id visited ds, nat_eq_iff d id)
  | inr other ↦ ground (arith, unmet_lt id visited ds new (ground arith))
]

outside :
    (X : ℕ → Bool) (visited : List ℕ) (d : ℕ)
    → any X visited ≡ false
    → X d ≡ true
    → mem_id d visited ≡ false
outside X [] d out member = refl
outside X (v ∷ visited) d out member = elim (Bool-cases (nat_eq v d)) [
  | inl same ↦ absurd (ground (arith, ap X ((nat_eq_iff v d).0 same)))
  | inr other ↦ ground (arith, outside X visited d (ground arith) member)
]

pub unmet_pos :
    (X : ℕ → Bool) (visited ds : List ℕ)
    → any X visited ≡ false
    → any X ds ≡ true
    → 0 < unmet visited ds
unmet_pos X visited [] out dep = absurd (ground arith)
unmet_pos X visited (d ∷ ds) out dep = elim (Bool-cases (X d)) [
  | inl member ↦ ground (arith, outside X visited d out member)
  | inr other ↦ ground (arith, unmet_pos X visited ds out (ground arith))
]

count-append : (j : ℕ) (is js : List ℕ) → count j (is ++ js) ≡ count j is + count j js
count-append j [] js = omega arith
count-append j (i ∷ is) js = ground (arith, count-append j is js)

-- What a step pushes: the indices of the freed slots, none before the first.
relax-count_below :
    (id i : ℕ) (ss : List Slot) {ss' : List Slot} {pushed : List ℕ} (j : ℕ)
    → relax id i ss ≡ some (ss', pushed)
    → j < i
    → count j pushed ≡ 0
unfolding relax
relax-count_below id i [] j h below = ground arith
relax-count_below id i (s ∷ ss) {ss'} {pushed} j h below = elim (Option-cases (lower id s)) [
  | inl over ↦ absurd (ground arith)
  | inr (s', lowered) ↦ elim (Option-cases (relax id (i + 1) ss)) [
    | inl over ↦ absurd (ground arith)
    | inr ((rest, freed), e) ↦ ground (arith, relax-count_below id (i + 1) ss j e (omega arith))
  ]
]

-- One slot, as the node `id` at the head of the queue is visited.
step-IsFine :
    (X : ℕ → Bool) (idx id : ℕ) (queue pushed visited : List ℕ) (j : ℕ) (s s' : Slot)
    → lower id s ≡ some s'
    → mem_id id visited ≡ false
    → (s.node.id ≡ id → j ≡ idx)
    → count j pushed ≡ (if is_freed id s then 1 else 0)
    → IsFine X (idx ∷ queue) visited j s
    → IsFine X (queue ++ pushed) (id ∷ visited) j s'
unfolding lower is_freed
step-IsFine X idx id queue pushed visited j s s' lowered new place pushes fine =
    let kept : s'.node ≡ s.node = ground arith in
    let split = count-append j queue pushed in
    let fewer : count j queue ≤ count j (idx ∷ queue) = ground arith in
    record {
      once = ground (arith, split, fewer, fine.once, fine.free, pushes, lowered);
      free = λ queued. ground (arith, split, fewer, fine.free, pushes, lowered, queued);
      left = λ seen.
          let settled : (s.in_degree ≡ 0) × (count j queue ≡ 0) =
            elim (Bool-cases (nat_eq id s.node.id)) [
              | inl same ↦
                  let here : j ≡ idx = place (sym ((nat_eq_iff id s.node.id).0 same)) in
                  let head : count j (idx ∷ queue) ≡ count j queue + 1 = ground (arith, here) in
                  ground (arith, head, fine.once, fine.free)
              | inr other ↦
                  let before : mem_id s.node.id visited ≡ true =
                    ground (arith, kept, seen, other) in
                  ground (arith, fine.left before, fewer)
            ] in
          ground (arith, split, pushes, lowered, settled);
      counts = elim (Bool-cases (mem_id id s.node.depends_on)) [
        | inl dep ↦
            ground
              (arith, fine.counts, lowered, kept, unmet_lt id visited s.node.depends_on new dep)
        | inr free ↦
            ground (arith, fine.counts, lowered, kept, unmet_le id visited s.node.depends_on)
      ];
      closed = rw kept fine.closed;
    }

pub requeue :
    (X : ℕ → Bool) (q r visited : List ℕ) (j : ℕ) (s : Slot)
    → count j q ≡ count j r
    → IsFine X q visited j s
    → IsFine X r visited j s
requeue X q r visited j s e fine = record {
  once = subst (λ n. n ≤ 1) e fine.once;
  free = subst (λ n. 0 < n → s.in_degree ≡ 0) e fine.free;
  left = subst (λ n. mem_id s.node.id visited ≡ true → (s.in_degree ≡ 0) × (n ≡ 0)) e fine.left;
  counts = fine.counts;
  closed = fine.closed;
}

pub Each-map :
    {P Q : ℕ → Slot → Type 0} (i : ℕ) (ss : List Slot)
    → ((j : ℕ) (s : Slot) → i ≤ j → P j s → Q j s)
    → Each P i ss
    → Each Q i ss
Each-map i [] h e = tt
Each-map i (s ∷ ss) h (e, es) =
    (h i s (omega arith) e, Each-map (i + 1) ss (λ j t le. h j t (omega arith)) es)

-- All slots from index `i` on.
pub relax-IsFine :
    (X : ℕ → Bool) (idx id i : ℕ) (queue visited : List ℕ) (ss : List Slot) {ss' : List Slot}
    {pushed : List ℕ}
    → relax id i ss ≡ some (ss', pushed)
    → mem_id id visited ≡ false
    → Each (λ j s. s.node.id ≡ id → j ≡ idx) i ss
    → Each (IsFine X (idx ∷ queue) visited) i ss
    → Each (IsFine X (queue ++ pushed) (id ∷ visited)) i ss'
unfolding relax
relax-IsFine X idx id i queue visited [] {ss' = []} h new place fine = tt
relax-IsFine X idx id i queue visited [] {ss' = s ∷ ss} h new place fine = absurd (ground arith)
relax-IsFine X idx id i queue visited (s ∷ ss) {ss'} {pushed} h new place fine =
    elim (Option-cases (lower id s)) [
      | inl over ↦ absurd (ground arith)
      | inr (s', lowered) ↦ elim (Option-cases (relax id (i + 1) ss)) [
        | inl over ↦ absurd (ground arith)
        | inr ((rest, freed), e) ↦
            let split : s' ∷ rest ≡ ss' = ground arith in
            let grown : pushed ≡ (if is_freed id s then i ∷ freed else freed) = ground arith in
            let first : count i pushed ≡ (if is_freed id s then 1 else 0) =
              ground (arith, grown, relax-count_below id (i + 1) ss i e (omega arith)) in
            let later : (j : ℕ) → i + 1 ≤ j → count j (queue ++ freed) ≡ count j (queue ++ pushed) =
              λ j le.
                ground (arith, grown, count-append j queue freed, count-append j queue pushed) in
            subst (Each (IsFine X (queue ++ pushed) (id ∷ visited)) i) split (
              step-IsFine X idx id queue pushed visited i s s' lowered new place.0 first fine.0,
              Each-map (i + 1) rest
                  (λ j t le.
                    requeue X (queue ++ freed) (queue ++ pushed) (id ∷ visited) j t (later j le))
                  (relax-IsFine X idx id (i + 1) queue visited ss e new place.1 fine.1),
            )
      ]
    ]
