-- ===== src/Dag/Count.antt =====
-- The cycle check of src/dag.rs counts: its rounds are bounded, and it visits what it frees.
use takeln.Base.{
  ℕ, zero, suc, ◌+◌, ◌≤◌, ◌≡◌, refl, ap, subst, arith, List, [], ◌∷◌, ◌++◌, map, length,
  length-append, Option-cases, inl, inr, some, nat_eq, if◌then◌else◌,
}
use takeln.Dag.Data.{DagNode}
use takeln.Dag.Topology.{
  Slot, initial_slot, initial_queue, lower, is_freed, relax, id_at, Search, finished, panicked,
  out_of_fuel, search_from, visit_all,
}

-- How many of the in-degrees are zero.
unfoldable pub zeros : List Slot → ℕ
zeros [] = 0
zeros (s ∷ ss) = let rest = zeros ss in if nat_eq s.in_degree 0 then rest + 1 else rest

pub zeros-le : (ss : List Slot) → zeros ss ≤ length ss
unfolding zeros
zeros-le [] = omega arith
zeros-le (s ∷ ss) = ground (arith, zeros-le ss)

pub initial_queue-zeros : (i : ℕ) (ss : List Slot) → length (initial_queue i ss) ≡ zeros ss
unfolding initial_queue zeros
initial_queue-zeros i [] = refl
initial_queue-zeros i (s ∷ ss) = ground (arith, initial_queue-zeros (i + 1) ss)

-- What a step frees is what gets to zero.
lower-zeros :
    (id : ℕ) (s s' : Slot) (rest : List Slot)
    → lower id s ≡ some s'
    → zeros (s' ∷ rest)
      ≡ zeros rest + (if is_freed id s then 1 else 0) + (if nat_eq s.in_degree 0 then 1 else 0)
unfolding lower is_freed zeros
lower-zeros id s s' rest h = ground arith

relax-zeros :
    (id i : ℕ) (ss : List Slot) {ss' : List Slot} {pushed : List ℕ}
    → relax id i ss ≡ some (ss', pushed)
    → (zeros ss' ≡ zeros ss + length pushed) × (length ss' ≡ length ss)
unfolding relax zeros
relax-zeros id i [] h = ground arith
relax-zeros id i (s ∷ ss) {ss'} {pushed} h = elim (Option-cases (lower id s)) [
  | inl over ↦ absurd (ground arith)
  | inr (s', lowered) ↦ elim (Option-cases (relax id (i + 1) ss)) [
    | inl over ↦ absurd (ground arith)
    | inr ((rest, freed), e) ↦
        let split : ss' ≡ s' ∷ rest = ground arith in
        let grown : length pushed ≡ length freed + (if is_freed id s then 1 else 0) =
          ground arith in
        let (z, l) = relax-zeros id (i + 1) ss e in
        rw split (ground (arith, lower-zeros id s s' rest lowered, grown, z), omega (arith, l))
  ]
]

-- What the check ends with: it visits as many nodes as in-degrees get to zero.
abbrev pub Counted : ℕ → Search → Type 0
Counted n (finished visited ss) = (visited ≡ zeros ss) × (length ss ≡ n)
Counted n panicked = Unit
Counted n out_of_fuel = ⊥

pub search_from-Counted :
    (fuel : ℕ) (queue : List ℕ) (visited : ℕ) (ss : List Slot)
    → fuel + visited ≡ length ss
    → visited + length queue ≡ zeros ss
    → Counted (length ss) (search_from fuel queue visited ss)
unfolding search_from
search_from-Counted zero [] visited ss enough counts = (omega (arith, counts), refl)
search_from-Counted (suc fuel) [] visited ss enough counts = (omega (arith, counts), refl)
search_from-Counted zero (idx ∷ queue) visited ss enough counts =
    omega (arith, zeros-le ss, enough, counts)
search_from-Counted (suc fuel) (idx ∷ queue) visited ss enough counts =
    elim (Option-cases (id_at idx ss)) [
      | inl outside ↦ rw (outside, Counted) tt
      | inr (id, found) ↦ elim (Option-cases (relax id 0 ss)) [
        | inl over ↦ rw (found, over, Counted) tt
        | inr ((ss', pushed), e) ↦
            let (z, l) = relax-zeros id 0 ss e in
            rw (found, e, Counted)
              (subst (λ n. Counted n (search_from fuel (queue ++ pushed) (visited + 1) ss')) l
                (search_from-Counted fuel (queue ++ pushed) (visited + 1) ss'
                  (omega (arith, enough, l))
                  (omega (arith, counts, z, length-append queue pushed))))
      ]
    ]

pub slots-length : (nodes : List DagNode) → length (map initial_slot nodes) ≡ length nodes
slots-length [] = refl
slots-length (n ∷ nodes) = ap suc (slots-length nodes)

-- The cycle check ends within as many rounds as there are nodes, with an overflow or with a count of
-- visited nodes; the count is the number of nodes whose in-degree has got to zero.
pub visit_all-Counted : (nodes : List DagNode) → Counted (length nodes) (visit_all nodes)
unfolding visit_all
visit_all-Counted nodes =
    let slots = map initial_slot nodes in
    subst (λ n. Counted n (search_from n (initial_queue 0 slots) 0 slots)) (slots-length nodes)
      (search_from-Counted (length slots) (initial_queue 0 slots) 0 slots (omega arith)
        (omega (arith, initial_queue-zeros 0 slots)))
