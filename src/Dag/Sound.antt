-- ===== src/Dag/Sound.antt =====
-- The cycle check of src/dag.rs is sound: where it accepts, no set of nodes waits for itself.
use takeln.Base.{
  ℕ, zero, suc, ◌+◌, ◌≤◌, ◌<◌, ◌≡◌, refl, ap, ◌∙◌, subst, sym, arith, List, [], ◌∷◌, ◌++◌, map,
  length, any, Bool, true, false, Bool-cases, Option-cases, inl, inr, ◌⊎◌, some, nat_eq_iff, All,
}
use takeln.Dag.Data.{DagNode, Dag}
use takeln.Dag.Topology.{
  Slot, mem_id, initial_slot, initial_queue, lower, relax, id_at, Search, finished, panicked,
  out_of_fuel, search_from, visit_all,
}
use takeln.Dag.Builder.{BuildResult, check_cycles}
use takeln.Dag.Count.{zeros, zeros-le, Counted, visit_all-Counted}
use takeln.Dag.Acyclic.{count, unmet, Each, IsFine, unmet_pos, requeue, Each-map, relax-IsFine}

-- No identifier stands at two indices.
abbrev pub AreDistinct : List Slot → Type 0
AreDistinct ss = (j k id : ℕ) → id_at j ss ≡ some id → id_at k ss ≡ some id → j ≡ k

relax-id_at :
    (id i k : ℕ) (ss : List Slot) {ss' : List Slot} {pushed : List ℕ}
    → relax id i ss ≡ some (ss', pushed)
    → id_at k ss' ≡ id_at k ss
unfolding relax lower id_at
relax-id_at id i k [] h = ground arith
relax-id_at id i zero (s ∷ ss) h = elim (Option-cases (relax id (i + 1) ss)) [
  | inl over ↦ ground arith
  | inr ((rest, freed), e) ↦ ground arith
]
relax-id_at id i (suc k) (s ∷ ss) h = elim (Option-cases (relax id (i + 1) ss)) [
  | inl over ↦ absurd (ground arith)
  | inr ((rest, freed), e) ↦ ground (arith, relax-id_at id (i + 1) k ss e)
]

nodes_of : List Slot → List DagNode
nodes_of [] = []
nodes_of (s ∷ ss) = s.node ∷ nodes_of ss

relax-nodes_of :
    (id i : ℕ) (ss : List Slot) {ss' : List Slot} {pushed : List ℕ}
    → relax id i ss ≡ some (ss', pushed)
    → nodes_of ss' ≡ nodes_of ss
unfolding relax lower nodes_of
relax-nodes_of id i [] h = ground arith
relax-nodes_of id i (s ∷ ss) h = elim (Option-cases (relax id (i + 1) ss)) [
  | inl over ↦ absurd (ground arith)
  | inr ((rest, freed), e) ↦ ground (arith, relax-nodes_of id (i + 1) ss e)
]

Each-id_at :
    (P : ℕ → Slot → Type 0) (i k id : ℕ) (ss : List Slot)
    → Each P i ss
    → id_at k ss ≡ some id
    → (s : Slot) × (s.node.id ≡ id) × P (i + k) s
unfolding id_at
Each-id_at P i k id [] e h = absurd (ground arith)
Each-id_at P i zero id (s ∷ ss) e h = (s, ground arith, subst (λ j. P j s) (omega arith) e.0)
Each-id_at P i (suc k) id (s ∷ ss) e h =
    let (t, same, p) = Each-id_at P (i + 1) k id ss e.1 h in
    (t, same, subst (λ j. P j t) (omega arith) p)

places :
    (idx id i : ℕ) (ss : List Slot)
    → ((k : ℕ) → id_at k ss ≡ some id → i + k ≡ idx)
    → Each (λ j s. s.node.id ≡ id → j ≡ idx) i ss
unfolding id_at
places idx id i [] h = tt
places idx id i (s ∷ ss) h = (
  λ same. omega (arith, h 0 (ap some same)),
  places idx id (i + 1) ss (λ k at. omega (arith, h (suc k) at)),
)

-- At the end of a search the queue is empty, no visited node is of a closed set, and what is kept of every
-- slot holds.
record Settled (X : ℕ → Bool) (before last : List Slot) : Type 0 where
  visited : List ℕ
  out : any X visited ≡ false
  fine : Each (IsFine X [] visited) 0 last
  nodes : nodes_of last ≡ nodes_of before

-- The head of the queue is not visited yet, and not of a closed set that has no visited node.
visited_once :
    (X : ℕ → Bool) (queue visited : List ℕ) (idx id : ℕ) (s : Slot)
    → s.node.id ≡ id
    → IsFine X (idx ∷ queue) visited (0 + idx) s
    → 0 < count (0 + idx) (idx ∷ queue)
    → mem_id id visited ≡ false
visited_once X queue visited idx id s same head queued = elim (Bool-cases (mem_id id visited)) [
  | inl seen ↦
      let gone = head.left (ap (λ k. mem_id k visited) same ∙ seen) in
      absurd (omega (arith, gone.1, queued))
  | inr new ↦ new
]

head_outside :
    (X : ℕ → Bool) (queue visited : List ℕ) (idx id : ℕ) (s : Slot)
    → s.node.id ≡ id
    → any X visited ≡ false
    → IsFine X (idx ∷ queue) visited (0 + idx) s
    → 0 < count (0 + idx) (idx ∷ queue)
    → X id ≡ false
head_outside X queue visited idx id s same out head queued = elim (Bool-cases (X id)) [
  | inl member ↦
      let waits = unmet_pos X visited s.node.depends_on out (head.closed (ap X same ∙ member)) in
      absurd (omega (arith, waits, head.counts, head.free queued))
  | inr free ↦ free
]

search_from-Settled :
    (X : ℕ → Bool) (fuel : ℕ) (queue : List ℕ) (n : ℕ) (visited : List ℕ) (ss : List Slot) {m : ℕ}
    {last : List Slot}
    → search_from fuel queue n ss ≡ finished m last
    → AreDistinct ss
    → any X visited ≡ false
    → Each (IsFine X queue visited) 0 ss
    → Settled X ss last
unfolding search_from
search_from-Settled X zero [] n visited ss {m} {last} h distinct out fine =
    let ended : ss ≡ last = ground arith in
    subst (Settled X ss) ended (record { visited = visited; out = out; fine = fine; nodes = refl })
search_from-Settled X (suc fuel) [] n visited ss {m} {last} h distinct out fine =
    let ended : ss ≡ last = ground arith in
    subst (Settled X ss) ended (record { visited = visited; out = out; fine = fine; nodes = refl })
search_from-Settled X zero (idx ∷ queue) n visited ss h distinct out fine = absurd (ground arith)
search_from-Settled X (suc fuel) (idx ∷ queue) n visited ss {m} {last} h distinct out fine =
    elim (Option-cases (id_at idx ss)) [
      | inl none_at ↦ absurd (ground arith)
      | inr (id, found) ↦ elim (Option-cases (relax id 0 ss)) [
        | inl over ↦ absurd (ground arith)
        | inr ((ss', pushed), e) ↦
            let (s, same, head) =
              Each-id_at (IsFine X (idx ∷ queue) visited) 0 idx id ss fine found in
            let queued : 0 < count (0 + idx) (idx ∷ queue) = ground arith in
            let new : mem_id id visited ≡ false =
              visited_once X queue visited idx id s same head queued in
            let open_yet : X id ≡ false =
              head_outside X queue visited idx id s same out head queued in
            let rest : search_from fuel (queue ++ pushed) (n + 1) ss' ≡ finished m last =
              ground arith in
            let later =
              search_from-Settled X fuel (queue ++ pushed) (n + 1) (id ∷ visited) ss' rest
                (λ j k i at_j at_k.
                  distinct j k i (sym (relax-id_at id 0 j ss e) ∙ at_j)
                    (sym (relax-id_at id 0 k ss e) ∙ at_k))
                (ground (arith, open_yet))
                (relax-IsFine X idx id 0 queue visited ss e new
                  (places idx id 0 ss (λ k at. omega (arith, distinct k idx id at found))) fine) in
            record {
              visited = later.visited;
              out = later.out;
              fine = later.fine;
              nodes = later.nodes ∙ relax-nodes_of id 0 ss e;
            }
      ]
    ]

initial-count_below : (i j : ℕ) (ss : List Slot) → j < i → count j (initial_queue i ss) ≡ 0
unfolding initial_queue
initial-count_below i j [] h = refl
initial-count_below i j (s ∷ ss) h = ground (arith, initial-count_below (i + 1) j ss (omega arith))

-- A set of identifiers is closed where each node of it has a dependency in it.
abbrev pub IsClosed : (ℕ → Bool) → List DagNode → Type 0
IsClosed X nodes = All (λ n. X n.id ≡ true → any X n.depends_on ≡ true) nodes

unmet_none : (ds : List ℕ) → unmet [] ds ≤ length ds
unmet_none [] = omega arith
unmet_none (d ∷ ds) = ground (arith, unmet_none ds)

initial-IsFine :
    (X : ℕ → Bool) (i : ℕ) (nodes : List DagNode)
    → IsClosed X nodes
    → let slots = map initial_slot nodes in Each (IsFine X (initial_queue i slots) []) i slots
unfolding initial_queue initial_slot
initial-IsFine X i [] closed = tt
initial-IsFine X i (n ∷ nodes) closed =
    let slots = map initial_slot nodes in
    let none_later = initial-count_below (i + 1) i slots (omega arith) in
    (
      record {
        once = ground (arith, none_later);
        free = λ queued. ground (arith, none_later, queued);
        left = λ seen. cc;
        counts = unmet_none n.depends_on;
        closed = closed.0;
      },
      Each-map (i + 1) slots
          (λ j s le.
            requeue X (initial_queue (i + 1) slots) (initial_queue i (initial_slot n ∷ slots)) [] j
              s (ground arith))
          (initial-IsFine X (i + 1) nodes closed.1),
    )

visit_all-Settled :
    (X : ℕ → Bool) (nodes : List DagNode) {n : ℕ} {last : List Slot}
    → visit_all nodes ≡ finished n last
    → AreDistinct (map initial_slot nodes)
    → IsClosed X nodes
    → Settled X (map initial_slot nodes) last
unfolding visit_all
visit_all-Settled X nodes e distinct closed =
    search_from-Settled X (length nodes) (initial_queue 0 (map initial_slot nodes)) 0 []
      (map initial_slot nodes) e distinct refl (initial-IsFine X 0 nodes closed)

-- With every in-degree at zero, no node of a closed set is left.
settled_outside :
    (X : ℕ → Bool) (visited : List ℕ) (i : ℕ) (ss : List Slot)
    → any X visited ≡ false
    → zeros ss ≡ length ss
    → Each (IsFine X [] visited) i ss
    → any (λ n. X n.id) (nodes_of ss) ≡ false
unfolding zeros nodes_of
settled_outside X visited i [] out all_zero fine = refl
settled_outside X visited i (s ∷ ss) out all_zero fine =
    let here : s.in_degree ≡ 0 = ground (arith, zeros-le ss) in
    let later : zeros ss ≡ length ss = ground (arith, zeros-le ss) in
    let open_yet : X s.node.id ≡ false = elim (Bool-cases (X s.node.id)) [
      | inl member ↦ absurd (
          omega (
            arith,
            unmet_pos X visited s.node.depends_on out ((fine.0).closed member),
            (fine.0).counts,
            here,
          ))
      | inr free ↦ free
    ] in
    ground (arith, open_yet, settled_outside X visited (i + 1) ss out later fine.1)

nodes_of-initial : (nodes : List DagNode) → nodes_of (map initial_slot nodes) ≡ nodes
unfolding nodes_of initial_slot
nodes_of-initial [] = refl
nodes_of-initial (n ∷ nodes) = ap (λ l. n ∷ l) (nodes_of-initial nodes)

abbrev is_finished : Search → Bool
is_finished (finished n ss) = true
is_finished _ = false

finished_cases :
    (r : Search) → ((n : ℕ) × (ss : List Slot) × (r ≡ finished n ss)) ⊎ (is_finished r ≡ false)
finished_cases (finished n ss) = inl (n, ss, refl)
finished_cases panicked = inr refl
finished_cases out_of_fuel = inr refl

-- The cycle check is sound: where no two nodes have one identifier and the check accepts, a set of
-- identifiers in which each of the nodes that it holds has a dependency inside the set, as a cycle is,
-- holds none of the nodes.
pub check_cycles_sound :
    (X : ℕ → Bool) (dag built : Dag)
    → AreDistinct (map initial_slot dag.nodes)
    → IsClosed X dag.nodes
    → check_cycles dag ≡ BuildResult.ok built
    → any (λ n. X n.id) dag.nodes ≡ false
unfolding check_cycles
check_cycles_sound X dag built distinct closed accepted =
    elim (finished_cases (visit_all dag.nodes)) [
      | inr other ↦ absurd (ground arith)
      | inl (n, last, e) ↦
          let all_visited : n ≡ length dag.nodes =
            ground (arith, nat_eq_iff n (length dag.nodes)) in
          let counted : Counted (length dag.nodes) (finished n last) =
            subst (Counted (length dag.nodes)) e (visit_all-Counted dag.nodes) in
          let settled = visit_all-Settled X dag.nodes e distinct closed in
          subst (λ l. any (λ k. X k.id) l ≡ false) (settled.nodes ∙ nodes_of-initial dag.nodes)
            (settled_outside X settled.visited 0 last settled.out
              (sym counted.0 ∙ all_visited ∙ sym counted.1) settled.fine)
    ]
