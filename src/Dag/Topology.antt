-- ===== src/Dag/Topology.antt =====
-- The cycle check of `DAGBuilder::build` (src/dag.rs): Kahn's algorithm over in-degrees.
use takeln.Base.{
  ℕ, zero, suc, ◌+◌, Bool, true, false, List, [], ◌∷◌, ◌++◌, map, length, Option, none, some,
  nat_eq, if◌then◌else◌,
}
use takeln.Dag.Data.{DagNode}

-- `Vec::contains` on identifiers.
abbrev pub mem_id : ℕ → List ℕ → Bool
mem_id a [] = false
mem_id a (x ∷ xs) = let rest = mem_id a xs in if nat_eq x a then true else rest

-- A node beside its entry of `in_degree`.
pub record Slot : Type 0 where
  pub node : DagNode
  pub in_degree : ℕ

unfoldable pub initial_slot : DagNode → Slot
initial_slot n = record { node = n; in_degree = length n.depends_on }

-- The queue at the start: the indices, from `i` on, of the nodes with no dependencies.
unfoldable pub initial_queue : ℕ → List Slot → List ℕ
initial_queue i [] = []
initial_queue i (s ∷ ss) =
    let rest = initial_queue (i + 1) ss in if nat_eq s.in_degree 0 then i ∷ rest else rest

-- One step of the inner `for`: an entry of `in_degree` is lowered where the node depends on `id`. `none`
-- is the overflow of `in_degree[i] -= 1`, at which a checked build panics.
unfoldable pub lower : ℕ → Slot → Option Slot
lower id s =
    if mem_id id s.node.depends_on
    then elim s.in_degree [ zero ↦ none | suc d ↦ some (record s { in_degree = d }) ]
    else some s

-- Whether the step has pushed the index: the entry was lowered, to zero.
unfoldable pub is_freed : ℕ → Slot → Bool
is_freed id s = if mem_id id s.node.depends_on then nat_eq s.in_degree 1 else false

-- The inner `for`, from index `i` on: the new entries, and what is pushed.
unfoldable pub relax : ℕ → ℕ → List Slot → Option (List Slot × List ℕ)
unfolding lower is_freed
relax id i [] = some ([], [])
relax id i (s ∷ ss) = elim (lower id s) [
  | none ↦ none
  | some s' ↦ elim (relax id (i + 1) ss) [
    | none ↦ none
    | some (ss', pushed) ↦ some (s' ∷ ss', if is_freed id s then i ∷ pushed else pushed)
  ]
]

-- `dag.nodes[idx].id`
unfoldable pub id_at : ℕ → List Slot → Option ℕ
id_at i [] = none
id_at zero (s ∷ ss) = some s.node.id
id_at (suc i) (s ∷ ss) = id_at i ss

-- How the `while let` ends: the count of the visited nodes and the last in-degrees. `out_of_fuel` is no
-- outcome of the program: it takes as many rounds as there are nodes, at most.
pub data Search : Type 0 where
  finished : (visited : ℕ) → List Slot → Search
  panicked : Search
  out_of_fuel : Search

unfoldable pub search_from : ℕ → List ℕ → ℕ → List Slot → Search
search_from fuel [] visited ss = finished visited ss
search_from zero (idx ∷ queue) visited ss = out_of_fuel
search_from (suc fuel) (idx ∷ queue) visited ss = elim (id_at idx ss) [
  | none ↦ panicked
  | some id ↦ elim (relax id 0 ss) [
    | none ↦ panicked
    | some (ss', pushed) ↦ search_from fuel (queue ++ pushed) (visited + 1) ss'
  ]
]

unfoldable pub visit_all : List DagNode → Search
unfolding search_from initial_queue initial_slot
visit_all nodes =
    let slots = map initial_slot nodes in search_from (length nodes) (initial_queue 0 slots) 0 slots
