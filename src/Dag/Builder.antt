-- ===== src/Dag/Builder.antt =====
-- `DAGBuilder` of src/dag.rs.
use Prim.Native.Nat.{Ordering}
use Prim.Native.String.{compare}
use takeln.Base.{
  ℕ, ◌+◌, not, List, [], ◌∷◌, ◌++◌, map, length, filter, Option, none, some, String, concat, join,
  mem_str, lookup, insert, nat_eq, if◌then◌else◌,
}
use takeln.Dag.Data.{pending, DagNode, Dag}
use takeln.Dag.Topology.{finished, panicked, out_of_fuel, visit_all}

pub record DagBuilder : Type 0 where
  pub entries : List (String × List String)
  pub allowed_step_types : Option (List String)

-- `DAG::builder`
unfoldable pub builder : DagBuilder
builder = record { entries = []; allowed_step_types = none }

-- A `BTreeSet` of texts, in order.
unfoldable pub set_insert : String → List String → List String
set_insert s [] = s ∷ []
set_insert s (t ∷ ts) =
    let rest = set_insert s ts in
    elim (compare s t) [ Ordering.lt ↦ s ∷ t ∷ ts | Ordering.eq ↦ t ∷ ts | Ordering.gt ↦ t ∷ rest ]

unfoldable pub collect_set : List String → List String
unfolding set_insert
collect_set [] = []
collect_set (s ∷ ss) = set_insert s (collect_set ss)

unfoldable pub allow_step_types : List String → DagBuilder → DagBuilder
unfolding collect_set
allow_step_types step_types b = record b { allowed_step_types = some (collect_set step_types) }

unfoldable pub add_entry : String → List String → DagBuilder → DagBuilder
add_entry step_type depends_on b = record b { entries = b.entries ++ (step_type, depends_on) ∷ [] }

-- What `build` ends with: a DAG, an error, or the panic of an overflow.
pub data BuildResult (A : Type 0) : Type 0 where
  ok : A → BuildResult A
  err : String → BuildResult A
  panic : BuildResult A

-- The step types outside the declared set, in the order of the entries.
unfoldable pub offenders : List String → List (String × List String) → List String
offenders allowed entries = filter (λ s. not (mem_str s allowed)) (map (λ e. e.0) entries)

-- The check of the declared step types: an error text, if there are offenders.
unfoldable pub check_step_types : Option (List String) → List (String × List String) → Option String
unfolding offenders
check_step_types none entries = none
check_step_types (some allowed) entries = elim (offenders allowed entries) [
  | [] ↦ none
  | o ∷ os ↦ some (
      concat (
        "step type(s) not allowed: "
        ∷ join ", " (o ∷ os)
        ∷ " (allowed: "
        ∷ elim allowed [ [] ↦ "none declared" | a ∷ as' ↦ join ", " (a ∷ as') ]
        ∷ ")"
        ∷ []))
]

-- The first pass: an identifier is drawn for each entry, and a later entry of the same step type takes
-- the name over.
unfoldable pub assign_ids :
    (ℕ → ℕ) → ℕ → List (String × List String) → List (String × ℕ) → List (String × ℕ)
assign_ids fresh k [] names = names
assign_ids fresh k ((step_type, _) ∷ es) names =
    assign_ids fresh (k + 1) es (insert step_type (fresh k) names)

unfoldable pub resolve : List (String × ℕ) → String → List String → BuildResult (List ℕ)
resolve names step_type [] = ok []
resolve names step_type (dep ∷ deps) = elim (lookup dep names) [
  | none ↦ err (concat ("Dependency '" ∷ dep ∷ "' not found for node '" ∷ step_type ∷ "'" ∷ []))
  | some id ↦ elim (resolve names step_type deps) [
    | ok ids ↦ ok (id ∷ ids)
    | err e ↦ err e
    | panic ↦ panic
  ]
]

-- The second pass: `name_to_id[step_type]` panics on a missing name.
unfoldable pub build_nodes :
    List (String × ℕ) → List (String × List String) → BuildResult (List DagNode)
unfolding resolve
build_nodes names [] = ok []
build_nodes names ((step_type, deps) ∷ es) = elim (resolve names step_type deps) [
  | err e ↦ err e
  | panic ↦ panic
  | ok ids ↦ elim (lookup step_type names) [
    | none ↦ panic
    | some id ↦ elim (build_nodes names es) [
      | err e ↦ err e
      | panic ↦ panic
      | ok nodes ↦
          ok (
            (record { id = id; step_type = step_type; depends_on = ids; status = pending }) ∷ nodes)
    ]
  ]
]

unfoldable pub check_cycles : Dag → BuildResult Dag
unfolding visit_all
check_cycles dag = elim (visit_all dag.nodes) [
  | panicked ↦ panic
  | out_of_fuel ↦ panic
  | finished visited _ ↦
      if nat_eq visited (length dag.nodes) then ok dag else err "Cycle detected in DAG"
]

-- `build`, with the supply of identifiers and the time: the DAG takes the first identifier.
unfoldable pub build : (ℕ → ℕ) → ℕ → DagBuilder → BuildResult Dag
unfolding check_step_types assign_ids build_nodes check_cycles
build fresh now b = elim (check_step_types b.allowed_step_types b.entries) [
  | some e ↦ err e
  | none ↦ elim (build_nodes (assign_ids fresh 1 b.entries []) b.entries) [
    | err e ↦ err e
    | panic ↦ panic
    | ok nodes ↦ check_cycles (record { id = fresh 0; nodes = nodes; created_at = now })
  ]
]
