-- ===== src/Graph/Routes.antt =====
-- Edges of src/graph.rs: where a node leads after edges are registered.
use takeln.Base.{
  ◌≡◌, ◌==◌, String, some, lookup-insert, insert, refl, if◌then◌else◌, Bool-cases, inl, inr,
}
use takeln.Node.{unconditional, conditional}
use takeln.Graph.{edge_target, add_edge, add_conditional_edge}
use takeln.Graph.Builder.{GraphBuilder, edge, conditional_edge, build}

module _ {S V C W : Type 0} where
  -- In a graph that is built after an edge and a conditional edge were registered, the later registration
  -- for a source counts: a node leads to the condition's target if it is the source of the
  -- conditional edge, else to the target if it is the source of the edge, else to where it led before.
  pub edge_target-build :
      (b : GraphBuilder S V C W) (s target t name : String) (condition : S → String) (state : S)
      → edge_target (build (conditional_edge t condition (edge s target b))) name state ≡ (
          if t == name
          then some (condition state)
          else if s == name
          then some target
          else edge_target b.graph name state)
  unfolding edge_target build conditional_edge edge add_edge add_conditional_edge
  edge_target-build b s target t name condition state =
      let first = insert s (unconditional target) b.graph.edges in
      let outer = lookup-insert t name (conditional condition) first in
      let inner = lookup-insert s name (unconditional target) b.graph.edges in
      elim (Bool-cases (t == name)) [
        | inl here ↦
            rw
              (
                edge_target, build, conditional_edge, edge, add_conditional_edge, add_edge, outer,
                here,
              )
              refl
        | inr other ↦ elim (Bool-cases (s == name)) [
          | inl there ↦
              rw
                (
                  edge_target, build, conditional_edge, edge, add_conditional_edge, add_edge, outer,
                  other, inner, there,
                )
                refl
          | inr away ↦
              rw
                (
                  edge_target, build, conditional_edge, edge, add_conditional_edge, add_edge, outer,
                  other, inner, away,
                )
                refl
        ]
      ]
