-- ===== src/Dag/Entries.antt =====
-- What a successful `DAGBuilder::build` of src/dag.rs returns: a node for each entry, with its dependencies
-- resolved, inside the declared vocabulary.
use takeln.Base.{
  ℕ, ◌≡◌, ◌⊎◌, subst, refl, sym, ap, Bool, true, false, Bool-cases, Option-cases, inl, inr, List,
  [], ◌∷◌, map, Option, none, some, String, mem_str, lookup, All, arith,
}
use takeln.Dag.Data.{pending, DagNode, Dag}
use takeln.Dag.Builder.{
  DagBuilder, BuildResult, ok, err, panic, offenders, check_step_types, assign_ids, resolve,
  build_nodes, check_cycles, build,
}

-- The node is the entry's: its step type, its identifier the one of its step type, its dependencies too.
pub record IsEntry (ids : String → Option ℕ) (e : String × List String) (n : DagNode) : Type 0 where
  pub named : n.step_type ≡ e.0
  pub identified : ids e.0 ≡ some n.id
  pub resolved : map some n.depends_on ≡ map ids e.1
  pub waiting : n.status ≡ pending

-- The nodes are those of the entries, one for each and in their order.
abbrev pub AreEntries : (String → Option ℕ) → List (String × List String) → List DagNode → Type 0
AreEntries ids [] [] = Unit
AreEntries ids (e ∷ es) (n ∷ ns) = IsEntry ids e n × AreEntries ids es ns
AreEntries ids _ _ = ⊥

-- The entries stay inside the declared vocabulary, where one is declared.
abbrev pub InVocabulary : Option (List String) → List (String × List String) → Type 0
InVocabulary none es = Unit
InVocabulary (some allowed) es = All (λ e. mem_str e.0 allowed ≡ true) es

abbrev is_built : {A : Type 0} → BuildResult A → Bool
is_built (ok a) = true
is_built _ = false

ok_cases : {A : Type 0} (r : BuildResult A) → ((a : A) × (r ≡ ok a)) ⊎ (is_built r ≡ false)
ok_cases (ok a) = inl (a, refl)
ok_cases (err e) = inr refl
ok_cases panic = inr refl

resolve_lem :
    (names : List (String × ℕ)) (step_type : String) (deps : List String) {ids : List ℕ}
    → resolve names step_type deps ≡ ok ids
    → map some ids ≡ map (λ d. lookup d names) deps
unfolding resolve
resolve_lem names step_type [] {ids} h = ground arith
resolve_lem names step_type (dep ∷ deps) {ids} h = elim (Option-cases (lookup dep names)) [
  | inl missing ↦ ground arith
  | inr (id, found) ↦ elim (ok_cases (resolve names step_type deps)) [
    | inl (rest, e) ↦
        let split : ids ≡ id ∷ rest = ground arith in
        rw split (rw found (ap (λ l. some id ∷ l) (resolve_lem names step_type deps e)))
    | inr failed ↦ absurd (ground arith)
  ]
]

build_nodes_lem :
    (names : List (String × ℕ)) (es : List (String × List String)) {ns : List DagNode}
    → build_nodes names es ≡ ok ns
    → AreEntries (λ s. lookup s names) es ns
unfolding build_nodes
build_nodes_lem names [] {ns = []} h = tt
build_nodes_lem names [] {ns = n ∷ ns} h = absurd (ground arith)
build_nodes_lem names (e ∷ es) {ns} h = elim (ok_cases (resolve names e.0 e.1)) [
  | inr failed ↦ absurd (ground arith)
  | inl (ids, r) ↦ elim (Option-cases (lookup e.0 names)) [
    | inl missing ↦ absurd (ground arith)
    | inr (id, found) ↦ elim (ok_cases (build_nodes names es)) [
      | inr failed ↦ absurd (ground arith)
      | inl (rest, b) ↦
          let n : DagNode = record {
            id = id;
            step_type = e.0;
            depends_on = ids;
            status = pending;
          } in
          let split : n ∷ rest ≡ ns = ground arith in
          subst (AreEntries (λ s. lookup s names) (e ∷ es)) split (
            record {
              named = refl;
              identified = found;
              resolved = resolve_lem names e.0 e.1 r;
              waiting = refl;
            },
            build_nodes_lem names es b,
          )
    ]
  ]
]

offenders_lem :
    (allowed : List String) (es : List (String × List String))
    → offenders allowed es ≡ []
    → All (λ e. mem_str e.0 allowed ≡ true) es
unfolding offenders
offenders_lem allowed [] h = tt
offenders_lem allowed (e ∷ es) h = elim (Bool-cases (mem_str e.0 allowed)) [
  | inl member ↦ (member, offenders_lem allowed es (ground arith))
  | inr outside ↦ absurd (ground arith)
]

check_step_types_lem :
    (declared : Option (List String)) (es : List (String × List String))
    → check_step_types declared es ≡ none
    → InVocabulary declared es
unfolding check_step_types
check_step_types_lem none es h = tt
check_step_types_lem (some allowed) es h = offenders_lem allowed es (ground arith)

check_cycles_lem : (dag : Dag) {built : Dag} → check_cycles dag ≡ ok built → built ≡ dag
unfolding check_cycles
check_cycles_lem dag h = ground arith

-- The nodes of a DAG that is built, by the names of the first pass.
pub build-AreEntries :
    (fresh : ℕ → ℕ) (now : ℕ) (b : DagBuilder) (dag : Dag)
    → build fresh now b ≡ ok dag
    → AreEntries (λ s. lookup s (assign_ids fresh 1 b.entries [])) b.entries dag.nodes
      × InVocabulary b.allowed_step_types b.entries
unfolding build
build-AreEntries fresh now b dag h =
    elim (Option-cases (check_step_types b.allowed_step_types b.entries)) [
      | inr (e, rejected) ↦ absurd (ground arith)
      | inl accepted ↦ elim (ok_cases (build_nodes (assign_ids fresh 1 b.entries []) b.entries)) [
        | inr failed ↦ absurd (ground arith)
        | inl (nodes, built) ↦
            let whole : Dag = record { id = fresh 0; nodes = nodes; created_at = now } in
            let same : dag ≡ whole = check_cycles_lem whole (ground arith) in
            (
              rw same (build_nodes_lem (assign_ids fresh 1 b.entries []) b.entries built),
              check_step_types_lem b.allowed_step_types b.entries accepted,
            )
      ]
    ]

-- A DAG that is built has passed the cycle check.
pub build-check_cycles :
    (fresh : ℕ → ℕ) (now : ℕ) (b : DagBuilder) (dag : Dag)
    → build fresh now b ≡ ok dag
    → check_cycles dag ≡ ok dag
unfolding build
build-check_cycles fresh now b dag h =
    elim (Option-cases (check_step_types b.allowed_step_types b.entries)) [
      | inr (e, rejected) ↦ absurd (ground arith)
      | inl accepted ↦ elim (ok_cases (build_nodes (assign_ids fresh 1 b.entries []) b.entries)) [
        | inr failed ↦ absurd (ground arith)
        | inl (nodes, built) ↦
            let whole : Dag = record { id = fresh 0; nodes = nodes; created_at = now } in
            let passed : check_cycles whole ≡ ok dag = ground arith in
            subst (λ d. check_cycles d ≡ ok dag) (sym (check_cycles_lem whole passed)) passed
      ]
    ]
