-- ===== src/Wave/Merge.antt =====
-- The merge of a wave's results in `Graph::run_dag` (src/graph.rs) is in the order of the nodes, whatever the
-- order in which the results arrive.
use mathlib.Core.List.{Permᴰ}
use takeln.Base.{
  ℕ, ◌+◌, ◌≤◌, ◌≡◌, ◌≢◌, refl, sym, ◌<◌, map, All, ◌∙◌, ap, List, [], ◌∷◌, leb, nat_eq, nat_eq_iff,
  arith, if◌then◌else◌, Bool-cases, inl, inr,
}
use takeln.Wave.Engine.{insert_by_idx, sort_by_idx, merge_all, merge_wave}

module _ {S : Type 0} where
  -- The results of the node at an index.
  abbrev pub results_of : ℕ → List (ℕ × S) → ℕ
  results_of j [] = 0
  results_of j (s ∷ ss) = let rest = results_of j ss in if nat_eq s.0 j then rest + 1 else rest

  insert_by_idx_comm :
      (a b : ℕ × S) (ss : List (ℕ × S))
      → a.0 ≢ b.0
      → insert_by_idx a (insert_by_idx b ss) ≡ insert_by_idx b (insert_by_idx a ss)
  unfolding insert_by_idx
  insert_by_idx_comm a b [] apart = elim (Bool-cases (leb a.0 b.0)) [
    | inl below ↦ ground (arith, apart, below)
    | inr above ↦ ground (arith, apart, above)
  ]
  insert_by_idx_comm a b (s ∷ ss) apart = ground (arith, apart, insert_by_idx_comm a b ss apart)

  results_of-Perm : (j : ℕ) (xs ys : List (ℕ × S)) → Permᴰ xs ys → results_of j xs ≡ results_of j ys
  results_of-Perm j xs ys Permᴰ.nil = refl
  results_of-Perm j (x ∷ xs) (y ∷ ys) (Permᴰ.cons e p) =
      ground (arith, ap (λ s. s.0) e, results_of-Perm j xs ys p)
  results_of-Perm j (x ∷ y ∷ xs) (x' ∷ y' ∷ ys) (Permᴰ.swap e f) =
      ground (arith, ap (λ s. s.0) e, ap (λ s. s.0) f)
  results_of-Perm j xs ys (Permᴰ.trans {l₂ = zs} p q) =
      results_of-Perm j xs zs p ∙ results_of-Perm j zs ys q

  -- Sorting forgets the order of arrival, where each node has one result.
  sort_by_idx-Perm :
      (xs ys : List (ℕ × S))
      → Permᴰ xs ys
      → ((j : ℕ) → results_of j xs ≤ 1)
      → sort_by_idx xs ≡ sort_by_idx ys
  unfolding sort_by_idx
  sort_by_idx-Perm xs ys Permᴰ.nil single = refl
  sort_by_idx-Perm (x ∷ xs) (y ∷ ys) (Permᴰ.cons e p) single =
      ap (λ s. insert_by_idx s (sort_by_idx xs)) e
      ∙ ap (insert_by_idx y) (sort_by_idx-Perm xs ys p (λ j. ground (arith, single j)))
  sort_by_idx-Perm (x ∷ y ∷ xs) (x' ∷ y' ∷ _) (Permᴰ.swap e f) single =
      insert_by_idx_comm x y (sort_by_idx xs)
        (λ same. ground (arith, single x.0, same, nat_eq_iff y.0 x.0, nat_eq_iff x.0 x.0))
      ∙ ap (λ s. insert_by_idx s (insert_by_idx x (sort_by_idx xs))) f
      ∙ ap (λ s. insert_by_idx x' (insert_by_idx s (sort_by_idx xs))) e
  sort_by_idx-Perm xs ys (Permᴰ.trans {l₂ = zs} p q) single =
      sort_by_idx-Perm xs zs p single
      ∙ sort_by_idx-Perm zs ys q (λ j. omega (arith, single j, results_of-Perm j xs zs p))

  -- The results stand in the order of their nodes, one for each.
  abbrev pub AreInOrder : List (ℕ × S) → Type 0
  AreInOrder [] = Unit
  AreInOrder (s ∷ ss) = All (λ t. s.0 < t.0) ss × AreInOrder ss

  -- The states, merged from the left.
  abbrev pub fold_states : (S → S → S) → S → List S → S
  fold_states merge state [] = state
  fold_states merge state (s ∷ ss) = fold_states merge (merge state s) ss

  results_above :
      (i j : ℕ) (ss : List (ℕ × S)) → All (λ t. i < t.0) ss → j ≤ i → results_of j ss ≡ 0
  results_above i j [] h le = refl
  results_above i j (s ∷ ss) h le = ground (arith, h.0, results_above i j ss h.1 le)

  results_in_order : (j : ℕ) (ss : List (ℕ × S)) → AreInOrder ss → results_of j ss ≤ 1
  results_in_order j [] h = omega arith
  results_in_order j (s ∷ ss) h = elim (Bool-cases (nat_eq s.0 j)) [
    | inl same ↦
        ground (arith, same, nat_eq_iff s.0 j, results_above s.0 j ss h.0 (ground (arith, same)))
    | inr other ↦ ground (arith, other, results_in_order j ss h.1)
  ]

  insert_below :
      (s : ℕ × S) (ss : List (ℕ × S)) → All (λ t. s.0 < t.0) ss → insert_by_idx s ss ≡ s ∷ ss
  unfolding insert_by_idx
  insert_below s [] h = refl
  insert_below s (t ∷ ts) h = ground (arith, h.0)

  sort_in_order : (ss : List (ℕ × S)) → AreInOrder ss → sort_by_idx ss ≡ ss
  unfolding sort_by_idx
  sort_in_order [] h = refl
  sort_in_order (s ∷ ss) h = ap (insert_by_idx s) (sort_in_order ss h.1) ∙ insert_below s ss h.0

  merge_all-fold :
      (merge : S → S → S) (state : S) (ss : List (ℕ × S))
      → merge_all merge state ss ≡ fold_states merge state (map (λ s. s.1) ss)
  unfolding merge_all
  merge_all-fold merge state [] = refl
  merge_all-fold merge state (s ∷ ss) = merge_all-fold merge (merge state s.1) ss

  -- In whatever order the states of a wave's nodes arrive, one of each node, they are merged from the left
  -- in the order of their nodes in the DAG, behind the state before the wave.
  pub merge_wave-Perm :
      (merge : S → S → S) (state : S) (arrived ss : List (ℕ × S))
      → Permᴰ ss arrived
      → AreInOrder ss
      → merge_wave merge state arrived ≡ fold_states merge state (map (λ s. s.1) ss)
  unfolding merge_wave
  merge_wave-Perm merge state arrived ss p ordered =
      ap (merge_all merge state) (
        sym (sort_by_idx-Perm ss arrived p (λ j. results_in_order j ss ordered))
        ∙ sort_in_order ss ordered)
      ∙ merge_all-fold merge state ss
