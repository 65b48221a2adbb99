-- ===== src/Dependency/Search/Exploring.antt =====
-- `dfs` of `HasCycle` in dependency.go, from the marks that its caller has left on.
use let_mil_go.Common.{
  ◌≤◌, ℕ, zero, suc, ◌≡◌, sym, ◌∙◌, ◌⊎◌, inl, inr, String, true, false, List, [], ◌∷◌, arith, ◌==◌,
  ==_iff, ==-refl, nat_eq, string_eq, Bool-cases,
}
use native.Mathlib.Nat.{le_trans}
use let_mil_go.GoMap.Unique.{elem}
use let_mil_go.Dependency.{Edge, DependencyGraph}
use let_mil_go.Dependency.Search.{
  is_marked, edges_at, Verdict, cyclic, no_cycle, out_of_fuel, Marks, enter, unless_cyclic, leave,
  visit_edges, dfs,
}
use let_mil_go.Dependency.Search.Reach.{
  targets, Leads, Reaches, Reaches-trans, edge_to, is_marked-put, unmarked, unmarked_mono,
  unmarked-put_lt,
}
use let_mil_go.Dependency.Search.Done.{
  IsDone, IsSearch, Moved, After, Moved-refl, Moved-trans, IsDone-Moved, IsDone-visited,
  enter-IsSearch, leave-Moved,
}

module _ (g : DependencyGraph) (names : List String)
    (known : (a b : String) → Leads g a b → elem b names ≡ true) where
  -- what `dfs` does at a template that was not visited, with a fuel that is enough
  abbrev pub Explores : ℕ → (String → Marks → Verdict × Marks) → Type 0
  Explores fuel f =
      (t : String) (s : Marks)
      → IsSearch g s
      → elem t names ≡ true
      → is_marked s.visited t ≡ false
      → ((u : String) → is_marked s.rec_stack u ≡ true → Reaches g u t)
      → unmarked s.visited names ≤ fuel
      → After g s (λ s'. is_marked s'.visited t ≡ true) (f t s)

  -- the edges of `node` that are left, from the marks `s`
  abbrev Visits : String → List Edge → Marks → Type 0
  Visits node edges s =
      ((b : String) → elem b (targets edges) ≡ true → Leads g node b)
      × ((u : String) → is_marked s.rec_stack u ≡ true → (u ≡ node) ⊎ Reaches g u node)

  -- a path to the end of an edge, from what is on the stack
  along : (node b u : String) → Leads g node b → (u ≡ node) ⊎ Reaches g u node → Reaches g u b
  along node b u e (inl same) = rw same (edge_to node b e)
  along node b u e (inr p) = Reaches-trans g u node b p (edge_to node b e)

  -- the edges after the first
  rest_Visits :
      (node : String) (edge : Edge) (rest : List Edge) (s s' : Marks)
      → Moved g s s'
      → Visits node (edge ∷ rest) s
      → Visits node rest s'
  rest_Visits node edge rest s s' m (leads, on) =
      (λ b e. leads b (ground (arith, e)), λ u h. on u (sym (m.same u) ∙ h))

  -- all of the edges lead to templates that are done
  abbrev pub TargetsDone : List Edge → Marks → Type 0
  TargetsDone edges s = (b : String) → elem b (targets edges) ≡ true → IsDone s b

  -- one more target is done, and the search has moved on
  first_done :
      (edge : Edge) (rest : List Edge) (r s : Marks)
      → IsDone s edge.target
      → Moved g r s
      → (p : Verdict × Marks) → After g s (TargetsDone rest) p
      → After g r (TargetsDone (edge ∷ rest)) p
  first_done edge rest r s done m (cyclic, _) h = h
  first_done edge rest r s done m (out_of_fuel, _) h = h
  first_done edge rest r s done m (no_cycle, s') (m', all_done) = (
    Moved-trans g r s s' m m',
    λ b e. elim (Bool-cases (edge.target == b)) [
      | inl same ↦ rw (← (==_iff edge.target b).0 same) (IsDone-Moved g s s' edge.target m' done)
      | inr other ↦ all_done b (ground (arith, e, other))
    ],
  )

  module _ (fuel : ℕ) (f : String → Marks → Verdict × Marks) (explores : Explores fuel f) where
    -- after the call of `dfs` at the first target
    After-call :
        (node : String) (edge : Edge) (rest : List Edge) (s : Marks)
        → IsSearch g s
        → is_marked s.visited edge.target ≡ false
        → Visits node (edge ∷ rest) s
        → unmarked s.visited names ≤ fuel
        → ((s' : Marks)
            → IsSearch g s'
            → Visits node rest s'
            → unmarked s'.visited names ≤ fuel
            → After g s' (TargetsDone rest) (visit_edges f rest s'))
        → (p : Verdict × Marks) → After g s (λ s'. is_marked s'.visited edge.target ≡ true) p
        → After g s (TargetsDone (edge ∷ rest)) (unless_cyclic (visit_edges f rest) p)
    After-call node edge rest s h new v enough go (cyclic, s') a = a
    After-call node edge rest s h new v enough go (out_of_fuel, s') a = a
    After-call node edge rest s h new v enough go (no_cycle, s') (m, seen) =
        first_done edge rest s s' (IsDone-visited g s s' edge.target h new m seen) m
          (visit_edges f rest s')
          (go s' m.search (rest_Visits node edge rest s s' m v)
            (le_trans (unmarked_mono s.visited s'.visited names m.grown) enough))

    visit_edges-After :
        (node : String) (edges : List Edge) (s : Marks)
        → IsSearch g s
        → Visits node edges s
        → unmarked s.visited names ≤ fuel
        → After g s (TargetsDone edges) (visit_edges f edges s)
    unfolding visit_edges
    visit_edges-After node [] s h v enough = (Moved-refl g s h, λ b e. absurd (cc e))
    visit_edges-After node (edge ∷ rest) s h v enough =
        let leads = v.0 edge.target (ground (arith, ==-refl edge.target)) in
        elim (Bool-cases (is_marked s.visited edge.target)) [
          | inr new ↦
              rw (new, visit_edges)
                (After-call node edge rest s h new v enough (λ s'. visit_edges-After node rest s')
                  (f edge.target s)
                  (explores edge.target s h (known node edge.target leads) new
                    (λ u on. along node edge.target u leads (v.1 u on)) enough))
          | inl seen ↦ elim (Bool-cases (is_marked s.rec_stack edge.target)) [
            | inl on ↦
                rw (seen, on, visit_edges)
                  (edge.target, along node edge.target edge.target leads (v.1 edge.target on))
            | inr off ↦
                rw (seen, off, visit_edges)
                  (first_done edge rest s s (seen, off) (Moved-refl g s h) (visit_edges f rest s)
                    (visit_edges-After node rest s h
                      (rest_Visits node edge rest s s (Moved-refl g s h) v) enough))
          ]
        ]

  -- the end of `dfs`
  After-edges :
      (t : String) (s : Marks)
      → IsSearch g s
      → is_marked s.visited t ≡ false
      → (p : Verdict × Marks) → After g (enter t s) (TargetsDone (edges_at g t)) p
      → After g s (λ s'. is_marked s'.visited t ≡ true) (unless_cyclic (leave t) p)
  After-edges t s h new (cyclic, s') a = a
  After-edges t s h new (out_of_fuel, s') a = a
  After-edges t s h new (no_cycle, s') (m, all_done) = leave-Moved g t s s' h new m all_done

  pub dfs-Explores : (fuel : ℕ) → Explores fuel (dfs fuel g)
  unfolding dfs enter
  dfs-Explores zero t s h member new on enough =
      absurd (omega (arith, unmarked-put_lt s.visited t names member new))
  dfs-Explores (suc fuel) t s h member new on enough =
      After-edges t s h new (visit_edges (dfs fuel g) (edges_at g t) (enter t s)) (
        visit_edges-After fuel (dfs fuel g) (dfs-Explores fuel) t (edges_at g t) (enter t s)
          (enter-IsSearch g t s h new)
          (
            (λ b e. e),
            λ u marked. elim (Bool-cases (t == u)) [
              | inl same ↦ inl (sym ((==_iff t u).0 same))
              | inr other ↦
                  inr (on u (ground (arith, is_marked-put s.rec_stack t u true, marked, other)))
            ],
          )
          (omega (arith, unmarked-put_lt s.visited t names member new)))
