-- ===== src/Dependency/Search/Cycles.antt =====
-- `FindCycles` of dependency.go finds cycles only, and one if there is any.
use native.Mathlib.Nat.{le_trans}
use let_mil_go.Common.{
  ◌≤◌, ℕ, zero, suc, ◌≡◌, refl, ◌∙◌, inl, inr, String, true, false, Option, none, some, List, [],
  ◌∷◌, ◌++◌, arith, length, ==-refl, string_eq, Bool-cases, All,
}
use let_mil_go.GoMap.{Map, is_some}
use let_mil_go.GoMap
use let_mil_go.GoMap.Unique.{elem, elem-keys}
use let_mil_go.Dependency.{DependencyGraph}
use let_mil_go.Dependency.Search.{
  is_marked, edges_at, ◌>>=◌, Walk, advance, retreat, walk_edges, walk_from, walk_nodes,
  find_cycles,
}
use let_mil_go.Dependency.Search.Reach.{
  targets, Reaches, is_marked-empty, unmarked, unmarked-put_lt, unmarked-le_length,
}
use let_mil_go.Dependency.Search.Closed.{Chain-append, IsCycle}
use let_mil_go.Dependency.Search.Walking.{
  IsWalk, Arrives, Walked-refl, advance-IsWalk, retreat-Walked,
}
use let_mil_go.Dependency.Search.Verdicts.{names_of, node-names_of, no_marks-IsSearch}
use let_mil_go.Dependency.Search.Touring.{
  DoneUnless, first_done, Explores, off_stack, After-call, walk_edges-Arrives,
}

module _ (g : DependencyGraph) (fuel : ℕ) (f : String → Walk → Option Walk)
    (explores : Explores g fuel f) where
  -- the loop over the nodes, with no path behind it
  walk_nodes-Arrives :
      (nodes : List String) (w : Walk)
      → IsWalk g w
      → w.path ≡ []
      → ((n : String) → elem n nodes ≡ true → elem n (names_of g) ≡ true)
      → unmarked w.visited (names_of g) ≤ fuel
      → Arrives g w (DoneUnless nodes) (walk_nodes f nodes w)
  unfolding walk_nodes
  walk_nodes-Arrives [] w h at member enough = (Walked-refl g w h, λ e b m. absurd (cc m))
  walk_nodes-Arrives (node ∷ rest) w h at member enough =
      let here = member node (ground (arith, ==-refl node)) in
      let member' : (n : String) → elem n rest ≡ true → elem n (names_of g) ≡ true =
        λ n m. member n (ground (arith, m)) in
      elim (Bool-cases (is_marked w.visited node)) [
        | inr new ↦
            rw (new, walk_nodes)
              (After-call g fuel f explores node rest w (walk_nodes f rest) h new enough
                (λ w' h' at'. walk_nodes-Arrives rest w' h' (at' ∙ at) member') (f node w)
                (explores node w h here new (rw at tt) enough))
        | inl seen ↦
            rw (seen, walk_nodes)
              (first_done g node rest w w (λ _. (seen, off_stack g w node h at)) (Walked-refl g w h)
                (walk_nodes f rest w) (walk_nodes-Arrives rest w h at member' enough))
      ]

After-edges :
    (g : DependencyGraph) (t : String) (w : Walk)
    → IsWalk g w
    → is_marked w.visited t ≡ false
    → (p : Option Walk) → Arrives g (advance t w) (DoneUnless (targets (edges_at g t))) p
    → Arrives g w (λ w'. is_marked w'.visited t ≡ true) (p >>= λ w'. some (retreat t w'))
After-edges g t w h new none a = a
After-edges g t w h new (some w') (m, all_done) = retreat-Walked g t w w' h new m all_done

walk_from-Explores : (g : DependencyGraph) (fuel : ℕ) → Explores g fuel (walk_from fuel g)
unfolding walk_from advance
walk_from-Explores g zero t w h member new chain enough =
    absurd (omega (arith, unmarked-put_lt w.visited t (names_of g) member new))
walk_from-Explores g (suc fuel) t w h member new chain enough =
    After-edges g t w h new (walk_edges (walk_from fuel g) (edges_at g t) (advance t w)) (
      walk_edges-Arrives g fuel (walk_from fuel g) (walk_from-Explores g fuel) t (edges_at g t)
        (w.path ++ t ∷ []) (advance t w) (advance-IsWalk g t w h) refl
        (λ b e. Chain-append g w.path t b chain e) (λ b e. e)
        (omega (arith, unmarked-put_lt w.visited t (names_of g) member new)))

abbrev no_walk : Walk
no_walk = record { visited = GoMap.empty; rec_stack = GoMap.empty; path = []; cycles = [] }

no_walk-IsWalk : (g : DependencyGraph) → IsWalk g no_walk
no_walk-IsWalk g = record {
  stacked = λ u on. absurd (cc (on, is_marked-empty u));
  on_path = λ u on. absurd (cc (on, is_marked-empty u));
  closed = tt;
}

-- the lists that a search has found
abbrev pub AreCycles : DependencyGraph → Option (List (List String)) → Type 0
AreCycles g none = ⊥
AreCycles g (some cycles) =
    All (IsCycle g) cycles
    × (cycles ≡ [] → (n : String) → is_some (GoMap.get g.nodes n) ≡ true → ¬ Reaches g n n)

cycles_after :
    (g : DependencyGraph) (p : Option Walk)
    → Arrives g no_walk (DoneUnless (GoMap.keys g.nodes)) p
    → AreCycles g (p >>= λ w. some w.cycles)
cycles_after g none a = a
cycles_after g (some w) (m, all_done) = (
  m.walk.closed,
  λ e n member.
      (m.search e (no_marks-IsSearch g)).on_no_cycle n
        (all_done e n (elem-keys g.nodes n ∙ member)),
)

-- `FindCycles` ends, on any graph, if its calls may be nested as deep as the graph has templates and
-- targets of edges. Each list that it returns is a cycle: an edge leads from each template of it to
-- the next, and from the last to the first. If it returns none, then no path leads from a template of
-- the graph back to it.
pub find_cycles-AreCycles :
    (fuel : ℕ) (g : DependencyGraph) → length (names_of g) ≤ fuel → AreCycles g (find_cycles fuel g)
unfolding find_cycles
find_cycles-AreCycles fuel g enough =
    cycles_after g (walk_nodes (walk_from fuel g) (GoMap.keys g.nodes) no_walk) (
      walk_nodes-Arrives g fuel (walk_from fuel g) (walk_from-Explores g fuel) (GoMap.keys g.nodes)
        no_walk (no_walk-IsWalk g) refl (node-names_of g)
        (le_trans (unmarked-le_length GoMap.empty (names_of g)) enough))
