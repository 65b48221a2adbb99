-- ===== src/Dependency/Search/Verdicts.antt =====
-- `HasCycle` of dependency.go decides whether a template is on a cycle.
use native.Mathlib.Nat.{le_trans}
use let_mil_go.Common.{
  ◌≤◌, ℕ, ◌≡◌, refl, subst, ◌∙◌, inl, inr, String, true, false, List, [], ◌∷◌, ◌++◌, arith, length,
  ◌==◌, ==_iff, string_eq, Bool-cases, Option-cases, ==-refl, All,
}
use let_mil_go.GoMap.{Map, is_some}
use let_mil_go.GoMap
use let_mil_go.GoMap.Unique.{elem, elem-keys, elem-append}
use let_mil_go.GoMap.Unique
use let_mil_go.Dependency.{Edge, DependencyGraph}
use let_mil_go.Dependency.Search.{
  is_marked, edges_at, Verdict, cyclic, no_cycle, out_of_fuel, Marks, unless_cyclic, dfs,
  visit_nodes, has_cycle,
}
use let_mil_go.Dependency.Search.Reach.{
  targets, Leads, Reaches, is_marked-empty, unmarked, unmarked_mono, unmarked-le_length,
}
use let_mil_go.Dependency.Search.Done.{
  IsDone, IsSearch, Moved, After, Moved-refl, Moved-trans, IsDone-Moved, IsDone-visited,
}
use let_mil_go.Dependency.Search.Exploring.{dfs-Explores}

-- the targets of the edges of all adjacency lists
abbrev pub all_targets : List (List Edge) → List String
all_targets [] = []
all_targets (es ∷ l) = targets es ++ all_targets l

-- every template of the graph, and every target of an edge
abbrev pub names_of : DependencyGraph → List String
names_of g = GoMap.keys g.nodes ++ all_targets (GoMap.values g.adj)

-- the targets of a list of edges are in `names`
abbrev InNames : List String → List Edge → Type 0
InNames names es = (b : String) → elem b (targets es) ≡ true → elem b names ≡ true

All-InNames :
    (names : List String) (l : List (List Edge))
    → ((b : String) → elem b (all_targets l) ≡ true → elem b names ≡ true)
    → All (InNames names) l
All-InNames names [] h = tt
All-InNames names (es ∷ l) h = (
  λ b e. h b (ground (arith, elem-append b (targets es) (all_targets l), e)),
  All-InNames names l (λ b e. h b (ground (arith, elem-append b (targets es) (all_targets l), e))),
)

-- a template of the graph, and the end of an edge, are among the names
pub node-names_of :
    (g : DependencyGraph) (n : String)
    → elem n (GoMap.keys g.nodes) ≡ true
    → elem n (names_of g) ≡ true
node-names_of g n e =
    ground (arith, elem-append n (GoMap.keys g.nodes) (all_targets (GoMap.values g.adj)), e)

pub Leads-names_of : (g : DependencyGraph) (a b : String) → Leads g a b → elem b (names_of g) ≡ true
Leads-names_of g a b e = elim (Option-cases (GoMap.get g.adj a)) [
  | inl missing ↦
      let none_there : edges_at g a ≡ [] = rw missing refl in
      absurd (cc (subst (λ es. elem b (targets es) ≡ true) none_there e))
  | inr (es, found) ↦
      let there : edges_at g a ≡ es = rw found refl in
      let names = all_targets (GoMap.values g.adj) in
      Unique.all_values (InNames (names_of g)) g.adj
        (All-InNames (names_of g) (GoMap.values g.adj)
          (λ c h. ground (arith, elem-append c (GoMap.keys g.nodes) names, h)))
        a es found b (subst (λ es. elem b (targets es) ≡ true) there e)
]

-- all of the nodes are done
abbrev AllDone : List String → Marks → Type 0
AllDone nodes s = (n : String) → elem n nodes ≡ true → IsDone s n

first_node :
    (g : DependencyGraph) (node : String) (rest : List String) (r s : Marks)
    → IsDone s node
    → Moved g r s
    → (p : Verdict × Marks) → After g s (AllDone rest) p
    → After g r (AllDone (node ∷ rest)) p
first_node g node rest r s done m (cyclic, _) h = h
first_node g node rest r s done m (out_of_fuel, _) h = h
first_node g node rest r s done m (no_cycle, s') (m', all_done) = (
  Moved-trans g r s s' m m',
  λ n e. elim (Bool-cases (node == n)) [
    | inl same ↦ rw (← (==_iff node n).0 same) (IsDone-Moved g s s' node m' done)
    | inr other ↦ all_done n (ground (arith, e, other))
  ],
)

-- the loop over the nodes: nothing is on the stack between two calls
module _ (g : DependencyGraph) (fuel : ℕ) where
  abbrev Unstacked : Marks → Type 0
  Unstacked s = (u : String) → is_marked s.rec_stack u ≡ false

  -- the loop over the nodes that are left ends well, wherever it starts
  abbrev Finishes : List String → Type 0
  Finishes nodes =
      (s : Marks)
      → IsSearch g s
      → Unstacked s
      → unmarked s.visited (names_of g) ≤ fuel
      → After g s (AllDone nodes) (visit_nodes (dfs fuel g) nodes s)

  After-node :
      (node : String) (rest : List String) (s : Marks)
      → IsSearch g s
      → is_marked s.visited node ≡ false
      → Unstacked s
      → unmarked s.visited (names_of g) ≤ fuel
      → Finishes rest
      → (p : Verdict × Marks) → After g s (λ s'. is_marked s'.visited node ≡ true) p
      → After g s (AllDone (node ∷ rest)) (unless_cyclic (visit_nodes (dfs fuel g) rest) p)
  After-node node rest s h new off enough go (cyclic, s') a = a
  After-node node rest s h new off enough go (out_of_fuel, s') a = a
  After-node node rest s h new off enough go (no_cycle, s') (m, seen) =
      first_node g node rest s s' (IsDone-visited g s s' node h new m seen) m
        (visit_nodes (dfs fuel g) rest s')
        (go s' m.search (λ u. m.same u ∙ off u)
          (le_trans (unmarked_mono s.visited s'.visited (names_of g) m.grown) enough))

  visit_nodes-After :
      (nodes : List String)
      → ((n : String) → elem n nodes ≡ true → elem n (names_of g) ≡ true)
      → Finishes nodes
  unfolding visit_nodes
  visit_nodes-After [] member s h off enough = (Moved-refl g s h, λ n e. absurd (cc e))
  visit_nodes-After (node ∷ rest) member s h off enough =
      let here = member node (ground (arith, ==-refl node)) in
      let go = visit_nodes-After rest (λ n e. member n (ground (arith, e))) in
      elim (Bool-cases (is_marked s.visited node)) [
        | inr new ↦
            rw (new, visit_nodes)
              (After-node node rest s h new off enough go (dfs fuel g node s) (
                dfs-Explores g (names_of g) (Leads-names_of g) fuel node s h here new
                  (λ u on. absurd (cc (on, off u))) enough))
        | inl seen ↦
            rw (seen, visit_nodes)
              (first_node g node rest s s (seen, off node) (Moved-refl g s h)
                (visit_nodes (dfs fuel g) rest s) (go s h off enough))
      ]

pub no_marks-IsSearch :
    (g : DependencyGraph) → IsSearch g (record { visited = GoMap.empty; rec_stack = GoMap.empty })
no_marks-IsSearch g = record {
  closed = λ a b d e. absurd (cc (d.0, is_marked-empty a));
  on_no_cycle = λ a d p. cc (d.0, is_marked-empty a);
  stacked = λ t on. absurd (cc (on, is_marked-empty t));
}

-- what a verdict says of the graph
abbrev pub IsVerdict : DependencyGraph → Verdict → Type 0
IsVerdict g cyclic = (n : String) × Reaches g n n
IsVerdict g no_cycle = (n : String) → is_some (GoMap.get g.nodes n) ≡ true → ¬ Reaches g n n
IsVerdict g out_of_fuel = ⊥

verdict-After :
    (g : DependencyGraph) (s : Marks) (p : Verdict × Marks)
    → After g s (AllDone (GoMap.keys g.nodes)) p
    → IsVerdict g p.0
verdict-After g s (cyclic, _) a = a
verdict-After g s (out_of_fuel, _) a = a
verdict-After g s (no_cycle, s') (m, all_done) =
    λ n member. m.search.on_no_cycle n (all_done n (elem-keys g.nodes n ∙ member))

-- `HasCycle` ends with a right answer, on any graph, if its calls may be nested as deep as the graph
-- has templates and targets of edges: if it says that there is a cycle, then a path leads from some
-- template back to it; if it says that there is none, then no template of the graph has such a path.
pub has_cycle-IsVerdict :
    (fuel : ℕ) (g : DependencyGraph) → length (names_of g) ≤ fuel → IsVerdict g (has_cycle fuel g)
unfolding has_cycle
has_cycle-IsVerdict fuel g enough =
    let s : Marks = record { visited = GoMap.empty; rec_stack = GoMap.empty } in
    verdict-After g s (visit_nodes (dfs fuel g) (GoMap.keys g.nodes) s) (
      visit_nodes-After g fuel (GoMap.keys g.nodes) (node-names_of g) s (no_marks-IsSearch g)
        is_marked-empty (le_trans (unmarked-le_length s.visited (names_of g)) enough))
