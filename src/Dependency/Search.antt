-- ===== src/Dependency/Search.antt =====
-- internal/model/dependency.go: `HasCycle` and `FindCycles`, depth-first searches of the graph. Each
-- nested call of the function `dfs` takes one unit of fuel.
pub mod Reach
pub mod Done
pub mod Exploring
pub mod Verdicts
pub mod Closed
pub mod Walking
pub mod Touring
pub mod Cycles
use mathlib.Core.Option
use let_mil_go.Common.{
  ℕ, zero, suc, ◌-◌, String, Bool, true, false, Option, none, some, List, [], ◌∷◌, ◌++◌, length,
  take, drop, ◌==◌, string_eq, if◌then◌else◌,
}
use let_mil_go.GoMap.{Map}
use let_mil_go.GoMap
use let_mil_go.Dependency.{Edge, DependencyGraph, or_no_edges}

-- m[k], where a missing key reads as false
unfoldable pub is_marked : Map String Bool → String → Bool
is_marked m k = elim (GoMap.get m k) [ none ↦ false | some b ↦ b ]

-- g.adj[node]
abbrev pub edges_at : DependencyGraph → String → List Edge
edges_at g node = or_no_edges (GoMap.get g.adj node)

-- what a search has returned: true, false, or nothing yet
pub data Verdict : Type 0 where
  cyclic no_cycle out_of_fuel : Verdict

-- the variables of `HasCycle` that its `dfs` captures
pub record Marks : Type 0 where
  pub visited : Map String Bool
  pub rec_stack : Map String Bool

unfoldable pub enter : String → Marks → Marks
enter node s = record {
  visited = GoMap.put s.visited node true;
  rec_stack = GoMap.put s.rec_stack node true;
}

-- `dfs` has returned true, or the caller goes on
abbrev pub unless_cyclic : (Marks → Verdict × Marks) → Verdict × Marks → Verdict × Marks
unless_cyclic next (no_cycle, s) = next s
unless_cyclic next (v, s) = (v, s)

-- the end of `dfs`
abbrev pub leave : String → Marks → Verdict × Marks
leave node s = (no_cycle, record s { rec_stack = GoMap.put s.rec_stack node false })

-- the loop over the edges of a node
unfoldable pub visit_edges :
    (String → Marks → Verdict × Marks) → List Edge → Marks → Verdict × Marks
visit_edges dfs [] s = (no_cycle, s)
visit_edges dfs (edge ∷ rest) s = elim (is_marked s.visited edge.target) [
  | false ↦ unless_cyclic (visit_edges dfs rest) (dfs edge.target s)
  | true ↦ elim (is_marked s.rec_stack edge.target) [
    | true ↦ (cyclic, s)
    | false ↦ visit_edges dfs rest s
  ]
]

unfoldable pub dfs : ℕ → DependencyGraph → String → Marks → Verdict × Marks
unfolding visit_edges enter
dfs zero g node s = (out_of_fuel, s)
dfs (suc fuel) g node s =
    unless_cyclic (leave node) (visit_edges (dfs fuel g) (edges_at g node) (enter node s))

-- the loop over the nodes
unfoldable pub visit_nodes :
    (String → Marks → Verdict × Marks) → List String → Marks → Verdict × Marks
visit_nodes dfs [] s = (no_cycle, s)
visit_nodes dfs (node ∷ rest) s = elim (is_marked s.visited node) [
  | false ↦ unless_cyclic (visit_nodes dfs rest) (dfs node s)
  | true ↦ visit_nodes dfs rest s
]

unfoldable pub has_cycle : ℕ → DependencyGraph → Verdict
unfolding visit_nodes dfs
has_cycle fuel g =
    (visit_nodes (dfs fuel g) (GoMap.keys g.nodes)
      (record { visited = GoMap.empty; rec_stack = GoMap.empty })).0

-- an `Option` that is `none` stops a do block
infixl 5 ◌>>=◌
abbrev pub ◌>>=◌ {ℓ κ} : {A : Type ℓ} {B : Type κ} → Option A → (A → Option B) → Option B
none >>= f = none
some x >>= f = f x

-- the variables of `FindCycles` that its `dfs` captures
pub record Walk : Type 0 where
  pub visited : Map String Bool
  pub rec_stack : Map String Bool
  pub path : List String
  pub cycles : List (List String)

-- the loop that looks for cycleStart; none for -1
abbrev pub index_of : String → List String → Option ℕ
index_of t [] = none
index_of t (n ∷ rest) = if n == t then some zero else Option.map suc (index_of t rest)

unfoldable pub record_cycle : String → Walk → Walk
record_cycle target w = elim (index_of target w.path) [
  | none ↦ w
  | some cycle_start ↦ record w { cycles = w.cycles ++ drop cycle_start w.path ∷ [] }
]

unfoldable pub advance : String → Walk → Walk
advance node w = record w {
  visited = GoMap.put w.visited node true;
  rec_stack = GoMap.put w.rec_stack node true;
  path = w.path ++ node ∷ [];
}

unfoldable pub retreat : String → Walk → Walk
retreat node w = record w {
  path = take (length w.path - 1) w.path;
  rec_stack = GoMap.put w.rec_stack node false;
}

unfoldable pub walk_edges : (String → Walk → Option Walk) → List Edge → Walk → Option Walk
unfolding record_cycle
walk_edges walk [] w = some w
walk_edges walk (edge ∷ rest) w = elim (is_marked w.visited edge.target) [
  | false ↦ do w' ← walk edge.target w; walk_edges walk rest w'
  | true ↦
      walk_edges walk rest
        (if is_marked w.rec_stack edge.target then record_cycle edge.target w else w)
]

unfoldable pub walk_from : ℕ → DependencyGraph → String → Walk → Option Walk
unfolding walk_edges advance retreat
walk_from zero g node w = none
walk_from (suc fuel) g node w = do
  w' ← walk_edges (walk_from fuel g) (edges_at g node) (advance node w)
  some (retreat node w')

unfoldable pub walk_nodes : (String → Walk → Option Walk) → List String → Walk → Option Walk
walk_nodes walk [] w = some w
walk_nodes walk (node ∷ rest) w = elim (is_marked w.visited node) [
  | false ↦ do w' ← walk node w; walk_nodes walk rest w'
  | true ↦ walk_nodes walk rest w
]

unfoldable pub find_cycles : ℕ → DependencyGraph → Option (List (List String))
unfolding walk_nodes walk_from
find_cycles fuel g = do
  w ←
      walk_nodes (walk_from fuel g) (GoMap.keys g.nodes)
        (record { visited = GoMap.empty; rec_stack = GoMap.empty; path = []; cycles = [] })
  some w.cycles
