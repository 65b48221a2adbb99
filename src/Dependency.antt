-- ===== src/Dependency.antt =====
-- internal/model/dependency.go: the graph of the dependencies between templates, and how it is built.
-- The pointers to templates in the graph are read only: each is the template itself.
pub mod Index
pub mod Conflicts
pub mod Build
pub mod Search
use let_mil_go.Common.{
  ℕ, suc, String, Bool, List, [], ◌∷◌, ◌++◌, Option, none, some, ◌==◌, nat_eq, string_eq,
  if◌then◌else◌,
}
use let_mil_go.GoMap.{Map, is_some}
use let_mil_go.GoMap
use let_mil_go.Template.{TransactionTemplate}
use let_mil_go.Template

pub data DependencyType : Type 0 where
  dep_wr dep_ww dep_rw : DependencyType

unfoldable pub type_string : DependencyType → String
type_string dep_wr = "WR"
type_string dep_ww = "WW"
type_string dep_rw = "RW"

pub record Edge : Type 0 where
  pub source : String
  pub target : String
  pub dep_type : DependencyType
  pub key : String

pub record DependencyGraph : Type 0 where
  pub nodes : Map String TransactionTemplate
  pub edges : List Edge
  pub adj : Map String (List Edge)

unfoldable pub new_dependency_graph : DependencyGraph
new_dependency_graph = record { nodes = GoMap.empty; edges = []; adj = GoMap.empty }

-- g.adj[name]; nil where it is missing
abbrev pub or_no_edges : Option (List Edge) → List Edge
or_no_edges none = []
or_no_edges (some es) = es

unfoldable pub add_template : DependencyGraph → TransactionTemplate → DependencyGraph
add_template g t = record g {
  nodes = GoMap.put g.nodes t.name t;
  adj = if is_some (GoMap.get g.adj t.name) then g.adj else GoMap.put g.adj t.name [];
}

unfoldable pub add_edge :
    DependencyGraph → String → String → DependencyType → String → DependencyGraph
add_edge g source target dep_type key =
    let edge : Edge = record { source = source; target = target; dep_type = dep_type; key = key } in
    record g {
      edges = g.edges ++ edge ∷ [];
      adj = GoMap.put g.adj source (or_no_edges (GoMap.get g.adj source) ++ edge ∷ []);
    }

-- one of the three loops over the keys of a template: an edge for every key that the test accepts
unfoldable pub link :
    (String → Bool)
    → DependencyType
    → String
    → String
    → List String
    → DependencyGraph
    → DependencyGraph
unfolding add_edge
link accepts dep_type source target [] g = g
link accepts dep_type source target (key ∷ rest) g =
    link accepts dep_type source target rest
      (if accepts key then add_edge g source target dep_type key else g)

-- the three loops, for one pair of templates
unfoldable pub relate :
    TransactionTemplate → TransactionTemplate → DependencyGraph → DependencyGraph
unfolding link
relate t1 t2 g =
    let wr = link (Template.has_read t2) dep_wr t1.name t2.name (Template.write_keys t1) g in
    let ww = link (Template.has_write t2) dep_ww t1.name t2.name (Template.write_keys t1) wr in
    link (Template.has_write t2) dep_rw t1.name t2.name (Template.read_keys t1) ww

-- the inner loop, from the index j on
unfoldable pub relate_all :
    ℕ → TransactionTemplate → ℕ → List TransactionTemplate → DependencyGraph → DependencyGraph
unfolding relate
relate_all i t1 j [] g = g
relate_all i t1 j (t2 ∷ rest) g =
    relate_all i t1 (suc j) rest (if i == j then g else relate t1 t2 g)

-- the outer loop, from the index i on; `templates` are all of them
unfoldable pub relate_each :
    List TransactionTemplate → ℕ → List TransactionTemplate → DependencyGraph → DependencyGraph
unfolding relate_all
relate_each templates i [] g = g
relate_each templates i (t1 ∷ rest) g =
    relate_each templates (suc i) rest (relate_all i t1 0 templates g)

unfoldable pub build_from_templates : DependencyGraph → DependencyGraph
unfolding relate_each
build_from_templates g = let templates = GoMap.values g.nodes in relate_each templates 0 templates g

unfoldable pub edges_of : DependencyGraph → List Edge
edges_of g = g.edges

unfoldable pub templates_of : DependencyGraph → List TransactionTemplate
templates_of g = GoMap.values g.nodes
