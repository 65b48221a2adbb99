-- ===== src/Dependency/Index.antt =====
-- The adjacency lists of dependency.go against the list of all edges.
use let_mil_go.Common.{
  ℕ, suc, ◌≡◌, refl, inl, inr, String, Bool, List, [], ◌∷◌, ◌++◌, arith, ◌==◌, ==_iff, nat_eq,
  string_eq, if◌then◌else◌, Bool-cases, Option-cases,
}
use let_mil_go.GoMap.{Map, is_some, get-put, get-empty}
use let_mil_go.GoMap
use let_mil_go.Template.{TransactionTemplate}
use let_mil_go.Template
use let_mil_go.Dependency.{
  DependencyType, dep_wr, dep_ww, dep_rw, Edge, DependencyGraph, new_dependency_graph, or_no_edges,
  add_template, add_edge, link, relate, relate_all, relate_each, build_from_templates,
}

-- the edges from a template, in their order
unfoldable pub edges_from : String → List Edge → List Edge
edges_from name [] = []
edges_from name (e ∷ es) =
    let rest = edges_from name es in if e.source == name then e ∷ rest else rest

pub record IsIndexed (g : DependencyGraph) : Type 0 where
  pub by_source : (name : String) → or_no_edges (GoMap.get g.adj name) ≡ edges_from name g.edges

edges_from-append :
    (name : String) (es : List Edge) (e : Edge)
    → edges_from name (es ++ e ∷ [])
      ≡ (if e.source == name then edges_from name es ++ e ∷ [] else edges_from name es)
unfolding edges_from
edges_from-append name [] e = ground arith
edges_from-append name (d ∷ ds) e = elim (Bool-cases (d.source == name)) [
  | inl from ↦
      rw (from, edges_from-append name ds e)
        (elim (Bool-cases (e.source == name)) [
          | inl same ↦ rw same refl
          | inr apart ↦ rw apart refl
        ])
  | inr other ↦ rw (other, edges_from-append name ds e) refl
]

pub new_dependency_graph-IsIndexed : IsIndexed new_dependency_graph
unfolding new_dependency_graph edges_from
new_dependency_graph-IsIndexed = record {
  by_source = λ name. rw (get-empty {K = String} {V = List Edge} name) refl;
}

pub add_template-IsIndexed :
    (g : DependencyGraph) (t : TransactionTemplate) → IsIndexed g → IsIndexed (add_template g t)
unfolding add_template
add_template-IsIndexed g t h = record {
  by_source = λ name. elim (Option-cases (GoMap.get g.adj t.name)) [
    | inl missing ↦
        rw (missing, get-put) (ground (arith, h.by_source name, missing, ==_iff t.name name))
    | inr (es, found) ↦ rw found (h.by_source name)
  ];
}

pub add_edge-IsIndexed :
    (g : DependencyGraph) (source target : String) (dep_type : DependencyType) (key : String)
    → IsIndexed g
    → IsIndexed (add_edge g source target dep_type key)
unfolding add_edge
add_edge-IsIndexed g source target dep_type key h = record {
  by_source = λ name.
      rw (get-put, edges_from-append)
        (elim (Bool-cases (source == name)) [
          | inl same ↦ rw (same, h.by_source source, (==_iff source name).0 same) refl
          | inr apart ↦ rw apart (h.by_source name)
        ]);
}

link-IsIndexed :
    (accepts : String → Bool) (dep_type : DependencyType) (source target : String)
    (keys : List String) (g : DependencyGraph)
    → IsIndexed g
    → IsIndexed (link accepts dep_type source target keys g)
unfolding link
link-IsIndexed accepts dep_type source target [] g h = h
link-IsIndexed accepts dep_type source target (key ∷ rest) g h = elim (Bool-cases (accepts key)) [
  | inl hit ↦
      rw (link, hit)
        (link-IsIndexed accepts dep_type source target rest _
          (add_edge-IsIndexed g source target dep_type key h))
  | inr miss ↦ rw (link, miss) (link-IsIndexed accepts dep_type source target rest g h)
]

relate-IsIndexed :
    (t1 t2 : TransactionTemplate) (g : DependencyGraph) → IsIndexed g → IsIndexed (relate t1 t2 g)
unfolding relate
relate-IsIndexed t1 t2 g h =
    let reads = Template.has_read t2 in
    let writes = Template.has_write t2 in
    let wr = link reads dep_wr t1.name t2.name (Template.write_keys t1) g in
    let ww = link writes dep_ww t1.name t2.name (Template.write_keys t1) wr in
    let wr_ok = link-IsIndexed reads dep_wr t1.name t2.name (Template.write_keys t1) g h in
    let ww_ok = link-IsIndexed writes dep_ww t1.name t2.name (Template.write_keys t1) wr wr_ok in
    link-IsIndexed writes dep_rw t1.name t2.name (Template.read_keys t1) ww ww_ok

relate_all-IsIndexed :
    (i : ℕ) (t1 : TransactionTemplate) (j : ℕ) (ts : List TransactionTemplate) (g : DependencyGraph)
    → IsIndexed g
    → IsIndexed (relate_all i t1 j ts g)
unfolding relate_all
relate_all-IsIndexed i t1 j [] g h = h
relate_all-IsIndexed i t1 j (t2 ∷ ts) g h = elim (Bool-cases (i == j)) [
  | inl same ↦ rw (relate_all, same) (relate_all-IsIndexed i t1 (suc j) ts g h)
  | inr apart ↦
      rw (relate_all, apart)
        (relate_all-IsIndexed i t1 (suc j) ts (relate t1 t2 g) (relate-IsIndexed t1 t2 g h))
]

relate_each-IsIndexed :
    (templates : List TransactionTemplate) (i : ℕ) (ts : List TransactionTemplate)
    (g : DependencyGraph)
    → IsIndexed g
    → IsIndexed (relate_each templates i ts g)
unfolding relate_each
relate_each-IsIndexed templates i [] g h = h
relate_each-IsIndexed templates i (t1 ∷ ts) g h =
    relate_each-IsIndexed templates (suc i) ts (relate_all i t1 0 templates g)
      (relate_all-IsIndexed i t1 0 templates g h)

-- Building the graph from its templates keeps every adjacency list the list of all edges from its
-- template, in the order in which they were added.
pub build_from_templates-IsIndexed :
    (g : DependencyGraph) → IsIndexed g → IsIndexed (build_from_templates g)
unfolding build_from_templates
build_from_templates-IsIndexed g h =
    relate_each-IsIndexed (GoMap.values g.nodes) 0 (GoMap.values g.nodes) g h
