-- ===== src/Examples/Graph.antt =====
-- A concrete dependency graph of internal/model/dependency.go.
use let_mil_go.Common.{length, ◌≡◌, refl, true, some, [], ◌∷◌, All, get_elem?, arith, string_eq}
use let_mil_go.GoMap
use let_mil_go.Template
use let_mil_go.Template.{
  TransactionTemplate, new_transaction_template, add_read, add_write, has_read, has_write,
}
use let_mil_go.Dependency.{
  DependencyGraph, dep_wr, add_edge, link, relate, relate_all, relate_each, new_dependency_graph,
  add_template, build_from_templates,
}
use let_mil_go.Dependency.Search.Cycles.{AreCycles, find_cycles-AreCycles}
use let_mil_go.Dependency.Search.{find_cycles, Verdict, cyclic, has_cycle}
use let_mil_go.Dependency.Search
use let_mil_go.Dependency.Search.Verdicts.{IsVerdict, names_of, has_cycle-IsVerdict}
use let_mil_go.Dependency.Conflicts.{edge, conflict_on}
use let_mil_go.Dependency.Build.{
  IsConflict, IsListed, build_from_templates_sound, build_from_templates_complete,
}

abbrev payment : TransactionTemplate
payment = add_write (new_transaction_template "payment") "balance"

abbrev report : TransactionTemplate
report = add_read (new_transaction_template "report") "balance"

abbrev graph : DependencyGraph
graph = add_template (add_template new_dependency_graph payment) report

templates : GoMap.values graph.nodes ≡ payment ∷ report ∷ []
unfolding new_dependency_graph add_template GoMap.values GoMap.put GoMap.empty GoMap.get add_read
    add_write new_transaction_template
templates = refl

no_edges : graph.edges ≡ []
unfolding new_dependency_graph add_template
no_edges = refl

conflict : conflict_on payment report dep_wr "balance" ≡ true
unfolding has_read has_write add_read add_write new_transaction_template GoMap.get GoMap.put
    GoMap.empty
conflict = refl

none_to_justify : All (IsConflict (GoMap.values graph.nodes)) graph.edges
none_to_justify = rw no_edges tt

build_from_templates_sound_example :
    All (IsConflict (GoMap.values graph.nodes)) (build_from_templates graph).edges
build_from_templates_sound_example = build_from_templates_sound graph none_to_justify

first_template : get_elem? (GoMap.values graph.nodes) 0 ≡ some payment
first_template = rw templates refl

second_template : get_elem? (GoMap.values graph.nodes) 1 ≡ some report
second_template = rw templates refl

build_from_templates_complete_example :
    IsListed (edge payment report dep_wr "balance") (build_from_templates graph).edges
build_from_templates_complete_example =
    build_from_templates_complete graph 0 1 payment report dep_wr "balance" first_template
      second_template (λ e. absurd (omega (arith, e))) conflict

-- the report reads what the payment writes: each depends on the other
abbrev both_ways : DependencyGraph
both_ways = build_from_templates graph

both_ways_names : length (names_of both_ways) ≡ 4
unfolding new_dependency_graph add_template add_read add_write new_transaction_template has_read
    has_write Template.read_keys Template.write_keys add_edge link relate relate_all relate_each
    build_from_templates GoMap.values GoMap.keys GoMap.put GoMap.empty GoMap.get
both_ways_names = refl

both_ways_cyclic : has_cycle 4 both_ways ≡ cyclic
unfolding new_dependency_graph add_template add_read add_write new_transaction_template has_read
    has_write Template.read_keys Template.write_keys add_edge link relate relate_all relate_each
    build_from_templates GoMap.values GoMap.keys GoMap.put GoMap.empty GoMap.get has_cycle
    Search.visit_nodes Search.dfs Search.visit_edges Search.enter Search.is_marked
both_ways_cyclic = refl

has_cycle-IsVerdict_example : IsVerdict both_ways (has_cycle 4 both_ways)
has_cycle-IsVerdict_example = has_cycle-IsVerdict 4 both_ways (omega (arith, both_ways_names))

both_ways_cycles : find_cycles 4 both_ways ≡ some (("payment" ∷ "report" ∷ []) ∷ [])
unfolding new_dependency_graph add_template add_read add_write new_transaction_template has_read
    has_write Template.read_keys Template.write_keys add_edge link relate relate_all relate_each
    build_from_templates GoMap.values GoMap.keys GoMap.put GoMap.empty GoMap.get find_cycles
    Search.walk_nodes Search.walk_from Search.walk_edges Search.advance Search.retreat
    Search.record_cycle Search.is_marked
both_ways_cycles = refl

find_cycles-AreCycles_example : AreCycles both_ways (find_cycles 4 both_ways)
find_cycles-AreCycles_example = find_cycles-AreCycles 4 both_ways (omega (arith, both_ways_names))
