-- ===== src/Dependency/Search/Touring.antt =====
-- The nested calls of `FindCycles` in dependency.go.
use native.Mathlib.Nat.{le_trans}
use let_mil_go.Common.{
  ◌≤◌, ℕ, ◌≡◌, subst, ◌∙◌, inl, inr, String, true, false, Option, none, some, List, [], ◌∷◌, arith,
  ◌==◌, ==_iff, ==-refl, string_eq, Bool-cases,
}
use let_mil_go.GoMap.Unique.{elem}
use let_mil_go.Dependency.{Edge, DependencyGraph}
use let_mil_go.Dependency.Search.{is_marked, ◌>>=◌, Walk, record_cycle, walk_edges}
use let_mil_go.Dependency.Search.Reach.{targets, Leads, unmarked, unmarked_mono}
use let_mil_go.Dependency.Search.Done.{IsDone}
use let_mil_go.Dependency.Search.Closed.{Chain}
use let_mil_go.Dependency.Search.Walking.{
  marks_of, IsWalk, Walked, Arrives, Walked-refl, Walked-trans, record_cycle-Walked, not_stacked,
}
use let_mil_go.Dependency.Search.Verdicts.{names_of, Leads-names_of}

-- where no cycle has been found, the templates of the list are done
abbrev pub DoneUnless : List String → Walk → Type 0
DoneUnless l w = w.cycles ≡ [] → (b : String) → elem b l ≡ true → IsDone (marks_of w) b

pub first_done :
    (g : DependencyGraph) (t : String) (rest : List String) (r s : Walk)
    → (s.cycles ≡ [] → IsDone (marks_of s) t)
    → Walked g r s
    → (p : Option Walk) → Arrives g s (DoneUnless rest) p
    → Arrives g r (DoneUnless (t ∷ rest)) p
first_done g t rest r s done m none h = h
first_done g t rest r s done m (some w) (m', all_done) = (
  Walked-trans g r s w m m',
  λ e b member. elim (Bool-cases (t == b)) [
    | inl same ↦
        let (seen, off) = done (m'.kept e) in
        rw (← (==_iff t b).0 same) (m'.grown t seen, m'.same t ∙ off)
    | inr other ↦ all_done e b (ground (arith, member, other))
  ],
)

-- what the search does at a template that was not visited, with a fuel that is enough
abbrev pub Explores : DependencyGraph → ℕ → (String → Walk → Option Walk) → Type 0
Explores g fuel f =
    (t : String) (w : Walk)
    → IsWalk g w
    → elem t (names_of g) ≡ true
    → is_marked w.visited t ≡ false
    → Chain g w.path t
    → unmarked w.visited (names_of g) ≤ fuel
    → Arrives g w (λ w'. is_marked w'.visited t ≡ true) (f t w)

-- without a path, nothing is on the stack
pub off_stack :
    (g : DependencyGraph) (w : Walk) (t : String)
    → IsWalk g w
    → w.path ≡ []
    → is_marked w.rec_stack t ≡ false
off_stack g w t h at = elim (Bool-cases (is_marked w.rec_stack t)) [
  | inl on ↦ absurd (cc (subst (λ path. elem t path ≡ true) at (h.on_path t on)))
  | inr off ↦ off
]

module _ (g : DependencyGraph) (fuel : ℕ) (f : String → Walk → Option Walk)
    (explores : Explores g fuel f) where
  -- after the call at the first of some templates, by either loop
  pub After-call :
      (t : String) (rest : List String) (w : Walk) (next : Walk → Option Walk)
      → IsWalk g w
      → is_marked w.visited t ≡ false
      → unmarked w.visited (names_of g) ≤ fuel
      → ((w' : Walk)
          → IsWalk g w'
          → w'.path ≡ w.path
          → unmarked w'.visited (names_of g) ≤ fuel
          → Arrives g w' (DoneUnless rest) (next w'))
      → (p : Option Walk) → Arrives g w (λ w'. is_marked w'.visited t ≡ true) p
      → Arrives g w (DoneUnless (t ∷ rest)) (p >>= next)
  After-call t rest w next h new enough go none a = a
  After-call t rest w next h new enough go (some w') (m, seen) =
      first_done g t rest w w' (λ _. (seen, m.same t ∙ not_stacked g w t h new)) m (next w')
        (go w' m.walk m.path
          (le_trans (unmarked_mono w.visited w'.visited (names_of g) m.grown) enough))

  pub walk_edges-Arrives :
      (node : String) (edges : List Edge) (path : List String) (w : Walk)
      → IsWalk g w
      → w.path ≡ path
      → ((b : String) → Leads g node b → Chain g path b)
      → ((b : String) → elem b (targets edges) ≡ true → Leads g node b)
      → unmarked w.visited (names_of g) ≤ fuel
      → Arrives g w (DoneUnless (targets edges)) (walk_edges f edges w)
  unfolding walk_edges
  walk_edges-Arrives node [] path w h at chain leads enough =
      (Walked-refl g w h, λ e b member. absurd (cc member))
  walk_edges-Arrives node (edge ∷ rest) path w h at chain leads enough =
      let t = edge.target in
      let e = leads t (ground (arith, ==-refl t)) in
      let here : Chain g w.path t = rw at (chain t e) in
      let leads' : (b : String) → elem b (targets rest) ≡ true → Leads g node b =
        λ b member. leads b (ground (arith, member)) in
      elim (Bool-cases (is_marked w.visited t)) [
        | inr new ↦
            rw (new, walk_edges)
              (After-call t (targets rest) w (walk_edges f rest) h new enough
                (λ w' h' at'. walk_edges-Arrives node rest path w' h' (at' ∙ at) chain leads')
                (f t w) (explores t w h (Leads-names_of g node t e) new here enough))
        | inl seen ↦ elim (Bool-cases (is_marked w.rec_stack t)) [
          | inl on ↦
              let (m, some_found) = record_cycle-Walked g w t h here on in
              rw (seen, on, walk_edges)
                (first_done g t (targets rest) w (record_cycle t w) (λ e. absurd (some_found e)) m
                  (walk_edges f rest (record_cycle t w))
                  (walk_edges-Arrives node rest path (record_cycle t w) m.walk (m.path ∙ at) chain
                    leads'
                    (le_trans
                      (unmarked_mono w.visited (record_cycle t w).visited (names_of g) m.grown)
                      enough)))
          | inr off ↦
              rw (seen, off, walk_edges)
                (first_done g t (targets rest) w w (λ _. (seen, off)) (Walked-refl g w h)
                  (walk_edges f rest w)
                  (walk_edges-Arrives node rest path w h at chain leads' enough))
        ]
      ]
