-- ===== src/Dependency/Build.antt =====
-- `BuildFromTemplates` of dependency.go: the two loops over the templates, by their indices.
use let_mil_go.Common.{
  ℕ, zero, suc, ◌+◌, ◌≡◌, ◌≢◌, refl, inl, inr, String, true, List, [], ◌∷◌, some, arith, All, subst,
  some-inj, get_elem?, ◌==◌, ==_iff, nat_eq, string_eq, Bool-cases,
}
use let_mil_go.GoMap
use let_mil_go.Template.{TransactionTemplate}
use let_mil_go.Dependency.{
  DependencyType, Edge, DependencyGraph, relate, relate_all, relate_each, build_from_templates,
}
use let_mil_go.Dependency.Conflicts.{conflict_on, edge, relate_sound, relate_complete}

-- what holds at the front of a slice and behind it holds at every index
at_index :
    (Q : ℕ → TransactionTemplate → Type 0) (t : TransactionTemplate) (ts : List TransactionTemplate)
    → Q 0 t
    → ((k : ℕ) (t2 : TransactionTemplate) → get_elem? ts k ≡ some t2 → Q (suc k) t2)
    → (k : ℕ) (t2 : TransactionTemplate) → get_elem? (t ∷ ts) k ≡ some t2
    → Q k t2
at_index Q t ts front behind zero t2 there = subst (Q 0) (some-inj there) front
at_index Q t ts front behind (suc k) t2 there = behind k t2 there

module _ (P : Edge → Type 0) where
  -- every edge that the conflicts of two templates ask for has the property
  abbrev Related : TransactionTemplate → TransactionTemplate → Type 0
  Related t1 t2 =
      (ty : DependencyType) (key : String) → conflict_on t1 t2 ty key ≡ true → P (edge t1 t2 ty key)

  relate_all_sound :
      (i : ℕ) (t1 : TransactionTemplate) (j : ℕ) (ts : List TransactionTemplate)
      (g : DependencyGraph)
      → All P g.edges
      → ((k : ℕ) (t2 : TransactionTemplate) → get_elem? ts k ≡ some t2 → i ≢ j + k → Related t1 t2)
      → All P (relate_all i t1 j ts g).edges
  unfolding relate_all
  relate_all_sound i t1 j [] g a p = a
  relate_all_sound i t1 j (t2 ∷ ts) g a p =
      let later =
        λ (k : ℕ) (t : TransactionTemplate) (there : get_elem? ts k ≡ some t)
            (apart : i ≢ suc j + k).
          p (suc k) t there (λ e. apart (omega (arith, e))) in
      elim (Bool-cases (i == j)) [
        | inl same ↦ rw (relate_all, same) (relate_all_sound i t1 (suc j) ts g a later)
        | inr apart ↦
            rw (relate_all, apart)
              (relate_all_sound i t1 (suc j) ts (relate t1 t2 g)
                (relate_sound P t1 t2 g a (p 0 t2 refl (λ e. ground (arith, ==_iff i j, e)))) later)
      ]

  relate_all_complete :
      (i : ℕ) (t1 : TransactionTemplate) (j : ℕ) (ts : List TransactionTemplate)
      (g : DependencyGraph)
      → All P (relate_all i t1 j ts g).edges
      → All P g.edges
        × ((k : ℕ) (t2 : TransactionTemplate)
            → get_elem? ts k ≡ some t2
            → i ≢ j + k
            → Related t1 t2)
  unfolding relate_all
  relate_all_complete i t1 j [] g a = (a, λ k t2 there. absurd (ground arith))
  relate_all_complete i t1 j (t2 ∷ ts) g a = elim (Bool-cases (i == j)) [
    | inl same ↦
        let (b, later) = relate_all_complete i t1 (suc j) ts g (rw (relate_all, same) at a) in
        (
          b,
          at_index (λ k t. i ≢ j + k → Related t1 t) t2 ts
              (λ apart. absurd (apart (ground (arith, ==_iff i j))))
              (λ k t there apart. later k t there (λ e. apart (omega (arith, e)))),
        )
    | inr apart ↦
        let (b, later) =
          relate_all_complete i t1 (suc j) ts (relate t1 t2 g) (rw (relate_all, apart) at a) in
        let (c, here) = relate_complete P t1 t2 g b in
        (
          c,
          at_index (λ k t. i ≢ j + k → Related t1 t) t2 ts (λ _. here)
              (λ k t there other. later k t there (λ e. other (omega (arith, e)))),
        )
  ]

  relate_each_sound :
      (templates : List TransactionTemplate) (i : ℕ) (ts : List TransactionTemplate)
      (g : DependencyGraph)
      → All P g.edges
      → ((m k : ℕ) (t1 t2 : TransactionTemplate)
          → get_elem? ts m ≡ some t1
          → get_elem? templates k ≡ some t2
          → i + m ≢ k
          → Related t1 t2)
      → All P (relate_each templates i ts g).edges
  unfolding relate_each
  relate_each_sound templates i [] g a p = a
  relate_each_sound templates i (t1 ∷ ts) g a p =
      relate_each_sound templates (suc i) ts (relate_all i t1 0 templates g)
        (relate_all_sound i t1 0 templates g a
          (λ k t2 there apart. p 0 k t1 t2 refl there (λ e. apart (omega (arith, e)))))
        (λ m k t t2 at_m at_k apart. p (suc m) k t t2 at_m at_k (λ e. apart (omega (arith, e))))

  relate_each_complete :
      (templates : List TransactionTemplate) (i : ℕ) (ts : List TransactionTemplate)
      (g : DependencyGraph)
      → All P (relate_each templates i ts g).edges
      → All P g.edges
        × ((m : ℕ) (t1 : TransactionTemplate)
            → get_elem? ts m ≡ some t1
            → (k : ℕ) (t2 : TransactionTemplate) → get_elem? templates k ≡ some t2
            → i + m ≢ k
            → Related t1 t2)
  unfolding relate_each
  relate_each_complete templates i [] g a = (a, λ m t1 there. absurd (ground arith))
  relate_each_complete templates i (t1 ∷ ts) g a =
      let (b, later) =
        relate_each_complete templates (suc i) ts (relate_all i t1 0 templates g) a in
      let (c, here) = relate_all_complete i t1 0 templates g b in
      (
        c,
        at_index
            (λ m t.
              (k : ℕ) (t2 : TransactionTemplate)
              → get_elem? templates k ≡ some t2
              → i + m ≢ k
              → Related t t2)
            t1 ts (λ k t2 there apart. here k t2 there (λ e. apart (omega (arith, e))))
            (λ m t there k t2 at_k apart.
              later m t there k t2 at_k (λ e. apart (omega (arith, e)))),
      )

-- an edge comes from a conflict of two templates at different places of a list
pub record IsConflict (templates : List TransactionTemplate) (e : Edge) : Type 0 where
  pub first : ℕ
  pub second : ℕ
  pub t1 : TransactionTemplate
  pub t2 : TransactionTemplate
  pub at_first : get_elem? templates first ≡ some t1
  pub at_second : get_elem? templates second ≡ some t2
  pub apart : first ≢ second
  pub conflict : conflict_on t1 t2 e.dep_type e.key ≡ true
  pub names : e ≡ edge t1 t2 e.dep_type e.key

-- `BuildFromTemplates` adds only edges that come from a conflict of two different templates of the
-- graph: if the edges before do, then all edges after do.
pub build_from_templates_sound :
    (g : DependencyGraph)
    → All (IsConflict (GoMap.values g.nodes)) g.edges
    → All (IsConflict (GoMap.values g.nodes)) (build_from_templates g).edges
unfolding build_from_templates
build_from_templates_sound g a =
    let ts = GoMap.values g.nodes in
    relate_each_sound (IsConflict ts) ts 0 ts g a (λ m k t1 t2 at_m at_k apart ty key hit. record {
      first = m;
      second = k;
      t1 = t1;
      t2 = t2;
      at_first = at_m;
      at_second = at_k;
      apart = λ e. apart (omega (arith, e));
      conflict = hit;
      names = refl;
    })

-- where an edge stands in a list
abbrev pub IsListed : Edge → List Edge → Type 0
IsListed e es = (k : ℕ) × (get_elem? es k ≡ some e)

All-later :
    (es : List Edge) (d : Edge) (xs : List Edge)
    → All (λ e. IsListed e es) xs
    → All (λ e. IsListed e (d ∷ es)) xs
All-later es d [] a = tt
All-later es d (x ∷ xs) a = let (k, there) = a.0 in ((suc k, there), All-later es d xs a.1)

All-IsListed : (es : List Edge) → All (λ e. IsListed e es) es
All-IsListed [] = tt
All-IsListed (e ∷ es) = ((0, refl), All-later es e es (All-IsListed es))

-- `BuildFromTemplates` adds them all: for every conflict of two templates at different places of the
-- graph, on any key and of any of the three types, there is an edge from the first to the second.
pub build_from_templates_complete :
    (g : DependencyGraph) (m k : ℕ) (t1 t2 : TransactionTemplate) (ty : DependencyType)
    (key : String)
    → get_elem? (GoMap.values g.nodes) m ≡ some t1
    → get_elem? (GoMap.values g.nodes) k ≡ some t2
    → m ≢ k
    → conflict_on t1 t2 ty key ≡ true
    → IsListed (edge t1 t2 ty key) (build_from_templates g).edges
unfolding build_from_templates
build_from_templates_complete g m k t1 t2 ty key at_m at_k apart hit =
    let ts = GoMap.values g.nodes in
    let es = (relate_each ts 0 ts g).edges in
    let (_, made) = relate_each_complete (λ e. IsListed e es) ts 0 ts g (All-IsListed es) in
    made m t1 at_m k t2 at_k (λ e. apart (omega (arith, e))) ty key hit
