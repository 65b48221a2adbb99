-- ===== src/Dependency/Search/Done.antt =====
-- What the searches of the dependency graph keep: a template whose `dfs` has returned is on no cycle.
use let_mil_go.Common.{
  ◌≡◌, refl, ◌∙◌, ◌⊎◌, inl, inr, String, true, false, arith, ◌==◌, ==_iff, ==-refl, nat_eq,
  string_eq, Bool-cases,
}
use let_mil_go.GoMap.{Map}
use let_mil_go.GoMap
use let_mil_go.Dependency.{DependencyGraph}
use let_mil_go.Dependency.Search.{
  is_marked, Verdict, cyclic, no_cycle, out_of_fuel, Marks, enter, leave,
}
use let_mil_go.Dependency.Search.Reach.{Leads, Reaches, edge_to, step_to, is_marked-put}

-- visited, and its `dfs` has returned
abbrev pub IsDone : Marks → String → Type 0
IsDone s t = (is_marked s.visited t ≡ true) × (is_marked s.rec_stack t ≡ false)

pub record IsSearch (g : DependencyGraph) (s : Marks) : Type 0 where
  pub closed : (a b : String) → IsDone s a → Leads g a b → IsDone s b
  pub on_no_cycle : (a : String) → IsDone s a → ¬ Reaches g a a
  pub stacked : (t : String) → is_marked s.rec_stack t ≡ true → is_marked s.visited t ≡ true

-- from before to after a call that has found no cycle
pub record Moved (g : DependencyGraph) (s s' : Marks) : Type 0 where
  pub search : IsSearch g s'
  pub same : (t : String) → is_marked s'.rec_stack t ≡ is_marked s.rec_stack t
  pub grown : (t : String) → is_marked s.visited t ≡ true → is_marked s'.visited t ≡ true

-- what a call returns: a cycle is there, or the search has moved on and `P` holds; it does not run out
abbrev pub After : DependencyGraph → Marks → (Marks → Type 0) → Verdict × Marks → Type 0
After g s P (cyclic, _) = (n : String) × Reaches g n n
After g s P (no_cycle, s') = Moved g s s' × P s'
After g s P (out_of_fuel, _) = ⊥

pub IsDone-Reaches :
    (g : DependencyGraph) (s : Marks) (a c : String)
    → IsSearch g s
    → IsDone s a
    → Reaches g a c
    → IsDone s c
IsDone-Reaches g s a c h d (edge_to _ _ e) = h.closed a c d e
IsDone-Reaches g s a c h d (step_to _ b _ e p) = IsDone-Reaches g s b c h (h.closed a b d e) p

pub Moved-refl : (g : DependencyGraph) (s : Marks) → IsSearch g s → Moved g s s
Moved-refl g s h = record { search = h; same = λ t. refl; grown = λ t v. v }

pub Moved-trans : (g : DependencyGraph) (r s t : Marks) → Moved g r s → Moved g s t → Moved g r t
Moved-trans g r s t m n = record {
  search = n.search;
  same = λ u. n.same u ∙ m.same u;
  grown = λ u v. n.grown u (m.grown u v);
}

pub IsDone-Moved :
    (g : DependencyGraph) (s s' : Marks) (t : String) → Moved g s s' → IsDone s t → IsDone s' t
IsDone-Moved g s s' t m d = (m.grown t d.0, m.same t ∙ d.1)

-- not visited, so not on the stack
pub not_stacked :
    (g : DependencyGraph) (s : Marks) (t : String)
    → IsSearch g s
    → is_marked s.visited t ≡ false
    → is_marked s.rec_stack t ≡ false
not_stacked g s t h new = elim (Bool-cases (is_marked s.rec_stack t)) [
  | inl on ↦ absurd (cc (h.stacked t on, new))
  | inr off ↦ off
]

-- a template that a call has visited is done
pub IsDone-visited :
    (g : DependencyGraph) (s s' : Marks) (t : String)
    → IsSearch g s
    → is_marked s.visited t ≡ false
    → Moved g s s'
    → is_marked s'.visited t ≡ true
    → IsDone s' t
IsDone-visited g s s' t h new m v = (v, m.same t ∙ not_stacked g s t h new)

-- entering a template that was not visited
pub enter-IsSearch :
    (g : DependencyGraph) (t : String) (s : Marks)
    → IsSearch g s
    → is_marked s.visited t ≡ false
    → IsSearch g (enter t s)
unfolding enter
enter-IsSearch g t s h new =
    let before : (a : String) → IsDone (enter t s) a → IsDone s a =
      unfold enter in
      λ a d.
        ground
          (arith, is_marked-put s.visited t a true, is_marked-put s.rec_stack t a true, d.0, d.1) in
    record {
      closed = λ a b d e.
          let done = h.closed a b (before a d) e in
          ground (
            arith,
            is_marked-put s.visited t b true,
            is_marked-put s.rec_stack t b true,
            done.0,
            done.1,
            new,
            ==_iff t b,
          );
      on_no_cycle = λ a d. h.on_no_cycle a (before a d);
      stacked = λ a on. ground (
        arith,
        is_marked-put s.visited t a true,
        is_marked-put s.rec_stack t a true,
        on,
        h.stacked a,
      );
    }

-- no path from a template whose edges lead to done ones comes to one that is on the stack
off_path :
    (g : DependencyGraph) (s : Marks) (a c : String)
    → IsSearch g s
    → ((b : String) → Leads g a b → IsDone s b)
    → is_marked s.rec_stack c ≡ true
    → ¬ Reaches g a c
off_path g s a c h targets_done on (edge_to _ _ e) = cc ((targets_done c e).1, on)
off_path g s a c h targets_done on (step_to _ b _ e p) =
    let done = IsDone-Reaches g s b c h (targets_done b e) p in cc (done.1, on)

-- the marks at the end of `dfs`
abbrev left : Marks → String → Marks
left s t = record s { rec_stack = GoMap.put s.rec_stack t false }

IsDone-left : (s : Marks) (t a : String) → IsDone s a → IsDone (left s t) a
IsDone-left s t a d = (d.0, ground (arith, is_marked-put s.rec_stack t a false, d.1))

left_cases : (s : Marks) (t a : String) → IsDone (left s t) a → (t ≡ a) ⊎ IsDone s a
left_cases s t a d = elim (Bool-cases (t == a)) [
  | inl same ↦ inl ((==_iff t a).0 same)
  | inr other ↦ inr (d.0, ground (arith, is_marked-put s.rec_stack t a false, d.1, other))
]

left-IsSearch :
    (g : DependencyGraph) (t : String) (s : Marks)
    → IsSearch g s
    → is_marked s.visited t ≡ true
    → is_marked s.rec_stack t ≡ true
    → ((b : String) → Leads g t b → IsDone s b)
    → IsSearch g (left s t)
left-IsSearch g t s h seen on targets_done = record {
  closed = λ a b d e. IsDone-left s t b (elim (left_cases s t a d) [
    | inl same ↦ targets_done b (rw same e)
    | inr done ↦ h.closed a b done e
  ]);
  on_no_cycle = λ a d p. elim (left_cases s t a d) [
    | inl same ↦ off_path g s a a h (λ b e. targets_done b (rw same e)) (rw (← same) on) p
    | inr done ↦ h.on_no_cycle a done p
  ];
  stacked = λ a. ground (arith, is_marked-put s.rec_stack t a false, h.stacked a);
}

-- leaving a template all of whose edges lead to templates that are done
pub leave-Moved :
    (g : DependencyGraph) (t : String) (s s' : Marks)
    → IsSearch g s
    → is_marked s.visited t ≡ false
    → Moved g (enter t s) s'
    → ((b : String) → Leads g t b → IsDone s' b)
    → After g s (λ u. is_marked u.visited t ≡ true) (leave t s')
unfolding enter
leave-Moved g t s s' h new m targets_done =
    let seen : is_marked s'.visited t ≡ true =
      m.grown t (ground (arith, is_marked-put s.visited t t true, ==-refl t)) in
    let on : is_marked s'.rec_stack t ≡ true =
      m.same t ∙ ground (arith, is_marked-put s.rec_stack t t true, ==-refl t) in
    (
      record {
        search = left-IsSearch g t s' m.search seen on targets_done;
        same = λ u. ground (
          arith,
          is_marked-put s'.rec_stack t u false,
          is_marked-put s.rec_stack t u true,
          m.same u,
          not_stacked g s t h new,
          ==_iff t u,
        );
        grown = λ u v. m.grown u (ground (arith, is_marked-put s.visited t u true, v));
      },
      seen,
    )
