-- ===== src/Dependency/Search/Walking.antt =====
-- What the search of `FindCycles` in dependency.go keeps.
use let_mil_go.Common.{
  ◌-◌, ◌≡◌, refl, sym, subst, ◌∙◌, inl, inr, String, true, false, Option, none, some, List, [], ◌∷◌,
  ◌++◌, arith, length, take, drop, ==_iff, ==-refl, nat_eq, string_eq, Bool-cases, All,
}
use let_mil_go.GoMap.{Map}
use let_mil_go.GoMap
use let_mil_go.GoMap.Unique.{elem, elem-append_one}
use let_mil_go.Dependency.{DependencyGraph}
use let_mil_go.Dependency.Search.{is_marked, Marks, enter, Walk, record_cycle, advance, retreat}
use let_mil_go.Dependency.Search.Reach.{Leads, is_marked-put}
use let_mil_go.Dependency.Search.Done.{IsDone, IsSearch, Moved, enter-IsSearch, leave-Moved}
use let_mil_go.Dependency.Search.Closed.{Chain, IsCycle, index_of-IsCycle, take-append_one}

-- the marks of a walk, those that `HasCycle` keeps too
abbrev pub marks_of : Walk → Marks
marks_of w = record { visited = w.visited; rec_stack = w.rec_stack }

pub record IsWalk (g : DependencyGraph) (w : Walk) : Type 0 where
  pub stacked : (u : String) → is_marked w.rec_stack u ≡ true → is_marked w.visited u ≡ true
  pub on_path : (u : String) → is_marked w.rec_stack u ≡ true → elem u w.path ≡ true
  pub closed : All (IsCycle g) w.cycles

-- from before to after a call
pub record Walked (g : DependencyGraph) (w w' : Walk) : Type 0 where
  pub walk : IsWalk g w'
  pub path : w'.path ≡ w.path
  pub same : (u : String) → is_marked w'.rec_stack u ≡ is_marked w.rec_stack u
  pub grown : (u : String) → is_marked w.visited u ≡ true → is_marked w'.visited u ≡ true
  pub kept : w'.cycles ≡ [] → w.cycles ≡ []
  pub search : w'.cycles ≡ [] → IsSearch g (marks_of w) → IsSearch g (marks_of w')

-- what a call returns: it does not run out, and `P` holds of the walk after
abbrev pub Arrives : DependencyGraph → Walk → (Walk → Type 0) → Option Walk → Type 0
Arrives g w P none = ⊥
Arrives g w P (some w') = Walked g w w' × P w'

pub Walked-refl : (g : DependencyGraph) (w : Walk) → IsWalk g w → Walked g w w
Walked-refl g w h = record {
  walk = h;
  path = refl;
  same = λ u. refl;
  grown = λ u v. v;
  kept = λ e. e;
  search = λ _ s. s;
}

pub Walked-trans : (g : DependencyGraph) (r s t : Walk) → Walked g r s → Walked g s t → Walked g r t
Walked-trans g r s t m n = record {
  walk = n.walk;
  path = n.path ∙ m.path;
  same = λ u. n.same u ∙ m.same u;
  grown = λ u v. n.grown u (m.grown u v);
  kept = λ e. m.kept (n.kept e);
  search = λ e h. n.search e (m.search (n.kept e) h);
}

-- where no cycle has been found, a walk moves the marks as `HasCycle` does
pub Walked-Moved :
    (g : DependencyGraph) (w w' : Walk)
    → Walked g w w'
    → w'.cycles ≡ []
    → IsSearch g (marks_of w)
    → Moved g (marks_of w) (marks_of w')
Walked-Moved g w w' m e h = record { search = m.search e h; same = m.same; grown = m.grown }

All-append :
    (g : DependencyGraph) (cs : List (List String)) (c : List String)
    → All (IsCycle g) cs
    → IsCycle g c
    → All (IsCycle g) (cs ++ c ∷ [])
All-append g [] c a h = (h, tt)
All-append g (d ∷ cs) c (k, a) h = (k, All-append g cs c a h)

append_nonempty : (cs : List (List String)) (c : List String) → (cs ++ c ∷ [] ≡ []) → ⊥
append_nonempty [] c e = cc e
append_nonempty (d ∷ cs) c e = cc e

-- an edge back to the stack: its cycle is added, and there is one
pub record_cycle-Walked :
    (g : DependencyGraph) (w : Walk) (t : String)
    → IsWalk g w
    → Chain g w.path t
    → is_marked w.rec_stack t ≡ true
    → Walked g w (record_cycle t w) × ¬ ((record_cycle t w).cycles ≡ [])
unfolding record_cycle
record_cycle-Walked g w t h c on =
    let (i, found, closed) = index_of-IsCycle g w.path t c (h.on_path t on) in
    rw (found, record_cycle)
      (
        record {
          walk = record {
            stacked = h.stacked;
            on_path = h.on_path;
            closed = All-append g w.cycles (drop i w.path) h.closed closed;
          };
          path = refl;
          same = λ u. refl;
          grown = λ u v. v;
          kept = λ e. absurd (append_nonempty w.cycles (drop i w.path) e);
          search = λ e s. s;
        },
        append_nonempty w.cycles (drop i w.path),
      )

pub not_stacked :
    (g : DependencyGraph) (w : Walk) (t : String)
    → IsWalk g w
    → is_marked w.visited t ≡ false
    → is_marked w.rec_stack t ≡ false
not_stacked g w t h new = elim (Bool-cases (is_marked w.rec_stack t)) [
  | inl on ↦ absurd (cc (h.stacked t on, new))
  | inr off ↦ off
]

pub advance-IsWalk :
    (g : DependencyGraph) (t : String) (w : Walk) → IsWalk g w → IsWalk g (advance t w)
unfolding advance
advance-IsWalk g t w h = record {
  stacked = λ u.
      ground
        (arith, is_marked-put w.rec_stack t u true, is_marked-put w.visited t u true, h.stacked u);
  on_path = λ u.
      ground (arith, is_marked-put w.rec_stack t u true, elem-append_one u t w.path, h.on_path u);
  closed = h.closed;
}

-- the end of the nested call
pub retreat-Walked :
    (g : DependencyGraph) (t : String) (w w' : Walk)
    → IsWalk g w
    → is_marked w.visited t ≡ false
    → Walked g (advance t w) w'
    → (w'.cycles ≡ [] → (b : String) → Leads g t b → IsDone (marks_of w') b)
    → Walked g w (retreat t w') × (is_marked (retreat t w').visited t ≡ true)
unfolding advance retreat enter
retreat-Walked g t w w' h new m targets_done =
    let back : take (length w'.path - 1) w'.path ≡ w.path =
      rw (m.path) (take-append_one w.path t) in
    let same : (u : String)
        → is_marked (GoMap.put w'.rec_stack t false) u ≡ is_marked w.rec_stack u =
      λ u. ground (
        arith,
        is_marked-put w'.rec_stack t u false,
        is_marked-put w.rec_stack t u true,
        m.same u,
        not_stacked g w t h new,
        ==_iff t u,
      ) in
    (
      record {
        walk = record {
          stacked = λ u. ground (arith, is_marked-put w'.rec_stack t u false, m.walk.stacked u);
          on_path = λ u on.
              subst (λ path. elem u path ≡ true) (sym back) (h.on_path u (sym (same u) ∙ on));
          closed = m.walk.closed;
        };
        path = back;
        same = same;
        grown = λ u v. m.grown u (ground (arith, is_marked-put w.visited t u true, v));
        kept = m.kept;
        search = λ e s.
            (leave-Moved g t (marks_of w) (marks_of w') s new
              (Walked-Moved g (advance t w) w' m e (enter-IsSearch g t (marks_of w) s new))
              (targets_done e)).0.search;
      },
      m.grown t (ground (arith, is_marked-put w.visited t t true, ==-refl t)),
    )
