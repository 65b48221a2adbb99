-- ===== src/Dependency/Search/Reach.antt =====
-- The paths of the dependency graph, and the marks of its searches.
use let_mil_go.Common.{
  ◌≤◌, ◌<◌, ℕ, suc, ◌≡◌, refl, inl, inr, String, Bool, true, false, List, [], ◌∷◌, arith, length,
  ◌==◌, ==_iff, nat_eq, string_eq, if◌then◌else◌, Bool-cases,
}
use let_mil_go.GoMap.{Map, get-put, get-empty}
use let_mil_go.GoMap
use let_mil_go.GoMap.Unique.{elem}
use let_mil_go.Dependency.{Edge, DependencyGraph}
use let_mil_go.Dependency.Search.{is_marked, edges_at}

-- the templates that edges lead to
abbrev pub targets : List Edge → List String
targets [] = []
targets (edge ∷ rest) = edge.target ∷ targets rest

-- an edge leads from the one template to the other
abbrev pub Leads : DependencyGraph → String → String → Type 0
Leads g a b = elem b (targets (edges_at g a)) ≡ true

-- a path of one edge or more
pub data Reaches (g : DependencyGraph) : String → String → Type 0 where
  edge_to : (a b : String) → Leads g a b → Reaches g a b
  step_to : (a b c : String) → Leads g a b → Reaches g b c → Reaches g a c

pub Reaches-trans :
    (g : DependencyGraph) (a b c : String) → Reaches g a b → Reaches g b c → Reaches g a c
Reaches-trans g a b c (edge_to _ _ e) q = step_to a b c e q
Reaches-trans g a b c (step_to _ d _ e p) q = step_to a d c e (Reaches-trans g d b c p q)

pub is_marked-put :
    (m : Map String Bool) (k t : String) (v : Bool)
    → is_marked (GoMap.put m k v) t ≡ (if k == t then v else is_marked m t)
unfolding is_marked
is_marked-put m k t v = ground (arith, get-put m k t v)

pub is_marked-empty : (t : String) → is_marked GoMap.empty t ≡ false
unfolding is_marked
is_marked-empty t = rw (is_marked, get-empty {K = String} {V = Bool} t) refl

-- how many of a list are not marked
abbrev pub unmarked : Map String Bool → List String → ℕ
unmarked m [] = 0
unmarked m (t ∷ l) = if is_marked m t then unmarked m l else suc (unmarked m l)

pub unmarked-le_length : (m : Map String Bool) (l : List String) → unmarked m l ≤ length l
unmarked-le_length m [] = omega arith
unmarked-le_length m (t ∷ l) = ground (arith, unmarked-le_length m l)

-- More marks leave no more without one.
pub unmarked_mono :
    (m m' : Map String Bool) (l : List String)
    → ((t : String) → is_marked m t ≡ true → is_marked m' t ≡ true)
    → unmarked m' l ≤ unmarked m l
unmarked_mono m m' [] h = omega arith
unmarked_mono m m' (t ∷ l) h = ground (arith, unmarked_mono m m' l h, h t)

-- A new mark on one of the list leaves fewer.
pub unmarked-put_lt :
    (m : Map String Bool) (k : String) (l : List String)
    → elem k l ≡ true
    → is_marked m k ≡ false
    → unmarked (GoMap.put m k true) l < unmarked m l
unmarked-put_lt m k [] h new = absurd (cc h)
unmarked-put_lt m k (t ∷ l) h new = elim (Bool-cases (t == k)) [
  | inl same ↦ ground (
    arith,
    is_marked-put m k t true,
    ==_iff t k,
    ==_iff k t,
    same,
    new,
    unmarked_mono m (GoMap.put m k true) l (λ u old. ground (arith, is_marked-put m k u true, old)),
  )
  | inr other ↦ ground (
    arith,
    is_marked-put m k t true,
    ==_iff t k,
    ==_iff k t,
    other,
    new,
    h,
    unmarked-put_lt m k l (ground (arith, h, other)) new,
  )
]
