-- ===== src/Dependency/Search/Closed.antt =====
-- The path that `FindCycles` of dependency.go keeps, and the cycles that it cuts out of it.
use let_mil_go.Common.{
  ℕ, zero, suc, ◌-◌, ◌≡◌, refl, sym, ap, subst, inl, inr, String, true, some, List, [], ◌∷◌, ◌++◌,
  arith, length, take, drop, length-append, ◌==◌, ==_iff, string_eq, Bool-cases,
}
use let_mil_go.GoMap.Unique.{elem}
use let_mil_go.Dependency.{DependencyGraph}
use let_mil_go.Dependency.Search.{index_of}
use let_mil_go.Dependency.Search.Reach.{Leads, Reaches, edge_to, step_to}

-- from `a` over the listed templates to `z`, each step along an edge
abbrev pub ChainTo : DependencyGraph → String → List String → String → Type 0
ChainTo g a [] z = Leads g a z
ChainTo g a (b ∷ rest) z = Leads g a b × ChainTo g b rest z

abbrev pub Chain : DependencyGraph → List String → String → Type 0
Chain g [] z = Unit
Chain g (a ∷ rest) z = ChainTo g a rest z

-- a list of templates, each with an edge to the next and the last with one to the first
abbrev pub IsCycle : DependencyGraph → List String → Type 0
IsCycle g [] = ⊥
IsCycle g (a ∷ rest) = ChainTo g a rest a

ChainTo-append :
    (g : DependencyGraph) (a : String) (rest : List String) (t z : String)
    → ChainTo g a rest t
    → Leads g t z
    → ChainTo g a (rest ++ t ∷ []) z
ChainTo-append g a [] t z e last = (e, last)
ChainTo-append g a (b ∷ rest) t z (e, c) last = (e, ChainTo-append g b rest t z c last)

-- A path that leads to a template leads on along its edges.
pub Chain-append :
    (g : DependencyGraph) (path : List String) (t z : String)
    → Chain g path t
    → Leads g t z
    → Chain g (path ++ t ∷ []) z
Chain-append g [] t z c last = last
Chain-append g (a ∷ rest) t z c last = ChainTo-append g a rest t z c last

Chain-tail :
    (g : DependencyGraph) (a : String) (rest : List String) (z : String)
    → ChainTo g a rest z
    → Chain g rest z
Chain-tail g a [] z c = tt
Chain-tail g a (b ∷ rest) z c = c.1

-- A path that leads to a template on it closes a cycle there.
pub index_of-IsCycle :
    (g : DependencyGraph) (path : List String) (t : String)
    → Chain g path t
    → elem t path ≡ true
    → (i : ℕ) × (index_of t path ≡ some i) × IsCycle g (drop i path)
index_of-IsCycle g [] t c member = absurd (cc member)
index_of-IsCycle g (a ∷ rest) t c member = elim (Bool-cases (a == t)) [
  | inl same ↦ (zero, rw same refl, subst (ChainTo g a rest) (sym ((==_iff a t).0 same)) c)
  | inr other ↦
      let (i, found, closed) =
        index_of-IsCycle g rest t (Chain-tail g a rest t c) (ground (arith, member, other)) in
      (suc i, rw (other, found) refl, closed)
]

-- path[:len(path)-1] takes back what was appended.
pub take-append_one :
    (path : List String) (t : String) → take (length (path ++ t ∷ []) - 1) (path ++ t ∷ []) ≡ path
take-append_one [] t = refl
take-append_one (a ∷ rest) t =
    let more : length ((a ∷ rest) ++ t ∷ []) - 1 ≡ suc (length (rest ++ t ∷ []) - 1) =
      omega (arith, length-append rest (t ∷ [])) in
    rw more (ap (◌∷◌ a) (take-append_one rest t))

ChainTo-Reaches :
    (g : DependencyGraph) (a : String) (rest : List String) (z : String)
    → ChainTo g a rest z
    → Reaches g a z
ChainTo-Reaches g a [] z e = edge_to a z e
ChainTo-Reaches g a (b ∷ rest) z (e, c) = step_to a b z e (ChainTo-Reaches g b rest z c)
