-- ===== src/Dependency/Conflicts.antt =====
-- The edges that dependency.go builds for two templates.
use let_mil_go.Common.{
  ◌≡◌, ap, inl, inr, String, Bool, true, ◌&&◌, List, [], ◌∷◌, ◌++◌, arith, All, subst, ◌==◌, ==_iff,
  ==-refl, nat_eq, string_eq, Bool-cases,
}
use let_mil_go.GoMap.Unique.{elem, elem-keys}
use let_mil_go.Template.{TransactionTemplate, has_read, has_write, read_keys, write_keys}
use let_mil_go.Dependency.{
  DependencyType, dep_wr, dep_ww, dep_rw, Edge, DependencyGraph, add_edge, link, relate,
}

-- whether an access of the first template and one of the second conflict on a key
abbrev pub conflict_on : TransactionTemplate → TransactionTemplate → DependencyType → String → Bool
conflict_on t1 t2 dep_wr key = has_write t1 key && has_read t2 key
conflict_on t1 t2 dep_ww key = has_write t1 key && has_write t2 key
conflict_on t1 t2 dep_rw key = has_read t1 key && has_write t2 key

abbrev pub edge : TransactionTemplate → TransactionTemplate → DependencyType → String → Edge
edge t1 t2 dep_type key = record {
  source = t1.name;
  target = t2.name;
  dep_type = dep_type;
  key = key;
}

elem-write_keys :
    (t : TransactionTemplate) (key : String) → elem key (write_keys t) ≡ has_write t key
unfolding write_keys has_write
elem-write_keys t key = elem-keys t.static_writes key

elem-read_keys : (t : TransactionTemplate) (key : String) → elem key (read_keys t) ≡ has_read t key
unfolding read_keys has_read
elem-read_keys t key = elem-keys t.static_reads key

-- A predicate of edges, for all edges of a graph.
module _ (P : Edge → Type 0) where
  All-append : (es : List Edge) (e : Edge) → All P es → P e → All P (es ++ e ∷ [])
  All-append [] e a p = (p, tt)
  All-append (d ∷ ds) e a p = (a.0, All-append ds e a.1 p)

  append-All : (es : List Edge) (e : Edge) → All P (es ++ e ∷ []) → All P es × P e
  append-All [] e a = (tt, a.0)
  append-All (d ∷ ds) e a = let (b, p) = append-All ds e a.1 in ((a.0, b), p)

  module _ (accepts : String → Bool) (dep_type : DependencyType) (source target : String) where
    made : String → Edge
    made key = record { source = source; target = target; dep_type = dep_type; key = key }

    link_sound :
        (keys : List String) (g : DependencyGraph)
        → All P g.edges
        → ((key : String) → elem key keys ≡ true → accepts key ≡ true → P (made key))
        → All P (link accepts dep_type source target keys g).edges
    unfolding link add_edge made
    link_sound [] g a p = a
    link_sound (k ∷ ks) g a p = elim (Bool-cases (accepts k)) [
      | inr miss ↦ rw (link, miss) (link_sound ks g a (λ key there. p key (ground (arith, there))))
      | inl hit ↦
          rw (link, hit)
            (link_sound ks (add_edge g source target dep_type k)
              (All-append g.edges (made k) a (p k (ground (arith, ==-refl k)) hit))
              (λ key there. p key (ground (arith, there))))
    ]

    link_complete :
        (keys : List String) (g : DependencyGraph)
        → All P (link accepts dep_type source target keys g).edges
        → All P g.edges
          × ((key : String) → elem key keys ≡ true → accepts key ≡ true → P (made key))
    unfolding link add_edge made
    link_complete [] g a = (a, λ key there. absurd (ground (arith, there)))
    link_complete (k ∷ ks) g a = elim (Bool-cases (accepts k)) [
      | inr miss ↦
          let (b, q) = link_complete ks g (rw (link, miss) at a) in
          (b, λ key there ok. q key (ground (arith, ==_iff k key, ap accepts)) ok)
      | inl hit ↦
          let (b, q) =
            link_complete ks (add_edge g source target dep_type k) (rw (link, hit) at a) in
          let (c, p) = append-All g.edges (made k) b in
          (
            c,
            λ key there ok. elim (Bool-cases (k == key)) [
              | inl same ↦ subst (λ j. P (made j)) ((==_iff k key).0 same) p
              | inr apart ↦ q key (ground (arith, there, apart)) ok
            ],
          )
    ]

  -- the three loops of one pair
  pub relate_sound :
      (t1 t2 : TransactionTemplate) (g : DependencyGraph)
      → All P g.edges
      → ((ty : DependencyType) (key : String)
          → conflict_on t1 t2 ty key ≡ true
          → P (edge t1 t2 ty key))
      → All P (relate t1 t2 g).edges
  unfolding relate
  relate_sound t1 t2 g a p =
      let wr = link (has_read t2) dep_wr t1.name t2.name (write_keys t1) g in
      let ww = link (has_write t2) dep_ww t1.name t2.name (write_keys t1) wr in
      let wr_ok : All P wr.edges =
        link_sound (has_read t2) dep_wr t1.name t2.name (write_keys t1) g a (λ key there hit.
          unfold made in p dep_wr key (ground (arith, elem-write_keys t1 key, there, hit))) in
      let ww_ok : All P ww.edges =
        link_sound (has_write t2) dep_ww t1.name t2.name (write_keys t1) wr wr_ok (λ key there hit.
          unfold made in p dep_ww key (ground (arith, elem-write_keys t1 key, there, hit))) in
      link_sound (has_write t2) dep_rw t1.name t2.name (read_keys t1) ww ww_ok (λ key there hit.
        unfold made in p dep_rw key (ground (arith, elem-read_keys t1 key, there, hit)))

  pub relate_complete :
      (t1 t2 : TransactionTemplate) (g : DependencyGraph)
      → All P (relate t1 t2 g).edges
      → All P g.edges
        × ((ty : DependencyType) (key : String)
            → conflict_on t1 t2 ty key ≡ true
            → P (edge t1 t2 ty key))
  unfolding relate made
  relate_complete t1 t2 g a =
      let wr = link (has_read t2) dep_wr t1.name t2.name (write_keys t1) g in
      let ww = link (has_write t2) dep_ww t1.name t2.name (write_keys t1) wr in
      let (b, rw_made) = link_complete (has_write t2) dep_rw t1.name t2.name (read_keys t1) ww a in
      let (c, ww_made) = link_complete (has_write t2) dep_ww t1.name t2.name (write_keys t1) wr b in
      let (d, wr_made) = link_complete (has_read t2) dep_wr t1.name t2.name (write_keys t1) g c in
      (d, go rw_made ww_made wr_made)
    where
      go :
          ((key : String)
            → elem key (read_keys t1) ≡ true
            → has_write t2 key ≡ true
            → P (made (has_write t2) dep_rw t1.name t2.name key))
          → ((key : String)
              → elem key (write_keys t1) ≡ true
              → has_write t2 key ≡ true
              → P (made (has_write t2) dep_ww t1.name t2.name key))
          → ((key : String)
              → elem key (write_keys t1) ≡ true
              → has_read t2 key ≡ true
              → P (made (has_read t2) dep_wr t1.name t2.name key))
          → (ty : DependencyType) (key : String) → conflict_on t1 t2 ty key ≡ true
          → P (edge t1 t2 ty key)
      go rw_made ww_made wr_made dep_wr key h =
          unfold made in wr_made key (ground (arith, elem-write_keys t1 key, h)) (ground (arith, h))
      go rw_made ww_made wr_made dep_ww key h =
          unfold made in ww_made key (ground (arith, elem-write_keys t1 key, h)) (ground (arith, h))
      go rw_made ww_made wr_made dep_rw key h =
          unfold made in rw_made key (ground (arith, elem-read_keys t1 key, h)) (ground (arith, h))
