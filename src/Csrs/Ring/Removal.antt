-- ===== src/Csrs/Ring/Removal.antt =====
-- The shards of the keys before and after `RemoveShard` of hash_ring.go.
use let_mil_go.Common.{
  ℕ, suc, ◌≤◌, ◌≡◌, ◌≢◌, refl, ap, ◌∙◌, inl, inr, String, true, false, none, some, List, [], ◌∷◌,
  arith, ◌==◌, ==_iff, nat_eq, string_eq, if◌then◌else◌, Bool-cases, Option-cases,
}
use let_mil_go.GoMap.{Map, get-delete}
use let_mil_go.GoMap
use let_mil_go.Csrs.Ring.{HashRing, contains, or_empty, sweep, remove_shard, get_shard_for_key}
use let_mil_go.Csrs.Ring.Successor.{find, head, successor, owner, get_shard_for_key_lem}

-- ascending from a number, without repetition
abbrev pub Rising : ℕ → List ℕ → Type 0
Rising low [] = Unit {0}
Rising low (x ∷ xs) = (low ≤ x) × Rising (suc x) xs

-- the hashes of the other shards
unfoldable pub kept : String → Map ℕ String → List ℕ → List ℕ
kept t nodes [] = []
kept t nodes (x ∷ xs) =
    let rest = kept t nodes xs in if or_empty (GoMap.get nodes x) == t then rest else x ∷ rest

-- the loop of `RemoveShard` keeps the other shards' hashes and what the map says of them, from any
-- map that agrees on the hashes to come
pub sweep_lem :
    (t : String) (low : ℕ) (ring : List ℕ) (nodes nodes' : Map ℕ String)
    → Rising low ring
    → ((x : ℕ) → low ≤ x → GoMap.get nodes' x ≡ GoMap.get nodes x)
    → ((sweep t ring nodes').0 ≡ kept t nodes ring)
      × ((x : ℕ)
          → or_empty (GoMap.get nodes' x) ≢ t
          → GoMap.get (sweep t ring nodes').1 x ≡ GoMap.get nodes' x)
unfolding sweep kept
sweep_lem t low [] nodes nodes' rise same = (refl, λ x ne. refl)
sweep_lem t low (y ∷ ys) nodes nodes' rise same =
    let here : GoMap.get nodes' y ≡ GoMap.get nodes y = same y rise.0 in
    elim (Bool-cases (or_empty (GoMap.get nodes y) == t)) [
      | inl gone ↦
          let gone' : (or_empty (GoMap.get nodes' y) == t) ≡ true = cc (here, gone) in
          let rest =
            sweep_lem t (suc y) ys nodes (GoMap.delete nodes' y) rise.1
              (λ x above. rw (get-delete nodes' y x) (ground (arith, ==_iff y x, same x))) in
          rw (sweep, kept, gone', gone)
            (
              rest.0,
              λ x ne.
                  let d : GoMap.get (GoMap.delete nodes' y) x ≡ GoMap.get nodes' x =
                    rw (get-delete nodes' y x)
                      (ground (arith, ==_iff y x, ==_iff (or_empty (GoMap.get nodes' y)) t)) in
                  rest.1 x (λ e. ne (cc (d, e))) ∙ d,
            )
      | inr stays ↦
          let rest =
            sweep_lem t (suc y) ys nodes nodes' rise.1
              (λ x above. same x (omega (arith, rise.0))) in
          let stays' : (or_empty (GoMap.get nodes' y) == t) ≡ false = cc (here, stays) in
          rw (sweep, kept, stays', stays) (ap (◌∷◌ y) rest.0, rest.1)
    ]

find-kept :
    (t : String) (nodes : Map ℕ String) (ring : List ℕ) (n x : ℕ)
    → find ring n ≡ some x
    → or_empty (GoMap.get nodes x) ≢ t
    → find (kept t nodes ring) n ≡ some x
unfolding find kept
find-kept t nodes [] n x h ne = ground arith
find-kept t nodes (y ∷ ys) n x h ne =
    ground (arith, find-kept t nodes ys n x, ==_iff (or_empty (GoMap.get nodes y)) t)

find-kept-none :
    (t : String) (nodes : Map ℕ String) (ring : List ℕ) (n : ℕ)
    → find ring n ≡ none
    → find (kept t nodes ring) n ≡ none
unfolding find kept
find-kept-none t nodes [] n h = refl
find-kept-none t nodes (y ∷ ys) n h = ground (arith, find-kept-none t nodes ys n)

head-kept :
    (t : String) (nodes : Map ℕ String) (ring : List ℕ) (x : ℕ)
    → head ring ≡ some x
    → or_empty (GoMap.get nodes x) ≢ t
    → head (kept t nodes ring) ≡ some x
unfolding kept
head-kept t nodes [] x h ne = ground arith
head-kept t nodes (y ∷ ys) x h ne = ground (arith, ==_iff (or_empty (GoMap.get nodes y)) t)

successor-kept :
    (t : String) (nodes : Map ℕ String) (ring : List ℕ) (n x : ℕ)
    → successor ring n ≡ some x
    → or_empty (GoMap.get nodes x) ≢ t
    → successor (kept t nodes ring) n ≡ some x
successor-kept t nodes ring n x h ne = elim (Option-cases (find ring n)) [
  | inl past ↦ rw (find-kept-none t nodes ring n past) (head-kept t nodes ring x (rw past at h) ne)
  | inr (y, there) ↦
      let same : find ring n ≡ some x = cc (there, rw there at h) in
      rw (find-kept t nodes ring n x same ne) refl
]

pub successor-none : (ring : List ℕ) (n : ℕ) → successor ring n ≡ none → ring ≡ []
unfolding find
successor-none [] n h = refl
successor-none (x ∷ xs) n h = elim (Option-cases (find (x ∷ xs) n)) [
  | inl missing ↦ absurd (cc (rw missing at h))
  | inr (y, there) ↦ absurd (cc (rw there at h))
]

-- the shard of a key before and after the sweep
owner-swept :
    (h h' : HashRing) (t : String) (n : ℕ)
    → Rising 0 h.ring
    → h'.ring ≡ (sweep t h.ring h.node_map).0
    → h'.node_map ≡ (sweep t h.ring h.node_map).1
    → owner h (successor h.ring n) ≢ t
    → owner h' (successor h'.ring n) ≡ owner h (successor h.ring n)
owner-swept h h' t n rise ring nodes other =
    let swept = sweep_lem t 0 h.ring h.node_map h.node_map rise (λ x _. refl) in
    let ring' : h'.ring ≡ kept t h.node_map h.ring = ring ∙ swept.0 in
    elim (Option-cases (successor h.ring n)) [
      | inl missing ↦
          let idle : h.ring ≡ [] = successor-none h.ring n missing in
          rw (ring', idle) (unfold kept find in refl)
      | inr (x, there) ↦
          let stays : or_empty (GoMap.get h.node_map x) ≢ t = rw there at other in
          rw
            (
              ring',
              there,
              successor-kept t h.node_map h.ring n x there stays,
              nodes,
              swept.1 x stays,
            )
            refl
    ]

-- On a ring where no hash stands twice, removing a shard moves no key of the other shards: a key that
-- was not the removed shard's keeps its shard.
pub remove_shard-keeps :
    (hash : String → ℕ) (h : HashRing) (t key : String)
    → Rising 0 h.ring
    → get_shard_for_key hash h key ≢ t
    → get_shard_for_key hash (remove_shard h t).1 key ≡ get_shard_for_key hash h key
unfolding remove_shard
remove_shard-keeps hash h t key rise other = elim (Bool-cases (contains h t)) [
  | inr missing ↦ rw (remove_shard, missing) refl
  | inl there ↦
      let h' : HashRing = record h {
        ring = (sweep t h.ring h.node_map).0;
        node_map = (sweep t h.ring h.node_map).1;
        shard_set = GoMap.delete h.shard_set t;
      } in
      rw (remove_shard, there, get_shard_for_key_lem hash h key, get_shard_for_key_lem hash h' key)
        (owner-swept h h' t (hash key) rise refl refl
          (rw (get_shard_for_key_lem hash h key) at other))
]
