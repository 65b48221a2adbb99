-- ===== src/Csrs/Ring/Walk.antt =====
-- `GetNShards` of hash_ring.go ends: one round of the ring meets every shard that has a place on it.
use native.Mathlib.Nat.{le_trans}
use let_mil_go.Common.{
  ℕ, zero, suc, ◌+◌, ◌%◌, ◌≤◌, ◌<◌, ◌≡◌, ◌≢◌, refl, inl, inr, String, Bool, true, false, some, List,
  [], ◌∷◌, ◌++◌, length, get_elem?-some, ltb, arith, ◌==◌, nat_eq, string_eq, Bool-cases,
  Option-cases,
}
use let_mil_go.GoMap.{Map, is_some, get-put, get-empty}
use let_mil_go.GoMap
use let_mil_go.GoMap.Unique.{elem, IsUnique}
use let_mil_go.GoMap.Size.{len-zero_of_get}
use let_mil_go.GoMap.Unique.Pigeons.{NoRepeats, len-le}
use let_mil_go.Csrs.Registry.{pos}
use let_mil_go.Csrs.Ring.{HashRing, or_empty, or_false, search}
use let_mil_go.Csrs.Ring.Replicas.{Picked, picked, pick, owner_at, at_most, get_n_shards}
use let_mil_go.Csrs.Ring.Steps.{steps_to, Owns, IsWalking, walk_old, walk_new}

-- how the walk ends
abbrev pub Ends : HashRing → ℕ → Picked → Type 0
Ends h n out =
    (rs : List String) × (out ≡ picked rs)
    × (length rs ≡ n)
    × NoRepeats rs
    × ((t : String) → elem t rs ≡ true → Owns h t)

module _ (h : HashRing) (n : ℕ) (unique : IsUnique h.shard_set) (enough : n ≤ GoMap.len h.shard_set)
    (placed : (t : String) → is_some (GoMap.get h.shard_set t) ≡ true → Owns h t) where
  -- with no place left, every shard has been met
  all_met :
      (idx : ℕ) (result : List String) (seen : Map String Bool)
      → IsWalking h n idx result seen 0
      → n ≤ length result
  all_met idx result seen w = le_trans enough (
      len-le h.shard_set result unique (λ t known.
        let (p, lt, own) = placed t known in
        elim (w.ahead t p lt own) [ inl met ↦ met | inr (i, below, _) ↦ absurd (omega arith) ]))

  walk-Ends :
      (fuel left idx : ℕ) (result : List String) (seen : Map String Bool)
      → left < fuel
      → IsWalking h n idx result seen left
      → Ends h n (pick fuel h n idx result seen)
  unfolding pick
  walk-Ends zero left idx result seen lt w = absurd (omega arith)
  walk-Ends (suc fuel) zero idx result seen lt w =
      let full : ltb (length result) n ≡ false = ground (arith, all_met idx result seen w) in
      rw (full, pick) (result, refl, ground (arith, full, w.short), w.fresh, w.owned)
  walk-Ends (suc fuel) (suc left) idx result seen lt w = elim (Bool-cases (ltb (length result) n)) [
    | inr full ↦ rw (full, pick) (result, refl, ground (arith, full, w.short), w.fresh, w.owned)
    | inl room ↦
        let (node, found) = get_elem?-some h.ring idx w.here in
        let sid = or_empty (GoMap.get h.node_map node) in
        let at : owner_at h idx ≡ some sid = unfold owner_at in rw (found, owner_at) refl in
        elim (Bool-cases (or_false (GoMap.get seen sid))) [
          | inl old ↦
              rw (room, pick, at, old)
                (walk-Ends fuel left ((idx + 1) % length h.ring) result seen (omega arith)
                  (walk_old h n idx left result seen sid at old w))
          | inr new ↦
              rw (room, pick, at, new)
                (walk-Ends fuel left ((idx + 1) % length h.ring) (result ++ sid ∷ [])
                  (GoMap.put seen sid true) (omega arith)
                  (walk_new h n idx left result seen sid at new (ground (arith, room)) w))
        ]
  ]

-- the search ends at a place of the ring
pub search-lt : (h : HashRing) (k : ℕ) → 0 < length h.ring → search h k < length h.ring
unfolding search
search-lt h k nonempty = ground arith

-- a ring on which its shards have places is not empty, unless it has no shard
ring_pos :
    (h : HashRing)
    → ((t : String) → is_some (GoMap.get h.shard_set t) ≡ true → Owns h t)
    → GoMap.len h.shard_set ≢ 0
    → 0 < length h.ring
ring_pos h placed some_shard = elim (Bool-cases (ltb 0 (length h.ring))) [
  | inl full ↦ ground (arith, full)
  | inr empty ↦ absurd (
      some_shard (
        len-zero_of_get h.shard_set (λ t. elim (Option-cases (GoMap.get h.shard_set t)) [
          | inl missing ↦ missing
          | inr (b, found) ↦
              let (p, lt, _) = placed t (rw found refl) in absurd (ground (arith, empty))
        ])))
]

start_walk :
    (h : HashRing) (n idx : ℕ)
    → idx < length h.ring
    → IsWalking h n idx [] GoMap.empty (length h.ring)
start_walk h n idx lt = record {
  here = lt;
  same = λ t. rw get-empty refl;
  fresh = tt;
  short = omega arith;
  owned = λ t e. absurd (cc e);
  ahead = λ t p below own. inr (steps_to h idx p lt below);
}

-- Where every shard of the ring has a place on it, `GetNShards` ends, for every key and every number
-- that is not negative, within as many rounds of its loop as the ring has places, and one test more.
-- It returns as many shards as were asked for, or all if there are fewer, none twice, and each of
-- them has a place on the ring.
pub get_n_shards-Ends :
    (hash : String → ℕ) (fuel : ℕ) (h : HashRing) (key : String) (m : ℕ)
    → IsUnique h.shard_set
    → ((t : String) → is_some (GoMap.get h.shard_set t) ≡ true → Owns h t)
    → length h.ring < fuel
    → Ends h (at_most (GoMap.len h.shard_set) m) (get_n_shards hash fuel h key (pos m))
unfolding get_n_shards
get_n_shards-Ends hash fuel h key m unique placed enough =
    elim (Bool-cases (GoMap.len h.shard_set == 0)) [
      | inl none_yet ↦ rw none_yet ([], refl, ground (arith, none_yet), tt, λ t e. absurd (cc e))
      | inr some_shard ↦ rw some_shard (
          walk-Ends h (at_most (GoMap.len h.shard_set) m) unique (ground arith) placed fuel
            (length h.ring) (search h (hash key)) [] GoMap.empty enough
            (start_walk h (at_most (GoMap.len h.shard_set) m) (search h (hash key))
              (search-lt h (hash key) (ring_pos h placed (ground (arith, some_shard))))))
    ]
