-- ===== src/Csrs/Ring/Hangs.antt =====
-- Where the loop of `GetNShards` of hash_ring.go never ends: virtual nodes of several shards have the
-- same hashes, so that fewer shards than were asked for own the places of the ring.
use let_mil_go.Common.{
  ℕ, zero, suc, ◌+◌, ◌%◌, ◌<◌, ◌≡◌, refl, ◌∙◌, inl, inr, String, Bool, true, false, some, List, [],
  ◌∷◌, ◌++◌, length, get_elem?-some, ltb, arith, ◌==◌, ==_iff, nat_eq, string_eq, Bool-cases,
}
use let_mil_go.GoMap.{Map, get-put, get-empty}
use let_mil_go.GoMap
use let_mil_go.GoMap.Unique.{elem-append_one, elem}
use let_mil_go.GoMap.Unique.Pigeons.{NoRepeats, length-le_of_elem}
use let_mil_go.Csrs.Registry.{pos}
use let_mil_go.Csrs.Ring.{HashRing, or_empty, or_false, search}
use let_mil_go.Csrs.Ring.Replicas.{out_of_fuel, pick, owner_at, at_most, get_n_shards}
use let_mil_go.Csrs.Ring.Steps.{NoRepeats-append_one, mod-lt}
use let_mil_go.Csrs.Ring.Walk.{search-lt}

-- every place has an owner of the list
abbrev pub OwnedBy : HashRing → List String → Type 0
OwnedBy h owners = (p : ℕ) (t : String) → owner_at h p ≡ some t → elem t owners ≡ true

record IsStuck (h : HashRing) (owners : List String) (idx : ℕ) (result : List String)
    (seen : Map String Bool) : Type 0 where
  here : idx < length h.ring
  same : (t : String) → elem t result ≡ or_false (GoMap.get seen t)
  fresh : NoRepeats result
  owned : (t : String) → elem t result ≡ true → elem t owners ≡ true

module _ (h : HashRing) (n : ℕ) (owners : List String) (by : OwnedBy h owners)
    (few : length owners < n) where
  IsStuck-new :
      (idx : ℕ) (result : List String) (seen : Map String Bool) (sid : String)
      → owner_at h idx ≡ some sid
      → or_false (GoMap.get seen sid) ≡ false
      → IsStuck h owners idx result seen
      → IsStuck h owners ((idx + 1) % length h.ring) (result ++ sid ∷ []) (GoMap.put seen sid true)
  IsStuck-new idx result seen sid at new w = record {
    here = mod-lt h idx (idx + 1) w.here;
    same = λ t. ground (arith, elem-append_one t sid result, w.same t, get-put seen sid t true);
    fresh = NoRepeats-append_one sid result w.fresh (w.same sid ∙ new);
    owned = λ t e. elim (Bool-cases (sid == t)) [
      | inl same ↦ ground (arith, by idx sid at, ==_iff sid t)
      | inr other ↦ w.owned t (ground (arith, elem-append_one t sid result, e, other))
    ];
  }

  pick_hangs :
      (fuel idx : ℕ) (result : List String) (seen : Map String Bool)
      → IsStuck h owners idx result seen
      → pick fuel h n idx result seen ≡ out_of_fuel
  unfolding pick
  pick_hangs zero idx result seen w = refl
  pick_hangs (suc fuel) idx result seen w =
      let room : ltb (length result) n ≡ true =
        ground (arith, length-le_of_elem result owners w.fresh w.owned) in
      let (node, found) = get_elem?-some h.ring idx w.here in
      let sid = or_empty (GoMap.get h.node_map node) in
      let at : owner_at h idx ≡ some sid = unfold owner_at in rw (found, owner_at) refl in
      elim (Bool-cases (or_false (GoMap.get seen sid))) [
        | inl old ↦
            rw (room, pick, at, old)
              (pick_hangs fuel ((idx + 1) % length h.ring) result seen (record {
                here = mod-lt h idx (idx + 1) w.here;
                same = w.same;
                fresh = w.fresh;
                owned = w.owned;
              }))
        | inr new ↦
            rw (room, pick, at, new)
              (pick_hangs fuel ((idx + 1) % length h.ring) (result ++ sid ∷ [])
                (GoMap.put seen sid true) (IsStuck-new idx result seen sid at new w))
      ]

-- Where the places of a ring that is not empty have fewer owners than shards were asked for, and the
-- ring counts as many shards, `GetNShards` does not end: no number of rounds is enough.
pub get_n_shards_hangs :
    (hash : String → ℕ) (h : HashRing) (key : String) (m : ℕ) (owners : List String)
    → 0 < length h.ring
    → OwnedBy h owners
    → length owners < at_most (GoMap.len h.shard_set) m
    → (fuel : ℕ) → get_n_shards hash fuel h key (pos m) ≡ out_of_fuel
unfolding get_n_shards
get_n_shards_hangs hash h key m owners nonempty by few fuel =
    let shards : (GoMap.len h.shard_set == 0) ≡ false = ground arith in
    rw shards (
      pick_hangs h (at_most (GoMap.len h.shard_set) m) owners by few fuel (search h (hash key)) []
        GoMap.empty
        (record {
          here = search-lt h (hash key) nonempty;
          same = λ t. rw get-empty refl;
          fresh = tt;
          owned = λ t e. absurd (cc e);
        }))
