-- ===== src/Examples/Placement.antt =====
-- Concrete rings of internal/csrs, with the length of a text as its hash.
use Prim.Native.String.{len}
use let_mil_go.Common.{
  zero, suc, ◌<◌, ◌≡◌, ◌≢◌, refl, inl, inr, String, Bool, true, [], ◌∷◌, arith, length, ◌==◌,
  ==_iff, string_eq, nat_eq, Bool-cases,
}
use let_mil_go.GoMap.{Map, is_some, get-put, get-empty}
use let_mil_go.GoMap
use let_mil_go.GoMap.Unique.{IsUnique, put-IsUnique, empty-IsUnique}
use let_mil_go.Csrs.Registry.{pos}
use let_mil_go.Csrs.Ring.{HashRing}
use let_mil_go.Csrs.Ring.Replicas.{out_of_fuel, owner_at, at_most, get_n_shards}
use let_mil_go.Csrs.Ring.Steps.{Owns}
use let_mil_go.Csrs.Ring.Walk.{Ends, get_n_shards-Ends}
use let_mil_go.Csrs.Ring.Hangs.{OwnedBy, get_n_shards_hangs}
use let_mil_go.OpLog.{no_op}

-- the members of the rings, as they were added
abbrev members : Map String Bool
members = GoMap.put (GoMap.put GoMap.empty "s1" true) "s2" true

members-IsUnique : IsUnique members
members-IsUnique =
    put-IsUnique (GoMap.put GoMap.empty "s1" true) "s2" true
      (put-IsUnique GoMap.empty "s1" true empty-IsUnique)

-- a member is one of the two
member : (t : String) → is_some (GoMap.get members t) ≡ true → ("s1" ≢ t) → "s2" ≡ t
member t h other = ground (
  arith,
  get-put (GoMap.put GoMap.empty "s1" true) "s2" t true,
  get-put (GoMap.empty {V = Bool}) "s1" t true,
  get-empty {V = Bool} t,
  ==_iff "s1" t,
  ==_iff "s2" t,
)

abbrev spread : HashRing
spread = record {
  virtual_nodes = 1;
  ring = 2 ∷ 4 ∷ [];
  node_map = record { entries = (2, "s1") ∷ (4, "s2") ∷ [] };
  shard_set = members;
}

Owns-s1 : Owns spread "s1"
unfolding owner_at GoMap.get
Owns-s1 = (0, omega arith, refl)

Owns-s2 : Owns spread "s2"
unfolding owner_at GoMap.get
Owns-s2 = (1, omega arith, refl)

placed : (t : String) → is_some (GoMap.get members t) ≡ true → Owns spread t
placed t h = elim (Bool-cases ("s1" == t)) [
  | inl first ↦ rw (← (==_iff "s1" t).0 first) Owns-s1
  | inr other ↦ rw (← member t h (λ e. ground (arith, ==_iff "s1" t))) Owns-s2
]

get_n_shards-Ends_example :
    Ends spread (at_most (GoMap.len members) 5) (get_n_shards len 3 spread "abc" (pos 5))
get_n_shards-Ends_example =
    get_n_shards-Ends len 3 spread "abc" 5 members-IsUnique placed (omega arith)

-- the virtual nodes of both shards have the same hash
abbrev collided : HashRing
collided = record {
  virtual_nodes = 1;
  ring = 2 ∷ 2 ∷ [];
  node_map = record { entries = (2, "s2") ∷ [] };
  shard_set = members;
}

collided-OwnedBy : OwnedBy collided ("s2" ∷ [])
unfolding owner_at GoMap.get
collided-OwnedBy zero t h = ground (arith, h, ==_iff "s2" t)
collided-OwnedBy (suc zero) t h = ground (arith, h, ==_iff "s2" t)
collided-OwnedBy (suc (suc p)) t h = absurd (cc h)

few : length {A = String} ("s2" ∷ []) < at_most (GoMap.len members) 2
unfolding GoMap.len GoMap.put GoMap.empty
few = omega arith

get_n_shards_hangs_example : get_n_shards len 1000 collided "abc" (pos 2) ≡ out_of_fuel
get_n_shards_hangs_example =
    get_n_shards_hangs len collided "abc" 2 ("s2" ∷ []) (omega arith) collided-OwnedBy few 1000
