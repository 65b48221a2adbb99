-- ===== src/Shard/Voting/Locking.antt =====
-- The loop of `Prepare` of shard.go that takes the write locks.
use let_mil_go.Common.{
  ◌≡◌, ◌≢◌, refl, inl, inr, String, true, false, ◌&&◌, some, List, [], ◌∷◌, arith, ◌==◌, ==-refl,
  ==-ne, string_eq, if◌then◌else◌, Bool-cases,
}
use let_mil_go.Errors.{Result-cases}
use let_mil_go.GoMap.Unique.{elem}
use let_mil_go.Locks.{LockManager, lock_write, acquire_write}
use let_mil_go.Locks.View.{recorded}
use let_mil_go.Locks.Invariant.{IsConsistent}
use let_mil_go.Locks.Acquire.{acquire-IsConsistent}
use let_mil_go.Locks.Exclusion.{write_excludes, acquire_write-recorded}
use let_mil_go.Shard.Loops.{acquire_writes}
use let_mil_go.Shard.Valid.Phases.{acquire_writes-IsConsistent}

module _ (t : String) where
  -- the locks of the other transactions stay
  pub acquire_writes-others :
      (m : LockManager) (ks : List String) (u j : String)
      → IsConsistent m
      → t ≢ u
      → recorded (acquire_writes m t ks).1 u j ≡ recorded m u j
  unfolding acquire_writes
  acquire_writes-others m [] u j h ne = refl
  acquire_writes-others m (k ∷ ks) u j h ne =
      let m' = (acquire_write m t k).1 in
      let h' = (acquire-IsConsistent m t k h).1 in
      let kept : recorded m' u j ≡ recorded m u j =
        ground (arith, acquire_write-recorded m t k u j h, ==-ne t u ne) in
      elim (Result-cases (acquire_write m t k).0) [
        | inl (_, granted) ↦
            rw (granted, acquire_writes, acquire_writes-others m' ks u j h' ne) kept
        | inr (_, refused) ↦ rw (refused, acquire_writes) kept
      ]

  -- when no lock is refused, the transaction has a write lock on every key of the list
  pub acquire_writes-recorded :
      (m : LockManager) (ks : List String) (u j : String)
      → IsConsistent m
      → (acquire_writes m t ks).0 ≡ true
      → recorded (acquire_writes m t ks).1 u j
        ≡ (if t == u && elem j ks then some lock_write else recorded m u j)
  unfolding acquire_writes
  acquire_writes-recorded m [] u j h all = ground arith
  acquire_writes-recorded m (k ∷ ks) u j h all =
      let m' = (acquire_write m t k).1 in
      let h' = (acquire-IsConsistent m t k h).1 in
      elim (Result-cases (acquire_write m t k).0) [
        | inl (_, granted) ↦
            let all' : (acquire_writes m' t ks).0 ≡ true = rw (granted, acquire_writes) at all in
            rw (granted, acquire_writes, acquire_writes-recorded m' ks u j h' all')
              (ground (arith, acquire_write-recorded m t k u j h, granted))
        | inr (_, refused) ↦ absurd (cc (rw (refused, acquire_writes) at all))
      ]

  -- a key that another transaction has locked for writing is refused
  pub acquire_writes-refused :
      (m : LockManager) (ks : List String) (u j : String)
      → IsConsistent m
      → t ≢ u
      → recorded m u j ≡ some lock_write
      → elem j ks ≡ true
      → (acquire_writes m t ks).0 ≡ false
  acquire_writes-refused m ks u j h ne owned listed = elim (Bool-cases (acquire_writes m t ks).0) [
    | inr refused ↦ refused
    | inl all ↦
        let h' = acquire_writes-IsConsistent m t ks h in
        let m' = (acquire_writes m t ks).1 in
        let mine : recorded m' t j ≡ some lock_write =
          ground (arith, acquire_writes-recorded m ks t j h all, ==-refl t, listed) in
        let theirs = acquire_writes-others m ks u j h ne in
        absurd (cc (write_excludes m' t u j h' mine ne, theirs, owned))
  ]
