-- ===== src/Mulberry/Sync/Rounds.antt =====
-- cmd/mulberry/main.go: `syncTopology`, the loops round `doSync`. The loops take what happens from a
-- list of events: the end of a wait, the cancellation of the context, and the answer to each call of
-- the config server, with the readings of the clock that its changes have. Where the list ends, the
-- loop still waits.
use let_mil_go.Common.{
  ℕ, zero, suc, ◌≡◌, ◌≢◌, refl, ◌⊎◌, inl, inr, String, some, List, [], ◌∷◌, All, ap, ◌∙◌, string_eq,
}
use let_mil_go.GoMap.{Map}
use let_mil_go.GoMap
use let_mil_go.GoMap.Unique.{IsUnique}
use let_mil_go.Rpc.{Status, Try, success, failure}
use let_mil_go.Csrs.{TopologyManager}
use let_mil_go.Mulberry.Sync.{do_sync}
use let_mil_go.Mulberry.Sync.Exact.{address_of, do_sync_exact}

pub data SyncEvent : Type 0 where
  cancelled elapsed : SyncEvent
  answered : (String → ℕ) → Try Status (Map String String) → SyncEvent

module _ (hash : String → ℕ) where
  -- the periodic sync: a tick, then `doSync`, whose error is only logged
  unfoldable pub periodic : List SyncEvent → TopologyManager → TopologyManager
  periodic (elapsed ∷ answered now reply ∷ es) tm = periodic es (do_sync hash now tm reply).1
  periodic _ tm = tm

  -- the first sync, with the attempts that are left, and the periodic one after it
  unfoldable pub attempt : ℕ → List SyncEvent → TopologyManager → TopologyManager
  unfolding periodic
  attempt zero es tm = periodic es tm
  attempt (suc left) (answered now (success m) ∷ es) tm =
      periodic es (do_sync hash now tm (success m)).1
  attempt (suc left) (answered now (failure e) ∷ elapsed ∷ es) tm =
      attempt left es (do_sync hash now tm (failure e)).1
  attempt (suc left) (answered now (failure e) ∷ _) tm = (do_sync hash now tm (failure e)).1
  attempt (suc left) _ tm = tm

  unfoldable pub sync_topology : List SyncEvent → TopologyManager → TopologyManager
  unfolding attempt
  sync_topology es tm = attempt 30 es tm

-- the config server has answered with this map
abbrev pub Answered : Map String String → List SyncEvent → Type 0
Answered m [] = ⊥
Answered m (answered now (success n) ∷ es) = (m ≡ n) ⊎ Answered m es
Answered m (_ ∷ es) = Answered m es

-- the config server answers with named shards that have addresses
abbrev pub IsGoodAnswer : SyncEvent → Type 0
IsGoodAnswer (answered now (success m)) =
    IsUnique m
    × ((id address : String) → GoMap.get m id ≡ some address → (id ≢ "") × (address ≢ ""))
IsGoodAnswer _ = Unit

-- as it was, or as one answer has it
abbrev pub IsWhole : TopologyManager → List SyncEvent → TopologyManager → Type 0
IsWhole tm es tm' =
    (tm' ≡ tm)
    ⊎ ((m : Map String String) × Answered m es × ((t : String) → address_of tm' t ≡ GoMap.get m t))

module _ (hash : String → ℕ) where
  -- an answer, then what comes after it
  after_answer :
      (now : String → ℕ) (m : Map String String) (es : List SyncEvent) (tm tm' : TopologyManager)
      → IsGoodAnswer (answered now (success m))
      → IsWhole (do_sync hash now tm (success m)).1 es tm'
      → IsWhole tm (answered now (success m) ∷ es) tm'
  after_answer now m es tm tm' (unique, named) (inl same) = inr (
    m,
    inl refl,
    λ t. ap (λ s. address_of s t) same ∙ (do_sync_exact hash now tm m unique named).1 t,
  )
  after_answer now m es tm tm' good (inr (n, later, as_there)) = inr (n, inr later, as_there)

  periodic-IsWhole :
      (es : List SyncEvent) (tm : TopologyManager)
      → All IsGoodAnswer es
      → IsWhole tm es (periodic hash es tm)
  unfolding periodic do_sync
  periodic-IsWhole [] tm a = inl refl
  periodic-IsWhole (cancelled ∷ es) tm a = inl refl
  periodic-IsWhole (answered now reply ∷ es) tm a = inl refl
  periodic-IsWhole (elapsed ∷ []) tm a = inl refl
  periodic-IsWhole (elapsed ∷ cancelled ∷ es) tm a = inl refl
  periodic-IsWhole (elapsed ∷ elapsed ∷ es) tm a = inl refl
  periodic-IsWhole (elapsed ∷ answered now (failure e) ∷ es) tm (_, (_, a)) =
      periodic-IsWhole es tm a
  periodic-IsWhole (elapsed ∷ answered now (success m) ∷ es) tm (_, (good, a)) =
      after_answer now m es tm (periodic hash es (do_sync hash now tm (success m)).1) good
        (periodic-IsWhole es (do_sync hash now tm (success m)).1 a)

  attempt-IsWhole :
      (left : ℕ) (es : List SyncEvent) (tm : TopologyManager)
      → All IsGoodAnswer es
      → IsWhole tm es (attempt hash left es tm)
  unfolding attempt do_sync
  attempt-IsWhole zero es tm a = periodic-IsWhole es tm a
  attempt-IsWhole (suc left) [] tm a = inl refl
  attempt-IsWhole (suc left) (cancelled ∷ es) tm a = inl refl
  attempt-IsWhole (suc left) (elapsed ∷ es) tm a = inl refl
  attempt-IsWhole (suc left) (answered now (success m) ∷ es) tm (good, a) =
      after_answer now m es tm (periodic hash es (do_sync hash now tm (success m)).1) good
        (periodic-IsWhole es (do_sync hash now tm (success m)).1 a)
  attempt-IsWhole (suc left) (answered now (failure e) ∷ []) tm a = inl refl
  attempt-IsWhole (suc left) (answered now (failure e) ∷ cancelled ∷ es) tm a = inl refl
  attempt-IsWhole (suc left) (answered now (failure e) ∷ answered _ _ ∷ es) tm a = inl refl
  attempt-IsWhole (suc left) (answered now (failure e) ∷ elapsed ∷ es) tm (_, (_, a)) =
      attempt-IsWhole left es tm a

  pub sync_topology-IsWhole :
      (es : List SyncEvent) (tm : TopologyManager)
      → All IsGoodAnswer es
      → IsWhole tm es (sync_topology hash es tm)
  unfolding sync_topology
  sync_topology-IsWhole es tm a = attempt-IsWhole 30 es tm a
