-- ===== src/Examples/Locking.antt =====
-- Concrete locks of internal/shard/component/lock.go.
use let_mil_go.Common.{◌≡◌, ◌≢◌, refl, none, some, String, arith, string_eq, ==-refl, ==-differ}
use let_mil_go.GoMap.{get-empty}
use let_mil_go.Locks.{
  LockManager, LockEntry, lock_none, lock_write, new_lock_manager, acquire_write,
}
use let_mil_go.Locks.View.{recorded, entry_of}
use let_mil_go.Locks.Invariant.{IsConsistent, new_lock_manager-IsConsistent}
use let_mil_go.Locks.Exclusion.{
  Reachable, start, step, writes, Reachable-IsConsistent, reachable_exclusion,
  acquire_write-recorded, acquire_write_unlocked,
}

abbrev tx_a : String
tx_a = "a"

abbrev tx_b : String
tx_b = "b"

abbrev key_x : String
key_x = "x"

-- a lock manager with one write lock
abbrev locked : LockManager
locked = (acquire_write new_lock_manager tx_a key_x).1

locked-Reachable : Reachable locked
locked-Reachable = step start (writes tx_a key_x)

idle : (entry_of new_lock_manager key_x).mode ≡ lock_none
unfolding entry_of new_lock_manager
idle = rw (get-empty {K = String} {V = LockEntry} key_x) refl

locked_a : recorded locked tx_a key_x ≡ some lock_write
locked_a = ground (
  arith,
  acquire_write-recorded new_lock_manager tx_a key_x tx_a key_x new_lock_manager-IsConsistent,
  acquire_write_unlocked new_lock_manager tx_a key_x idle,
  ==-refl tx_a,
  ==-refl key_x,
)

a_ne_b : tx_a ≢ tx_b
a_ne_b = ==-differ tx_a tx_b refl

reachable_exclusion_example : recorded locked tx_b key_x ≡ none
reachable_exclusion_example = reachable_exclusion tx_a tx_b key_x locked-Reachable locked_a a_ne_b

Reachable-IsConsistent_example : IsConsistent locked
Reachable-IsConsistent_example = Reachable-IsConsistent locked-Reachable
