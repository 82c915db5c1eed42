-- ===== src/Locks/Race.antt =====
-- scr/locks.py: `break_stale` step by step, against acquisitions by other processes.
use selfconnect_runtime.Base.{
  ℕ, ◌<◌, String, ◌≡◌, none, some, [], ◌∷◌, arith, string_eq, filter, any,
}
use selfconnect_runtime.Locks.{
  Files, open_lock, os_lock, os_unlock, is_held, unlink_lock, acquire, write_meta, clear_lock,
}

-- Where the lock's file is there and free: a supervisor takes the OS lock and gives it back, another
-- process acquires the lock, the supervisor unlinks the file, and a third process acquires the lock as
-- well. Then two processes hold it.
pub break_stale-race :
    (fs : Files) (i supervisor p q : ℕ) (boot_id : String) (now : ℕ)
    → fs.path ≡ some i
    → i < fs.next
    → fs.held ≡ []
    → let given_back = os_unlock i supervisor (os_lock i supervisor fs).1 in
      let (first, one) = acquire p boot_id now given_back in
      let (second, two) = acquire q boot_id now (unlink_lock one) in
      (clear_lock supervisor fs ≡ unlink_lock (record given_back { sidecar = none }))
      × (first ≡ some i)
      × (second ≡ some fs.next)
      × (two.held ≡ (fs.next, q) ∷ (i, p) ∷ [])
unfolding clear_lock open_lock os_lock os_unlock is_held any filter acquire write_meta
break_stale-race fs i supervisor p q boot_id now found fresh e = (
  ground (arith, found, fresh, e),
  ground (arith, found, fresh, e),
  ground (arith, found, fresh, e),
  ground (arith, found, fresh, e),
)
