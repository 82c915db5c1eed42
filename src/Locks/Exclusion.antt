-- ===== src/Locks/Exclusion.antt =====
-- scr/locks.py: at most one holder of the lock, and the lock after its holder's end.
use selfconnect_runtime.Base.{
  ℕ, ◌+◌, ◌≤◌, ◌<◌, String, ◌≡◌, refl, sym, ap, subst, ◌↔◌, inl, inr, true, false, ◌&&◌, Option,
  none, some, List, [], ◌∷◌, arith, eqb, Bool-cases, Option-cases, string_eq, length, filter, any,
}
use selfconnect_runtime.Locks.{
  Files, Sidecar, open_lock, os_lock, os_unlock, is_held, write_meta, acquire, die, probe,
  reclaimable, clear_lock, break_stale,
}
use selfconnect_runtime.Locks.Interleaving.{
  Shared, IsOpen, Steps, fresh, opens, locks, unlocks, notes, dies, OnPath-open, Steps-OnPath,
}

-- No OS lock is held, or one is, on the file at the path.
pub data IsExclusive (fs : Files) : Type 0 where
  unheld : fs.held ≡ [] → IsExclusive fs
  held_by : (i pid : ℕ) → fs.path ≡ some i → fs.held ≡ (i, pid) ∷ [] → IsExclusive fs

open_lock-IsExclusive : (fs : Files) → IsExclusive fs → IsExclusive (open_lock fs).1
unfolding open_lock
open_lock-IsExclusive fs (unheld e) = unheld (ground (arith, e))
open_lock-IsExclusive fs (held_by i p found e) =
    held_by i p (ground (arith, found, e)) (ground (arith, found, e))

os_lock-IsExclusive :
    (fs : Files) (i pid : ℕ) → fs.path ≡ some i → IsExclusive fs → IsExclusive (os_lock i pid fs).1
unfolding os_lock is_held any
os_lock-IsExclusive fs i pid found (unheld e) =
    held_by i pid (ground (arith, found, e)) (ground (arith, found, e))
os_lock-IsExclusive fs i pid found (held_by j p at_path e) =
    held_by j p (ground (arith, found, at_path, e)) (ground (arith, found, at_path, e))

os_unlock-IsExclusive : (fs : Files) (i pid : ℕ) → IsExclusive fs → IsExclusive (os_unlock i pid fs)
unfolding os_unlock filter
os_unlock-IsExclusive fs i pid (unheld e) = unheld (ground (arith, e))
os_unlock-IsExclusive fs i pid (held_by j p found e) = elim (Bool-cases (eqb j i && eqb p pid)) [
  | inl mine ↦ unheld (ground (arith, e, mine))
  | inr other ↦ held_by j p found (ground (arith, e, other))
]

sidecar-IsExclusive :
    (fs : Files) (m : Option Sidecar) → IsExclusive fs → IsExclusive (record fs { sidecar = m })
sidecar-IsExclusive fs m (unheld e) = unheld e
sidecar-IsExclusive fs m (held_by i p found e) = held_by i p found e

die-IsExclusive : (fs : Files) (pid : ℕ) → IsExclusive fs → IsExclusive (die pid fs)
unfolding die filter
die-IsExclusive fs pid (unheld e) = unheld (ground (arith, e))
die-IsExclusive fs pid (held_by j p found e) = elim (Bool-cases (eqb p pid)) [
  | inl mine ↦ unheld (ground (arith, e, mine))
  | inr other ↦ held_by j p found (ground (arith, e, other))
]

Steps-IsExclusive : {s : Shared} → Steps s → IsExclusive s.files
Steps-IsExclusive fresh = unheld refl
Steps-IsExclusive (opens {s = s} pid r) = open_lock-IsExclusive s.files (Steps-IsExclusive r)
Steps-IsExclusive (locks {s = s} i pid handle r) =
    os_lock-IsExclusive s.files i pid
      (OnPath-open s.files.path s.opened i pid handle (Steps-OnPath r)) (Steps-IsExclusive r)
Steps-IsExclusive (unlocks {s = s} i pid r) =
    os_unlock-IsExclusive s.files i pid (Steps-IsExclusive r)
Steps-IsExclusive (notes {s = s} m r) = sidecar-IsExclusive s.files m (Steps-IsExclusive r)
Steps-IsExclusive (dies {s = s} pid r) = die-IsExclusive s.files pid (Steps-IsExclusive r)

os_lock_cases :
    (fs : Files) (i pid : ℕ)
    → fs.path ≡ some i
    → IsExclusive fs
    → (length fs.held ≤ 1) × (((os_lock i pid fs).0 ≡ true) ↔ (fs.held ≡ []))
unfolding os_lock is_held any
os_lock_cases fs i pid found (unheld e) =
    (omega (arith, ap length e), (λ got. e, λ none_held. ground (arith, e)))
os_lock_cases fs i pid found (held_by j p at_path e) = (
  omega (arith, ap length e),
  (λ got. ground (arith, got, found, at_path, e), λ none_held. ground (arith, none_held, e)),
)

-- However the system calls of any processes that open the lock file, lock and unlock it, write the
-- sidecar and end are interleaved, as long as nothing unlinks the lock file: at most one handle holds the
-- OS lock, and a process that tries to lock its open handle succeeds exactly when no handle holds it.
pub os_lock-single_writer :
    {s : Shared} (i pid : ℕ)
    → Steps s
    → IsOpen s i pid
    → (length s.files.held ≤ 1) × (((os_lock i pid s.files).0 ≡ true) ↔ (s.files.held ≡ []))
os_lock-single_writer {s} i pid r handle =
    os_lock_cases s.files i pid (OnPath-open s.files.path s.opened i pid handle (Steps-OnPath r))
      (Steps-IsExclusive r)

acquire-got :
    (fs : Files) (pid : ℕ) (boot_id : String) (now : ℕ)
    → (os_lock (open_lock fs).0 pid (open_lock fs).1).0 ≡ true
    → (acquire pid boot_id now fs).1 ≡ record (os_lock (open_lock fs).0 pid (open_lock fs).1).1 {
      sidecar = some (record { pid = pid; boot_id = boot_id; heartbeat = now });
    }
unfolding acquire write_meta
acquire-got fs pid boot_id now got = rw got refl

acquire-failed :
    (fs : Files) (pid : ℕ) (boot_id : String) (now : ℕ)
    → (os_lock (open_lock fs).0 pid (open_lock fs).1).0 ≡ false
    → (acquire pid boot_id now fs).1 ≡ (open_lock fs).1
unfolding acquire write_meta
acquire-failed fs pid boot_id now failed = rw failed refl

opened_is_open :
    (i pid : ℕ) (opened : List (ℕ × ℕ))
    → any (λ (h : ℕ × ℕ). eqb h.0 i && eqb h.1 pid) ((i, pid) ∷ opened) ≡ true
unfolding any
opened_is_open i pid opened = ground arith

-- `acquire` without an interruption is an `open`, an attempt to lock, and the sidecar after a success.
pub acquire-Steps :
    {s : Shared} (pid : ℕ) (boot_id : String) (now : ℕ)
    → Steps s
    → Steps (record {
      files = (acquire pid boot_id now s.files).1;
      opened = ((open_lock s.files).0, pid) ∷ s.opened;
    })
acquire-Steps {s} pid boot_id now r =
    let i = (open_lock s.files).0 in
    let opened = (i, pid) ∷ s.opened in
    let Done = λ (f : Files). Steps (record { files = f; opened = opened }) in
    elim (Bool-cases (os_lock i pid (open_lock s.files).1).0) [
      | inl got ↦ subst Done (sym (acquire-got s.files pid boot_id now got)) (
          notes (some (record { pid = pid; boot_id = boot_id; heartbeat = now }))
            (locks i pid (opened_is_open i pid s.opened) (opens pid r)))
      | inr failed ↦ subst Done (sym (acquire-failed s.files pid boot_id now failed)) (opens pid r)
    ]

acquire-unheld :
    (fs : Files) (pid : ℕ) (boot_id : String) (now : ℕ)
    → fs.held ≡ []
    → (i : ℕ) × ((acquire pid boot_id now fs).0 ≡ some i)
      × ((acquire pid boot_id now fs).1.held ≡ (i, pid) ∷ [])
unfolding acquire open_lock os_lock is_held write_meta any
acquire-unheld fs pid boot_id now e = elim (Option-cases fs.path) [
  | inl absent ↦ (fs.next, ground (arith, absent, e), ground (arith, absent, e))
  | inr (i, found) ↦ (i, ground (arith, found, e), ground (arith, found, e))
]

pub acquire-held :
    (fs : Files) (pid i p : ℕ) (boot_id : String) (now : ℕ)
    → fs.path ≡ some i
    → fs.held ≡ (i, p) ∷ []
    → (acquire pid boot_id now fs).0 ≡ none
unfolding acquire open_lock os_lock is_held write_meta any
acquire-held fs pid i p boot_id now found e = ground (arith, found, e)

-- A process holds the lock after an acquisition.
abbrev pub Acquires : ℕ → String → ℕ → Files → Type 0
Acquires pid boot_id now fs =
    (i : ℕ) × ((acquire pid boot_id now fs).0 ≡ some i)
    × ((acquire pid boot_id now fs).1.held ≡ (i, pid) ∷ [])

die-frees : (fs : Files) (i pid : ℕ) → fs.held ≡ (i, pid) ∷ [] → (die pid fs).held ≡ []
unfolding die filter
die-frees fs i pid e = ground (arith, e)

-- Once the process that holds the lock has died, any process can acquire it at once, with no supervisor
-- and whatever the sidecar says.
pub die-acquire :
    (fs : Files) (i pid other : ℕ) (boot_id : String) (now : ℕ)
    → fs.held ≡ (i, pid) ∷ []
    → Acquires other boot_id now (die pid fs)
die-acquire fs i pid other boot_id now e =
    acquire-unheld (die pid fs) other boot_id now (die-frees fs i pid e)

-- A holder that is alive and has not beaten for longer than `stale_after` is reported as reclaimable:
-- `break_stale` returns True for it, and still no process can acquire the lock.
pub break_stale-hung :
    (fs : Files) (i pid supervisor other stale_after : ℕ) (m : Sidecar) (boot_id : String) (now : ℕ)
    → fs.path ≡ some i
    → fs.held ≡ (i, pid) ∷ []
    → fs.sidecar ≡ some m
    → m.heartbeat + stale_after < now
    → let (cleared, t) = break_stale supervisor stale_after boot_id now fs in
      (cleared ≡ true) × ((acquire other boot_id now t).0 ≡ none)
unfolding break_stale clear_lock probe reclaimable open_lock os_lock is_held any acquire
break_stale-hung fs i pid supervisor other stale_after m boot_id now found e beat late =
    (ground (arith, found, e, beat, late), ground (arith, found, e, beat, late))
