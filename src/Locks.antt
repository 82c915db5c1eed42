-- ===== src/Locks.antt =====
-- scr/locks.py: the workspace lock on POSIX. A file is an inode; `flock` belongs to an open handle, so a
-- second handle conflicts with the first one of the same process. An OSError of `open` is not modelled,
-- and a sidecar that cannot be read counts as missing, as in the source. The pid that `acquire` writes into
-- the lock file and the host in the sidecar are not kept.
-- A function here is the operation without an interruption; the system calls of several processes, in
-- any order, are the steps of Locks/Interleaving and the example of Locks/Race.
pub mod Interleaving
pub mod Exclusion
pub mod Race
use selfconnect_runtime.Base.{
  ℕ, ◌+◌, String, Bool, true, false, not, ◌&&◌, Option, none, some, List, [], ◌∷◌, ltb, eqb,
  if◌then◌else◌, string_eq, ◌==◌, filter, any,
}

-- The sidecar `.lock.meta`.
pub record Sidecar : Type 0 where
  pub pid : ℕ
  pub boot_id : String
  pub heartbeat : ℕ

-- The file at the lock's path, the inodes whose OS lock is held, each with its process, the next inode,
-- and the sidecar.
pub record Files : Type 0 where
  pub path : Option ℕ
  pub held : List (ℕ × ℕ)
  pub next : ℕ
  pub sidecar : Option Sidecar

abbrev pub no_files : Files
no_files = record { path = none; held = []; next = 0; sidecar = none }

pub data LockState : Type 0 where
  free : LockState
  live : LockState
  stale_other_boot : LockState
  stale_heartbeat : LockState

pub record LockStatus : Type 0 where
  pub state : LockState
  pub holder : Option Sidecar

-- `open(lock_path, "a+b")`, which makes the file where there is none.
unfoldable pub open_lock : Files → ℕ × Files
open_lock fs = elim fs.path [
  | some i ↦ (i, fs)
  | none ↦ (fs.next, record fs { path = some fs.next; next = fs.next + 1 })
]

unfoldable pub is_held : ℕ → List (ℕ × ℕ) → Bool
unfolding any
is_held i held = any (λ (h : ℕ × ℕ). eqb h.0 i) held

-- `_os_lock`, without blocking
unfoldable pub os_lock : ℕ → ℕ → Files → Bool × Files
unfolding is_held
os_lock i pid fs =
    if is_held i fs.held then (false, fs) else (true, record fs { held = (i, pid) ∷ fs.held })

-- `_os_unlock`
unfoldable pub os_unlock : ℕ → ℕ → Files → Files
unfolding filter
os_unlock i pid fs = record fs {
  held = filter (λ (h : ℕ × ℕ). not (eqb h.0 i && eqb h.1 pid)) fs.held;
}

abbrev pub unlink_lock : Files → Files
unlink_lock fs = record fs { path = none }

-- `_write_meta`
unfoldable pub write_meta : ℕ → String → ℕ → Files → Files
write_meta pid boot_id now fs = record fs {
  sidecar = some (record { pid = pid; boot_id = boot_id; heartbeat = now });
}

-- `acquire`: the inode of the handle, or `none` for LockHeld.
unfoldable pub acquire : ℕ → String → ℕ → Files → Option ℕ × Files
unfolding open_lock os_lock write_meta
acquire pid boot_id now fs =
    let (i, opened) = open_lock fs in
    let (got, locked) = os_lock i pid opened in
    if got then (some i, write_meta pid boot_id now locked) else (none, opened)

-- `heartbeat`, for the handle of the object
unfoldable pub heartbeat : Option ℕ → ℕ → String → ℕ → Files → Files
unfolding write_meta
heartbeat none pid boot_id now fs = fs
heartbeat (some i) pid boot_id now fs = write_meta pid boot_id now fs

-- `release`
unfoldable pub release : Option ℕ → ℕ → Files → Files
unfolding os_unlock
release none pid fs = fs
release (some i) pid fs = record (os_unlock i pid fs) { sidecar = none }

-- The operating system drops the locks of a process that dies.
unfoldable pub die : ℕ → Files → Files
unfolding filter
die pid fs = record fs { held = filter (λ (h : ℕ × ℕ). not (eqb h.1 pid)) fs.held }

abbrev pub from_other_boot : Option Sidecar → String → Bool
from_other_boot none boot_id = false
from_other_boot (some m) boot_id = not (m.boot_id == boot_id)

-- `time.time() - heartbeat > stale_after`
abbrev pub is_hung : Option Sidecar → ℕ → ℕ → Bool
is_hung none stale_after now = false
is_hung (some m) stale_after now = ltb (m.heartbeat + stale_after) now

-- `probe`; the lock that it takes to look is given back at once.
unfoldable pub probe : ℕ → String → ℕ → Files → LockStatus
unfolding is_held
probe stale_after boot_id now fs = elim fs.path [
  | none ↦ record { state = free; holder = fs.sidecar }
  | some i ↦
      if not (is_held i fs.held)
      then (if from_other_boot fs.sidecar boot_id
          then record { state = stale_other_boot; holder = fs.sidecar }
          else record { state = free; holder = fs.sidecar })
      else if is_hung fs.sidecar stale_after now
      then record { state = stale_heartbeat; holder = fs.sidecar }
      else record { state = live; holder = fs.sidecar }
]

-- `reclaimable`
unfoldable pub reclaimable : LockStatus → Bool
reclaimable status = elim status.state [ live ↦ false | _ ↦ true ]

-- The part of `break_stale` after the probe, by the process `pid`.
unfoldable pub clear_lock : ℕ → Files → Files
unfolding open_lock os_lock os_unlock
clear_lock pid fs =
    let (i, opened) = open_lock (record fs { sidecar = none }) in
    let (got, locked) = os_lock i pid opened in
    if got then unlink_lock (os_unlock i pid locked) else opened

-- `break_stale`
unfoldable pub break_stale : ℕ → ℕ → String → ℕ → Files → Bool × Files
unfolding probe reclaimable clear_lock
break_stale pid stale_after boot_id now fs =
    if reclaimable (probe stale_after boot_id now fs)
    then (true, clear_lock pid fs)
    else (false, fs)
