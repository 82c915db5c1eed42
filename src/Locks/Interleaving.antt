-- ===== src/Locks/Interleaving.antt =====
-- scr/locks.py: the system calls of several processes in any order, as steps, and what they keep of the
-- open handles.
use selfconnect_runtime.Base.{
  ℕ, ◌≡◌, refl, sym, subst, inl, inr, true, ◌&&◌, Option, none, some, List, [], ◌∷◌, arith, eqb,
  Bool-cases, Option-cases, string_eq, any, All,
}
use selfconnect_runtime.Locks.{Files, Sidecar, no_files, open_lock, os_lock, os_unlock, die}

-- The files, and the handles on the lock file that were opened, each with its inode and its process
pub record Shared : Type 0 where
  pub files : Files
  pub opened : List (ℕ × ℕ)

-- A process has an open handle on the inode.
abbrev pub IsOpen : Shared → ℕ → ℕ → Type 0
IsOpen s i pid = any (λ (h : ℕ × ℕ). eqb h.0 i && eqb h.1 pid) s.opened ≡ true

-- The system calls of any processes in any order: `open` of the lock file, an attempt to lock an open
-- handle, an unlock, a change of the sidecar, and the end of a process. `acquire`, `heartbeat`,
-- `release` and `probe` are made of these; `break_stale` also unlinks the lock file, which is no step.
-- A handle that is closed stays in the list.
pub data Steps : Shared → Type 0 where
  fresh : Steps (record { files = no_files; opened = [] })
  opens :
      {s : Shared} (pid : ℕ)
      → Steps s
      → Steps (record {
        files = (open_lock s.files).1;
        opened = ((open_lock s.files).0, pid) ∷ s.opened;
      })
  locks :
      {s : Shared} (i pid : ℕ)
      → IsOpen s i pid
      → Steps s
      → Steps (record s { files = (os_lock i pid s.files).1 })
  unlocks :
      {s : Shared} (i pid : ℕ) → Steps s → Steps (record s { files = os_unlock i pid s.files })
  notes :
      {s : Shared} (m : Option Sidecar)
      → Steps s
      → Steps (record s { files = record s.files { sidecar = m } })
  dies : {s : Shared} (pid : ℕ) → Steps s → Steps (record s { files = die pid s.files })

-- Every open handle is on the file at the path.
abbrev pub OnPath : Option ℕ → List (ℕ × ℕ) → Type 0
OnPath path opened = All (λ (h : ℕ × ℕ). path ≡ some h.0) opened

pub OnPath-open :
    (path : Option ℕ) (opened : List (ℕ × ℕ)) (i pid : ℕ)
    → any (λ (h : ℕ × ℕ). eqb h.0 i && eqb h.1 pid) opened ≡ true
    → OnPath path opened
    → path ≡ some i
unfolding any
OnPath-open path [] i pid m h = ground (arith, m)
OnPath-open path (g ∷ opened) i pid m h = elim (Bool-cases (eqb g.0 i && eqb g.1 pid)) [
  | inl here ↦ ground (arith, here, h.0)
  | inr later ↦ OnPath-open path opened i pid (ground (arith, m, later)) h.1
]

OnPath-nil :
    (opened : List (ℕ × ℕ)) (path : Option ℕ) → path ≡ none → OnPath path opened → opened ≡ []
OnPath-nil [] path absent h = refl
OnPath-nil (g ∷ opened) path absent h = ground (arith, absent, h.0)

opens-OnPath :
    (fs : Files) (opened : List (ℕ × ℕ)) (pid : ℕ)
    → OnPath fs.path opened
    → OnPath (open_lock fs).1.path (((open_lock fs).0, pid) ∷ opened)
unfolding open_lock
opens-OnPath fs opened pid h = elim (Option-cases fs.path) [
  | inl absent ↦ rw absent (rw (OnPath-nil opened fs.path absent h) (refl, tt))
  | inr (i, found) ↦
      let kept : (open_lock fs).1.path ≡ fs.path = ground (arith, found) in
      (ground (arith, found), subst (λ (o : Option ℕ). OnPath o opened) (sym kept) h)
]

path-os_lock : (fs : Files) (i pid : ℕ) → (os_lock i pid fs).1.path ≡ fs.path
unfolding os_lock
path-os_lock fs i pid = ground arith

path-os_unlock : (fs : Files) (i pid : ℕ) → (os_unlock i pid fs).path ≡ fs.path
unfolding os_unlock
path-os_unlock fs i pid = refl

path-die : (fs : Files) (pid : ℕ) → (die pid fs).path ≡ fs.path
unfolding die
path-die fs pid = refl

pub Steps-OnPath : {s : Shared} → Steps s → OnPath s.files.path s.opened
Steps-OnPath fresh = tt
Steps-OnPath (opens {s = s} pid r) = opens-OnPath s.files s.opened pid (Steps-OnPath r)
Steps-OnPath (locks {s = s} i pid handle r) = rw (path-os_lock s.files i pid) (Steps-OnPath r)
Steps-OnPath (unlocks {s = s} i pid r) = rw (path-os_unlock s.files i pid) (Steps-OnPath r)
Steps-OnPath (notes m r) = Steps-OnPath r
Steps-OnPath (dies {s = s} pid r) = rw (path-die s.files pid) (Steps-OnPath r)
