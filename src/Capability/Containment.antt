-- ===== src/Capability/Containment.antt =====
-- What the path checks promise: a granted path resolves below a granted root, and Windows stream
-- syntax is let through only as a drive letter.
use selfconnect_runtime.Base.{
  Some, ℕ, String, ◌≡◌, refl, ◌↔◌, inl, inr, Bool, true, false, not, ◌&&◌, ◌||◌, Option, List, [],
  ◌∷◌, ◌++◌, map, arith, eqb, if◌then◌else◌, Bool-cases, string_eq, any, Some, ok,
}
use selfconnect_runtime.Capability.Path.{
  FilePath, Os, codes, backslashed, split_parts, is_letter, has_colon, is_drive, reject_later,
  reject_ads, is_under, resolve_within,
}
use selfconnect_runtime.Capability.Manifest.{CapabilityManifest, check_read, check_write}
use selfconnect_runtime.Capability.Paths.{has_prefix, is_under-eq-prefix}

-- `p` is `root` with further components below it.
abbrev pub Below : FilePath → FilePath → Type 0
Below p root = (p.drive ≡ root.drive) × ((q : List String) × (p.parts ≡ root.parts ++ q))

has_prefix-append :
    (xs ys : List String) → has_prefix xs ys ≡ true → (q : List String) × (xs ≡ ys ++ q)
has_prefix-append xs [] h = (xs, refl)
has_prefix-append [] (y ∷ ys) h = absurd (cc)
has_prefix-append (x ∷ xs) (y ∷ ys) h =
    let (q, e) : (q : List String) × (xs ≡ ys ++ q) = has_prefix-append xs ys (ground arith) in
    (q, ground arith)

is_under-Below : (p root : FilePath) → is_under p root ≡ true → Below p root
is_under-Below p root h = (
  ground (arith, is_under-eq-prefix p root),
  has_prefix-append p.parts root.parts (ground (arith, is_under-eq-prefix p root)),
)

module _ (os : Os) where
  any-Some-Below :
      (p : FilePath) (roots : List String)
      → any (λ r. is_under p (os.realpath r)) roots ≡ true
      → Some (λ r. Below p (os.realpath r)) roots
  unfolding any
  any-Some-Below p [] h = cc
  any-Some-Below p (r ∷ roots) h = elim (Bool-cases (is_under p (os.realpath r))) [
    | inl yes_here ↦ inl (is_under-Below p (os.realpath r) yes_here)
    | inr not_here ↦ inr (any-Some-Below p roots (ground arith))
  ]

  resolve_within-Below :
      (path : String) (roots : List String) (windows : Option Bool) (p : FilePath)
      → resolve_within os path roots windows ≡ ok p
      → (p ≡ os.realpath path) × Some (λ r. Below p (os.realpath r)) roots
  unfolding resolve_within
  resolve_within-Below path roots windows p h =
      let e : p ≡ os.realpath path = ground arith in
      (e, rw e (any-Some-Below (os.realpath path) roots (ground arith)))

  -- A read that is permitted names a path whose resolved form lies at or below the resolved form of
  -- a read root that the manifest grants.
  pub check_read-Below :
      (m : CapabilityManifest) (path : String) (windows : Option Bool) (p : FilePath)
      → check_read os m path windows ≡ ok p
      → (p ≡ os.realpath path) × Some (λ r. Below p (os.realpath r)) m.fs_read_roots
  unfolding check_read
  check_read-Below m path windows p h =
      resolve_within-Below path m.fs_read_roots windows p (ground arith)

  -- A write that is permitted names a path whose resolved form lies at or below the resolved form of
  -- a write root that the manifest grants.
  pub check_write-Below :
      (m : CapabilityManifest) (path : String) (windows : Option Bool) (p : FilePath)
      → check_write os m path windows ≡ ok p
      → (p ≡ os.realpath path) × Some (λ r. Below p (os.realpath r)) m.fs_write_roots
  unfolding check_write
  check_write-Below m path windows p h =
      resolve_within-Below path m.fs_write_roots windows p (ground arith)

-- A separator, or the end of the path.
abbrev pub ends_part : List ℕ → Bool
ends_part [] = true
ends_part (c ∷ s) = eqb c b'/' || eqb c 92

-- No colon at all, or one that follows a single letter at the start and ends the first part.
abbrev pub colon_free_but_drive : List ℕ → Bool
colon_free_but_drive (c ∷ d ∷ rest) =
    if is_letter c && eqb d b':'
    then ends_part rest && not (has_colon rest)
    else not (has_colon (c ∷ d ∷ rest))
colon_free_but_drive s = not (has_colon s)

passes : List (List ℕ) → Bool
passes [] = true
passes (part ∷ parts) = not (has_colon part) && passes parts

reject_later-passes : (parts : List (List ℕ)) → (reject_later parts ≡ ok tt) ↔ (passes parts ≡ true)
unfolding reject_later passes
reject_later-passes [] = (λ h. refl, λ h. refl)
reject_later-passes (part ∷ parts) = ground (arith, reject_later-passes parts)

backslashed_facts :
    (c : ℕ)
    → (eqb (backslashed c) 92 ≡ (eqb c b'/' || eqb c 92))
      × (eqb (backslashed c) b':' ≡ eqb c b':')
      × (is_letter (backslashed c) ≡ is_letter c)
unfolding backslashed is_letter
backslashed_facts c = ground arith

split_parts-colon :
    (s : List ℕ)
    → (not (has_colon (split_parts (map backslashed s)).0)
        && passes (split_parts (map backslashed s)).1)
      ≡ not (has_colon s)
unfolding split_parts passes any
split_parts-colon [] = refl
split_parts-colon (c ∷ s) = ground (arith, backslashed_facts c, split_parts-colon s)

letter_facts : (c : ℕ) → is_letter c ≡ true → (eqb c b'/' ≡ false) × (eqb c 92 ≡ false)
unfolding is_letter
letter_facts c h = ground arith

abbrev is_nil : List ℕ → Bool
is_nil [] = true
is_nil (c ∷ s) = false

first_part-nil : (s : List ℕ) → is_nil (split_parts (map backslashed s)).0 ≡ ends_part s
unfolding split_parts
first_part-nil [] = refl
first_part-nil (c ∷ s) = ground (arith, backslashed_facts c)

-- What `_reject_ads` decides of a split path.
abbrev first_ok : List ℕ → Bool
first_ok part = not (has_colon part && not (is_drive part))

is_drive_long :
    (c d : ℕ) (part : List ℕ) → is_drive (c ∷ d ∷ part) ≡ (is_letter c && eqb d b':' && is_nil part)
unfolding is_drive
is_drive_long c d [] = ground arith
is_drive_long c d (e ∷ part) = ground arith

-- A part that is a drive has a colon, and the text in front of it was a letter and a colon.
drive_shape :
    (s : List ℕ)
    → (first_ok (split_parts (map backslashed s)).0 && passes (split_parts (map backslashed s)).1)
      ≡ colon_free_but_drive s
unfolding split_parts any is_drive passes
drive_shape [] = refl
drive_shape (c ∷ []) = ground (arith, backslashed_facts c)
drive_shape (c ∷ d ∷ rest) =
    let (part, parts) = split_parts (map backslashed rest) in
    ground (
      arith,
      backslashed_facts c,
      backslashed_facts d,
      letter_facts c,
      is_drive_long (backslashed c) (backslashed d) part,
      first_part-nil rest,
      split_parts-colon rest,
    )

-- With Windows semantics a path passes exactly when it has no colon, or when its only colon
-- follows one letter at its very start and ends the first part.
pub reject_ads-colons :
    (path : String) → (reject_ads path true ≡ ok tt) ↔ (colon_free_but_drive (codes path) ≡ true)
unfolding reject_ads
reject_ads-colons path = ground (
  arith,
  drive_shape (codes path),
  reject_later-passes (split_parts (map backslashed (codes path))).1,
)
