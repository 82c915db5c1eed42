-- ===== src/Migrations.antt =====
-- scr/migrations.py: forward-only migrations. `D` is the content of the database; a snapshot is the
-- database itself, and a failed `apply` may leave any content behind before it is restored.
pub mod Forward
use selfconnect_runtime.Base.{
  ℕ, String, Bool, false, Option, none, some, List, [], ◌∷◌, ltb, leb, eqb, if◌then◌else◌, any,
  order_by, Result, ok, err,
}

pub record Database (D : Type 0) : Type 0 where
  pub content : D
  pub user_version : ℕ

pub record Migration (D : Type 0) : Type 0 where
  pub version : ℕ
  pub name : String
  pub apply : D → Result (String × D) D

pub data MigrationError : Type 0 where
  duplicate_version : ℕ → MigrationError
  migration_failed : (version : ℕ) (name reason : String) → MigrationError

abbrev pub migration_version : {D : Type 0} → Migration D → ℕ
migration_version m = m.version

-- The first version that stands twice, after those in `seen`.
unfoldable pub first_duplicate : {D : Type 0} → List ℕ → List (Migration D) → Option ℕ
unfolding any
first_duplicate seen [] = none
first_duplicate seen (m ∷ rest) =
    let later = first_duplicate (m.version ∷ seen) rest in
    if any (eqb m.version) seen then some m.version else later

abbrev pub is_beyond : Option ℕ → ℕ → Bool
is_beyond none version = false
is_beyond (some target) version = ltb target version

-- The result of the rest of the loop, with one more migration applied before it.
abbrev pub after_applied :
    {D : Type 0}
    → Migration D
    → Result MigrationError (List (ℕ × String)) × Database D
    → Result MigrationError (List (ℕ × String)) × Database D
after_applied m (err e, db) = (err e, db)
after_applied m (ok applied, db) = (ok ((m.version, m.name) ∷ applied), db)

unfoldable pub apply_pending :
    {D : Type 0}
    → List (Migration D)
    → Option ℕ
    → Database D
    → Result MigrationError (List (ℕ × String)) × Database D
apply_pending [] target db = (ok [], db)
apply_pending (m ∷ rest) target db =
    let skipped = apply_pending rest target db in
    if leb m.version db.user_version
    then skipped
    else if is_beyond target m.version
    then (ok [], db)
    else elim (m.apply db.content) [
      | err (reason, partial) ↦ (err (migration_failed m.version m.name reason), db)
      | ok content ↦
          after_applied m
            (apply_pending rest target (record { content = content; user_version = m.version }))
    ]

unfoldable pub migrate :
    {D : Type 0}
    → List (Migration D)
    → Option ℕ
    → Database D
    → Result MigrationError (List (ℕ × String)) × Database D
unfolding first_duplicate apply_pending
migrate migrations target db =
    let ordered = order_by migration_version migrations in
    elim (first_duplicate [] ordered) [
      | some version ↦ (err (duplicate_version version), db)
      | none ↦ apply_pending ordered target db
    ]
