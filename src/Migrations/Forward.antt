-- ===== src/Migrations/Forward.antt =====
-- scr/migrations.py: no migration is left half done.
use selfconnect_runtime.Base.{ℕ, ◌<◌, ◌≡◌, false, Option, string_eq, ok}
use selfconnect_runtime.Migrations.{Database, Migration, is_beyond}

-- The databases that whole migrations lead to, each to a version above the one before.
pub data Migrated {D : Type 0} (target : Option ℕ) : Database D → Database D → Type 0 where
  unchanged : {db : Database D} → Migrated target db db
  upgraded :
      {db end : Database D} (m : Migration D) (content : D)
      → db.user_version < m.version
      → is_beyond target m.version ≡ false
      → m.apply db.content ≡ ok content
      → Migrated target (record { content = content; user_version = m.version }) end
      → Migrated target db end
