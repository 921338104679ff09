-- ===== src/Sqlite/Migration.antt =====
-- crates/bolt402-sqlite/src/migration.rs, and the two functions that open a store. SQLite's pragmas,
-- the execution of the schema and the opening of a file are a parameter.
use bolt.Prelude.{
  ℕ, ◌≡◌, refl, ap, subst, inl, inr, Bool, true, none, ◌++◌, ltb, if◌then◌else◌, Result, ok, err,
  arith, Bool-cases, ℤ, pos, negsuc,
}
use bolt.Sqlite.{SqliteStoreError, SqliteTokenStore, open_failed, migration, database}
use bolt.Text.{Text, text}

pub record Schema (Conn : Type 0) : Type 0 where
  pub user_version : Conn → Result Text ℤ
  pub set_user_version : ℕ → Conn → Conn × Result Text (Unit {0})
  pub execute_schema_v1 : Conn → Conn × Result Text (Unit {0})
  pub set_wal : Conn → Conn × Result Text (Unit {0})
  pub open_file : Text → Result Text Conn
  pub open_memory : Result Text Conn

abbrev pub below_one : ℤ → Bool
below_one (pos n) = ltb n 1
below_one (negsuc n) = true

module _ {Conn : Type 0} (schema : Schema Conn) where
  -- Lines 37 to 39.
  abbrev pub record_version :
      Conn × Result Text (Unit {0}) → Conn × Result SqliteStoreError (Unit {0})
  record_version (c, ok u) = (c, ok tt)
  record_version (c, err e) = (c, err (migration (text "failed to update user_version: " ++ e)))

  -- Lines 34 to 39.
  abbrev pub after_schema :
      Conn × Result Text (Unit {0}) → Conn × Result SqliteStoreError (Unit {0})
  after_schema (c, ok u) = record_version (schema.set_user_version 1 c)
  after_schema (c, err e) = (c, err (migration (text "v1 migration failed: " ++ e)))

  -- Lines 33 to 46.
  abbrev pub from_version : Conn → Result Text ℤ → Conn × Result SqliteStoreError (Unit {0})
  from_version c (err e) = (c, err (migration (text "failed to read user_version: " ++ e)))
  from_version c (ok version) =
      if below_one version then after_schema (schema.execute_schema_v1 c) else (c, ok tt)

  unfoldable pub migrate : Conn → Conn × Result SqliteStoreError (Unit {0})
  migrate c = from_version c (schema.user_version c)

  abbrev opened :
      Conn × Result SqliteStoreError (Unit {0}) → Result SqliteStoreError (SqliteTokenStore Conn)
  opened (c, err e) = err e
  opened (c, ok u) = ok (record { conn = c; ttl = none; clock = 0 })

  abbrev with_wal : Conn × Result Text (Unit {0}) → Result SqliteStoreError (SqliteTokenStore Conn)
  with_wal (c, err e) = err (migration (text "failed to enable WAL mode: " ++ e))
  with_wal (c, ok u) = opened (migrate c)

  -- `SqliteTokenStore::new`.
  unfoldable pub open_store : Text → Result SqliteStoreError (SqliteTokenStore Conn)
  open_store path = elim (schema.open_file path) [
    | err e ↦ err (open_failed path e)
    | ok c ↦ with_wal (schema.set_wal c)
  ]

  unfoldable pub in_memory : Result SqliteStoreError (SqliteTokenStore Conn)
  in_memory = elim schema.open_memory [ err e ↦ err (database e) | ok c ↦ opened (migrate c) ]

  module _
      (kept : (c : Conn)
        → (schema.set_user_version 1 c).1 ≡ ok tt
        → schema.user_version (schema.set_user_version 1 c).0 ≡ ok (pos 1)) where
    after_schema-current :
        (r : Conn × Result Text (Unit {0}))
        → (after_schema r).1 ≡ ok tt
        → schema.user_version (after_schema r).0 ≡ ok (pos 1)
    after_schema-current (c, err e) h = absurd (ground arith)
    after_schema-current (c, ok u) h = go (schema.set_user_version 1 c) refl h
      where
        go :
            (r : Conn × Result Text (Unit {0}))
            → schema.set_user_version 1 c ≡ r
            → (record_version r).1 ≡ ok tt
            → schema.user_version (record_version r).0 ≡ ok (pos 1)
        go (d, ok v) e k =
            subst (λ (x : Conn × Result Text (Unit {0})). schema.user_version x.0 ≡ ok (pos 1)) e
              (kept c (ap (λ (x : Conn × Result Text (Unit {0})). x.1) e))
        go (d, err f) e k = absurd (ground arith)

    migrate-current : (c : Conn) → schema.user_version c ≡ ok (pos 1) → migrate c ≡ (c, ok tt)
    unfolding migrate
    migrate-current c e = rw (migrate, e) refl

    migrate_again :
        (c : Conn) (v : Result Text ℤ)
        → schema.user_version c ≡ v
        → (from_version c v).1 ≡ ok tt
        → migrate (from_version c v).0 ≡ ((from_version c v).0, ok tt)
    unfolding migrate
    migrate_again c (err e) p h = absurd (ground arith)
    migrate_again c (ok version) p h = elim (Bool-cases (below_one version)) [
      | inl b ↦
          rw b (migrate-current _ (after_schema-current (schema.execute_schema_v1 c) (rw b at h)))
      | inr b ↦ rw (b, migrate, p, b) refl
    ]

    -- Where setting the version to 1 makes the database read back as version 1: a migration that
    -- succeeded is not repeated. Run again, it succeeds and changes nothing.
    pub migrate-migrate :
        (c : Conn) → (migrate c).1 ≡ ok tt → migrate (migrate c).0 ≡ ((migrate c).0, ok tt)
    unfolding migrate
    migrate-migrate c h = migrate_again c (schema.user_version c) refl h
