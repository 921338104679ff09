-- ===== src/Tests/Examples/Sqlite.antt =====
-- The theorems on the SQLite store, over a table that is at most one row.
use bolt.Prelude.{
  ℕ, List, [], ◌∷◌, true, false, ◌≡◌, refl, Option, none, some, ite, if◌then◌else◌, Result, ok, err,
  arith, ℤ, pos,
}
use bolt.Sqlite.Expiry.{survives, get_row-put_row, get_row-cleanup_expired}
use bolt.Sqlite.Migration.{Schema, migrate, migrate-migrate}
use bolt.Sqlite.Laws.{IsSql, holds, text_of, inserted, remaining, set_column, set_columns}
use bolt.Sqlite.Statement.{
  Row, Sql, Column, text_column, integer_column, TextColumn, endpoint_column, macaroon_column,
  preimage_column, created_at_column, expires_at_column, Condition, Statement, insert_or_update,
  delete_where,
}
use bolt.Sqlite.{SqliteTokenStore, put_row, get_row, cleanup_expired}
use bolt.Text.Equality.{Text-discrete}
use bolt.Text.{Text, codes}

-- A database with room for one row.
abbrev Table : Type 0
Table = Option Row

abbrev row_of : Table → Text → Option Row
row_of none k = none
row_of (some r) k = ite (Text-discrete r.endpoint k) (some r) none

abbrev put_in : Row → List Column → Table → Table × Result Text ℕ
put_in new columns none = (some new, ok 1)
put_in new columns (some old) =
    ite (Text-discrete new.endpoint old.endpoint) (some (inserted columns new (some old)), ok 1)
      (some old, err (codes "database or disk is full"))

abbrev run_statement : Statement → Table → Table × Result Text ℕ
run_statement (insert_or_update new columns) c = put_in new columns c
run_statement (delete_where w) c = (remaining w c, ok 1)

abbrev select_from : TextColumn → TextColumn → Condition → Table → Option (Text × Text)
select_from a b w none = none
select_from a b w (some r) = if holds w r then some (text_of a r, text_of b r) else none

abbrev table_sql : Sql Table
table_sql = record {
  poisoned = λ c. none;
  execute = run_statement;
  select_pair = λ a b w c. ok (select_from a b w c);
  count_all = λ c. err (codes "not counted");
}

ok_inv : {E A : Type 0} (a b : A) → ◌≡◌ {A = Result E A} (ok a) (ok b) → a ≡ b
ok_inv a b e = ground arith

row_of-keyed : (c : Table) (k : Text) (r : Row) → row_of c k ≡ some r → r.endpoint ≡ k
row_of-keyed none k r h = absurd (ground arith)
row_of-keyed (some x) k r h = ground arith

set_column-endpoint :
    (column : Column) (new old : Row)
    → new.endpoint ≡ old.endpoint
    → new.endpoint ≡ (set_column column new old).endpoint
set_column-endpoint (text_column endpoint_column) new old h = refl
set_column-endpoint (text_column macaroon_column) new old h = h
set_column-endpoint (text_column preimage_column) new old h = h
set_column-endpoint (integer_column created_at_column) new old h = h
set_column-endpoint (integer_column expires_at_column) new old h = h

set_columns-endpoint :
    (columns : List Column) (new old : Row)
    → new.endpoint ≡ old.endpoint
    → new.endpoint ≡ (set_columns columns new old).endpoint
set_columns-endpoint [] new old h = h
set_columns-endpoint (column ∷ columns) new old h =
    set_columns-endpoint columns new (set_column column new old)
      (set_column-endpoint column new old h)

row_of-put_in :
    (r : Row) (columns : List Column) (c : Table) (n : ℕ) (k : Text)
    → (put_in r columns c).1 ≡ ok n
    → row_of (put_in r columns c).0 k
      ≡ ite
          (Text-discrete r.endpoint k)
          (some (inserted columns r (row_of c r.endpoint)))
          (row_of c k)
row_of-put_in r columns none n k h = refl
row_of-put_in r columns (some old) n k h =
    let same = set_columns-endpoint columns r old in ground arith

row_of-remaining :
    (w : Option Condition) (c : Table) (k : Text)
    → row_of (remaining w c) k ≡ remaining w (row_of c k)
row_of-remaining w none k = refl
row_of-remaining w (some r) k = ground arith

select_from-finds :
    (a b : TextColumn) (w : Condition) (c : Table) (v : Text × Text)
    → select_from a b w c ≡ some v
    → (k : Text) × (r : Row) × (row_of c k ≡ some r)
      × (holds w r ≡ true)
      × (v ≡ (text_of a r, text_of b r))
select_from-finds a b w none v h = absurd (ground arith)
select_from-finds a b w (some r) v h = (r.endpoint, r, ground arith, ground arith, ground arith)

select_from-misses :
    (a b : TextColumn) (w : Condition) (c : Table) (k : Text) (r : Row)
    → select_from a b w c ≡ none
    → row_of c k ≡ some r
    → holds w r ≡ false
select_from-misses a b w none k r h e = absurd (ground arith)
select_from-misses a b w (some x) k r h e = ground arith

table_sql-IsSql : IsSql table_sql
table_sql-IsSql = record {
  table = row_of;
  keyed = row_of-keyed;
  inserts = row_of-put_in;
  deletes = λ w c n k h. row_of-remaining w c k;
  finds = λ a b w c v h. select_from-finds a b w c v (ok_inv _ _ h);
  misses = λ a b w c k r h e. select_from-misses a b w c k r (ok_inv _ _ h) e;
}

-- A store with an hour to live, at time 1000, and what its table has after one token was put.
abbrev hour_store : SqliteTokenStore Table
hour_store = record { conn = none; ttl = some 3_600; clock = 1_000 }

abbrev put_once : SqliteTokenStore Table
put_once = record hour_store {
  conn = some (record {
    endpoint = codes "k";
    macaroon = codes "m";
    preimage = codes "p";
    created_at = 1_000;
    expires_at = some (pos 4_600);
  });
}

abbrev kept : Option (Text × Text)
kept = some (codes "m", codes "p")

get_row-put_row_example : kept ≡ (if survives (some 3_600) 1_000 2_000 then kept else none)
unfolding put_row get_row bolt.Sqlite.locked bolt.Sqlite.expiry bolt.Sqlite.i64_add Text-discrete
    bolt.Text.Equality.decide_text bolt.Text.Equality.text_eq holds
get_row-put_row_example =
    get_row-put_row table_sql table_sql-IsSql (codes "k") (codes "m") (codes "p") hour_store 2_000
      {r = kept} refl refl

get_row-cleanup_expired_example : ◌≡◌ {A = Option (Text × Text)} none none
unfolding get_row cleanup_expired bolt.Sqlite.locked Text-discrete bolt.Text.Equality.decide_text
    bolt.Text.Equality.text_eq holds
get_row-cleanup_expired_example =
    get_row-cleanup_expired table_sql table_sql-IsSql (codes "k")
      (record put_once { clock = 4_600 }) 5_000 1 {r = none} {q = none} refl (omega arith) refl refl

-- A database that is only its version.
abbrev version_schema : Schema ℤ
version_schema = record {
  user_version = λ c. ok c;
  set_user_version = λ n c. (pos n, ok tt);
  execute_schema_v1 = λ c. (c, ok tt);
  set_wal = λ c. (c, ok tt);
  open_file = λ path. ok (pos 0);
  open_memory = ok (pos 0);
}

new_database_migrated : (migrate version_schema (pos 0)).1 ≡ ok tt
unfolding migrate
new_database_migrated = refl

migrate-migrate_example :
    migrate version_schema (migrate version_schema (pos 0)).0
    ≡ ((migrate version_schema (pos 0)).0, ok tt)
migrate-migrate_example = migrate-migrate version_schema (λ c h. refl) (pos 0) new_database_migrated
