-- ===== src/Sqlite.antt =====
-- crates/bolt402-sqlite/src: the token store in a SQLite table. The statements are syntax, in
-- Sqlite.Statement, and SQLite's to run: that is a parameter, `Sql`, with what SQL says of every
-- statement in Sqlite.Laws. A step holds the mutex; the errors of a cancelled task are not modelled.
pub mod Statement
pub mod Laws
pub mod Expiry
pub mod Migration
use bolt.Prelude.{
  ℕ, ◌+◌, ◌-◌, Bool, true, false, Option, none, some, ◌++◌, ltb, if◌then◌else◌, Result, ok, err,
  map_err, ℤ, pos, negsuc, i64_half,
}
use bolt.Proto.Errors.{ClientError, backend}
use bolt.Proto.Port.{TokenStore}
use bolt.Sqlite.Statement.{
  Sql, Row, upsert, live_at, expired, delete_endpoint, delete_all, macaroon_column, preimage_column,
}
use bolt.Text.{Text, text}

pub data SqliteStoreError : Type 0 where
  database : Text → SqliteStoreError
  open_failed : Text → Text → SqliteStoreError
  migration : Text → SqliteStoreError
  task_join : Text → SqliteStoreError

-- `From<SqliteStoreError> for ClientError`.
unfoldable pub to_client_error : SqliteStoreError → ClientError
to_client_error (database e) = backend (text "database error: " ++ e)
to_client_error (open_failed path e) =
    backend (text "failed to open database at " ++ (path ++ (text ": " ++ e)))
to_client_error (migration e) = backend (text "schema migration failed: " ++ e)
to_client_error (task_join e) = backend (text "blocking task failed: " ++ e)

-- The sum of two numbers that are not negative, in a release build.
unfoldable pub i64_add : ℕ → ℕ → ℤ
i64_add a b =
    if ltb (a + b) i64_half then pos (a + b) else negsuc (i64_half + i64_half - (a + b) - 1)

-- The store, and the clock's reading in seconds.
pub record SqliteTokenStore (Conn : Type 0) : Type 0 where
  pub conn : Conn
  pub ttl : Option ℕ
  pub clock : ℕ

abbrev pub with_ttl : {Conn : Type 0} → ℕ → SqliteTokenStore Conn → SqliteTokenStore Conn
with_ttl seconds s = record s { ttl = some seconds }

-- `i64::try_from(ttl.as_secs()).unwrap_or(i64::MAX)`.
abbrev pub ttl_i64 : ℕ → ℕ
ttl_i64 seconds = if ltb seconds i64_half then seconds else i64_half - 1

unfoldable pub expiry : Option ℕ → ℕ → Option ℤ
expiry none now = none
expiry (some seconds) now = some (i64_add now (ttl_i64 seconds))

-- What `?` does with the number of rows of a statement.
abbrev pub executed : Result Text ℕ → Result SqliteStoreError (Unit {0})
executed (ok n) = ok tt
executed (err e) = err (database e)

module _ {Conn : Type 0} (sql : Sql Conn) where
  -- `conn.lock()` and the statements behind it.
  unfoldable pub locked :
      {A : Type 0}
      → (Conn → Conn × Result SqliteStoreError A)
      → SqliteTokenStore Conn
      → SqliteTokenStore Conn × Result SqliteStoreError A
  locked f s = elim (sql.poisoned s.conn) [
    | some e ↦ (s, err (task_join (text "mutex poisoned: " ++ e)))
    | none ↦ (record s { conn = (f s.conn).0 }, (f s.conn).1)
  ]

  unfoldable pub put_row :
      Text
      → Text
      → Text
      → SqliteTokenStore Conn
      → SqliteTokenStore Conn × Result SqliteStoreError (Unit {0})
  put_row endpoint macaroon preimage s =
      locked
        (λ c.
          let r =
            sql.execute
              (upsert (record {
                endpoint = endpoint;
                macaroon = macaroon;
                preimage = preimage;
                created_at = s.clock;
                expires_at = expiry s.ttl s.clock;
              }))
              c in
          (r.0, executed r.1))
        s

  unfoldable pub get_row :
      Text
      → SqliteTokenStore Conn
      → SqliteTokenStore Conn × Result SqliteStoreError (Option (Text × Text))
  get_row endpoint s =
      locked
        (λ c. (
          c,
          map_err database
              (sql.select_pair macaroon_column preimage_column (live_at endpoint s.clock) c),
        ))
        s

  unfoldable pub remove_row :
      Text → SqliteTokenStore Conn → SqliteTokenStore Conn × Result SqliteStoreError (Unit {0})
  remove_row endpoint s =
      locked (λ c. let r = sql.execute (delete_endpoint endpoint) c in (r.0, executed r.1)) s

  unfoldable pub clear_rows :
      SqliteTokenStore Conn → SqliteTokenStore Conn × Result SqliteStoreError (Unit {0})
  clear_rows s = locked (λ c. let r = sql.execute delete_all c in (r.0, executed r.1)) s

  unfoldable pub cleanup_expired :
      SqliteTokenStore Conn → SqliteTokenStore Conn × Result SqliteStoreError ℕ
  cleanup_expired s =
      locked (λ c. let r = sql.execute (expired s.clock) c in (r.0, map_err database r.1)) s

  unfoldable pub count : SqliteTokenStore Conn → SqliteTokenStore Conn × Result SqliteStoreError ℕ
  count s = locked (λ c. (c, map_err database (sql.count_all c))) s

  abbrev pub sqlite_store : TokenStore (SqliteTokenStore Conn)
  sqlite_store = record {
    put = λ k m p s. let r = put_row k m p s in (r.0, map_err to_client_error r.1);
    get = λ k s. let r = get_row k s in (r.0, map_err to_client_error r.1);
    remove = λ k s. let r = remove_row k s in (r.0, map_err to_client_error r.1);
    clear = λ s. let r = clear_rows s in (r.0, map_err to_client_error r.1);
  }
