-- ===== src/Sqlite/Expiry.antt =====
-- What a stored token reads as while time passes.
use bolt.Prelude.{
  ℕ, ◌+◌, ◌≤◌, ◌≡◌, refl, ◌∙◌, sym, ap, inl, inr, Bool, true, false, ◌&&◌, Option, none, some, ltb,
  if◌then◌else◌, Result, ok, err, map_err, arith, Option-cases, ℤ, pos, negsuc, i64_half,
}
use bolt.Sqlite.Laws.{
  IsSql, is_live, selected, purged, upsert-table, expired-table, live_at-selected,
}
use bolt.Sqlite.Statement.{Row, Sql, upsert, expired, live_at, macaroon_column, preimage_column}
use bolt.Sqlite.{
  SqliteTokenStore, SqliteStoreError, i64_add, ttl_i64, expiry, executed, database, locked, put_row,
  get_row, cleanup_expired,
}
use bolt.Text.{Text}

-- Whether a token that is put at time `now` is still read at time `later`. An expiry beyond the range
-- of an `i64` wraps around to the distant past.
abbrev pub survives : Option ℕ → ℕ → ℕ → Bool
survives none now later = true
survives (some d) now later = ltb (now + ttl_i64 d) i64_half && ltb later (now + ttl_i64 d)

is_live-expiry :
    (ttl : Option ℕ) (now later : ℕ) → is_live later (expiry ttl now) ≡ survives ttl now later
unfolding expiry i64_add
is_live-expiry none now later = refl
is_live-expiry (some d) now later = ground arith

executed_inv : (r : Result Text ℕ) → executed r ≡ ok tt → (n : ℕ) × (r ≡ ok n)
executed_inv (ok n) h = (n, refl)
executed_inv (err e) h = absurd (ground arith)

map_err_inv : {A : Type 0} (r : Result Text A) {a : A} → map_err database r ≡ ok a → r ≡ ok a
map_err_inv (ok b) h = ground arith
map_err_inv (err e) h = absurd (ground arith)

module _ {Conn : Type 0} (sql : Sql Conn) where
  locked_inv :
      {A : Type 0} (f : Conn → Conn × Result SqliteStoreError A) (s : SqliteTokenStore Conn) {a : A}
      → (locked sql f s).1 ≡ ok a
      → (locked sql f s ≡ (record s { conn = (f s.conn).0 }, (f s.conn).1)) × ((f s.conn).1 ≡ ok a)
  unfolding locked
  locked_inv f s {a} h = elim (Option-cases (sql.poisoned s.conn)) [
    | inl e ↦ (rw (locked, e) refl, rw (locked, e) at h)
    | inr (x, e) ↦ absurd (let g = rw (locked, e) at h in ground arith)
  ]

  get_row_inv :
      (k : Text) (s : SqliteTokenStore Conn) {r : Option (Text × Text)}
      → (get_row sql k s).1 ≡ ok r
      → sql.select_pair macaroon_column preimage_column (live_at k s.clock) s.conn ≡ ok r
  unfolding get_row
  get_row_inv k s h =
      map_err_inv _
        (locked_inv
          (λ c. (
            c,
            map_err database
                (sql.select_pair macaroon_column preimage_column (live_at k s.clock) c),
          ))
          s h).1

  module _ (laws : IsSql sql) where
    -- After a `put` that succeeds, a `get` that succeeds at a later time returns the token as long as
    -- it survives, by the store's time to live, and nothing from then on. With no time to live the
    -- token stays; with one whose end does not fit in an `i64`, it is gone at once.
    pub get_row-put_row :
        (k m p : Text) (s : SqliteTokenStore Conn) (later : ℕ) {r : Option (Text × Text)}
        → (put_row sql k m p s).1 ≡ ok tt
        → (get_row sql k (record (put_row sql k m p s).0 { clock = later })).1 ≡ ok r
        → r ≡ (if survives s.ttl s.clock later then some (m, p) else none)
    unfolding put_row
    get_row-put_row k m p s later {r} h g =
        let row : Row = record {
          endpoint = k;
          macaroon = m;
          preimage = p;
          created_at = s.clock;
          expires_at = expiry s.ttl s.clock;
        } in
        let (e, o) =
          locked_inv
            (λ c. ((sql.execute (upsert row) c).0, executed (sql.execute (upsert row) c).1)) s h in
        let (n, up) = executed_inv (sql.execute (upsert row) s.conn).1 o in
        live_at-selected sql laws k later _ r (get_row_inv k _ g)
        ∙ ap
            (λ (x : SqliteTokenStore Conn × Result SqliteStoreError (Unit {0})).
              selected later (laws.table x.0.conn k))
            e
        ∙ ap (selected later) (upsert-table sql laws row s.conn n up)
        ∙ ap (λ b. if b then some (m, p) else none) (is_live-expiry s.ttl s.clock later)

    live-later :
        (x : Option ℤ) (now later : ℕ)
        → now ≤ later
        → is_live now x ≡ false
        → is_live later x ≡ false
    live-later none now later h e = absurd (ground arith)
    live-later (some (pos n)) now later h e = ground arith
    live-later (some (negsuc n)) now later h e = refl

    selected-purged :
        (x : Option Row) (now later : ℕ)
        → now ≤ later
        → selected later (purged now x) ≡ selected later x
    selected-purged none now later h = refl
    selected-purged (some r) now later h = ground (arith, live-later r.expires_at now later h)

    -- Purging the expired tokens is not seen: whatever the endpoint, a `get` that succeeds at the same
    -- or a later time returns the same with and without the purge.
    pub get_row-cleanup_expired :
        (k : Text) (s : SqliteTokenStore Conn) (later n : ℕ) {r q : Option (Text × Text)}
        → (cleanup_expired sql s).1 ≡ ok n
        → s.clock ≤ later
        → (get_row sql k (record (cleanup_expired sql s).0 { clock = later })).1 ≡ ok r
        → (get_row sql k (record s { clock = later })).1 ≡ ok q
        → r ≡ q
    unfolding cleanup_expired
    get_row-cleanup_expired k s later n {r} {q} h le g j =
        let (e, o) =
          locked_inv
            (λ c. (
              (sql.execute (expired s.clock) c).0,
              map_err database (sql.execute (expired s.clock) c).1,
            ))
            s h in
        live_at-selected sql laws k later _ r (get_row_inv k _ g)
        ∙ ap
            (λ (x : SqliteTokenStore Conn × Result SqliteStoreError ℕ).
              selected later (laws.table x.0.conn k))
            e
        ∙ ap (selected later) (expired-table sql laws s.clock s.conn n k (map_err_inv _ o))
        ∙ selected-purged (laws.table s.conn k) s.clock later le
        ∙ sym (live_at-selected sql laws k later s.conn q (get_row_inv k _ j))
