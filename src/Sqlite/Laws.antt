-- ===== src/Sqlite/Laws.antt =====
-- What SQL says of statements and conditions, whatever they are, over the table as a map from the
-- primary key; and what follows for the statements of the store.
use bolt.Prelude.{
  ℕ, ◌≡◌, refl, sym, ap, ◌∙◌, subst, Bool, true, false, ◌&&◌, ◌||◌, not, Option, none, some, List,
  [], ◌∷◌, ite, ltb, leb, if◌then◌else◌, ok, ℤ, pos, negsuc, inl, inr, Option-cases, arith,
}
use bolt.Sqlite.Statement.{
  TextColumn, endpoint_column, macaroon_column, preimage_column, IntegerColumn, created_at_column,
  expires_at_column, Column, text_column, integer_column, Row, Condition, equals, is_null,
  is_not_null, greater, at_most, both, either, insert_or_update, delete_where, Sql, upsert,
  updated_columns, live_at, expired,
}
use bolt.Text.Equality.{text_eq, text_eq_iff, Text-discrete}
use bolt.Text.{Text}

abbrev pub text_of : TextColumn → Row → Text
text_of endpoint_column r = r.endpoint
text_of macaroon_column r = r.macaroon
text_of preimage_column r = r.preimage

-- `none` is `NULL`.
abbrev pub integer_of : IntegerColumn → Row → Option ℤ
integer_of created_at_column r = some (pos r.created_at)
integer_of expires_at_column r = r.expires_at

abbrev pub is_greater : Option ℤ → ℕ → Bool
is_greater none n = false
is_greater (some (pos e)) n = ltb n e
is_greater (some (negsuc e)) n = false

abbrev pub is_at_most : Option ℤ → ℕ → Bool
is_at_most none n = false
is_at_most (some (pos e)) n = leb e n
is_at_most (some (negsuc e)) n = true

abbrev pub is_none : Option ℤ → Bool
is_none none = true
is_none (some x) = false

-- Whether a condition is true of a row. A comparison with `NULL` is not true, and with `AND` and
-- `OR` alone it makes no difference whether it is false or unknown.
unfoldable pub holds : Condition → Row → Bool
holds (equals column t) r = text_eq (text_of column r) t
holds (is_null column) r = is_none (integer_of column r)
holds (is_not_null column) r = not (is_none (integer_of column r))
holds (greater column n) r = is_greater (integer_of column r) n
holds (at_most column n) r = is_at_most (integer_of column r) n
holds (both a b) r = holds a r && holds b r
holds (either a b) r = holds a r || holds b r

-- `SET column = excluded.column`.
abbrev pub set_column : Column → Row → Row → Row
set_column (text_column endpoint_column) new old = record old { endpoint = new.endpoint }
set_column (text_column macaroon_column) new old = record old { macaroon = new.macaroon }
set_column (text_column preimage_column) new old = record old { preimage = new.preimage }
set_column (integer_column created_at_column) new old = record old { created_at = new.created_at }
set_column (integer_column expires_at_column) new old = record old { expires_at = new.expires_at }

abbrev pub set_columns : List Column → Row → Row → Row
set_columns [] new old = old
set_columns (column ∷ columns) new old = set_columns columns new (set_column column new old)

-- The row after an insertion, given the row that has the same key.
abbrev pub inserted : List Column → Row → Option Row → Row
inserted columns new none = new
inserted columns new (some old) = set_columns columns new old

abbrev pub is_deleted : Option Condition → Row → Bool
is_deleted none r = true
is_deleted (some w) r = holds w r

abbrev pub remaining : Option Condition → Option Row → Option Row
remaining w none = none
remaining w (some r) = if is_deleted w r then none else some r

-- A statement that succeeds does to the table what it says, and a query that succeeds has found a
-- row where its condition is true, or there is none.
pub record IsSql {Conn : Type 0} (sql : Sql Conn) : Type 0 where
  pub table : Conn → Text → Option Row
  pub keyed : (c : Conn) (k : Text) (r : Row) → table c k ≡ some r → r.endpoint ≡ k
  pub inserts :
      (r : Row) (columns : List Column) (c : Conn) (n : ℕ) (k : Text)
      → (sql.execute (insert_or_update r columns) c).1 ≡ ok n
      → table (sql.execute (insert_or_update r columns) c).0 k
        ≡ ite
            (Text-discrete r.endpoint k)
            (some (inserted columns r (table c r.endpoint)))
            (table c k)
  pub deletes :
      (w : Option Condition) (c : Conn) (n : ℕ) (k : Text)
      → (sql.execute (delete_where w) c).1 ≡ ok n
      → table (sql.execute (delete_where w) c).0 k ≡ remaining w (table c k)
  pub finds :
      (a b : TextColumn) (w : Condition) (c : Conn) (v : Text × Text)
      → sql.select_pair a b w c ≡ ok (some v)
      → (k : Text) × (r : Row) × (table c k ≡ some r)
        × (holds w r ≡ true)
        × (v ≡ (text_of a r, text_of b r))
  pub misses :
      (a b : TextColumn) (w : Condition) (c : Conn) (k : Text) (r : Row)
      → sql.select_pair a b w c ≡ ok none
      → table c k ≡ some r
      → holds w r ≡ false

-- A token without an end, or with an end in the future.
abbrev pub is_live : ℕ → Option ℤ → Bool
is_live now none = true
is_live now (some (pos e)) = ltb now e
is_live now (some (negsuc n)) = false

-- What is read of an endpoint's row, and what a purge leaves of it.
abbrev pub selected : ℕ → Option Row → Option (Text × Text)
selected now none = none
selected now (some r) = if is_live now r.expires_at then some (r.macaroon, r.preimage) else none

abbrev pub purged : ℕ → Option Row → Option Row
purged now none = none
purged now (some r) = if is_live now r.expires_at then some r else none

or_live : (now : ℕ) (x : Option ℤ) → (is_none x || is_greater x now) ≡ is_live now x
or_live now none = refl
or_live now (some (pos e)) = refl
or_live now (some (negsuc e)) = refl

and_expired : (now : ℕ) (x : Option ℤ) → (not (is_none x) && is_at_most x now) ≡ not (is_live now x)
and_expired now none = refl
and_expired now (some (pos e)) = ground arith
and_expired now (some (negsuc e)) = refl

holds-live_at :
    (k : Text) (now : ℕ) (r : Row)
    → holds (live_at k now) r ≡ (text_eq r.endpoint k && is_live now r.expires_at)
unfolding holds
holds-live_at k now r = ap (λ b. text_eq r.endpoint k && b) (or_live now r.expires_at)

remaining-expired :
    (now : ℕ) (x : Option Row)
    → remaining (some (both (is_not_null expires_at_column) (at_most expires_at_column now))) x
      ≡ purged now x
unfolding holds
remaining-expired now none = refl
remaining-expired now (some r) = rw (and_expired now r.expires_at) (ground arith)

module _ {Conn : Type 0} (sql : Sql Conn) (laws : IsSql sql) where
  -- The row that was put, where there was one before and where there was none.
  pub upsert-table :
      (r : Row) (c : Conn) (n : ℕ)
      → (sql.execute (upsert r) c).1 ≡ ok n
      → laws.table (sql.execute (upsert r) c).0 r.endpoint ≡ some r
  upsert-table r c n h =
      laws.inserts r _ c n r.endpoint h ∙ ground arith ∙ ap some (go (laws.table c r.endpoint) refl)
    where
      go : (x : Option Row) → laws.table c r.endpoint ≡ x → inserted updated_columns r x ≡ r
      go none e = refl
      go (some old) e = ap (λ k. record r { endpoint = k }) (laws.keyed c r.endpoint old e)

  pub expired-table :
      (now : ℕ) (c : Conn) (n : ℕ) (k : Text)
      → (sql.execute (expired now) c).1 ≡ ok n
      → laws.table (sql.execute (expired now) c).0 k ≡ purged now (laws.table c k)
  expired-table now c n k h = laws.deletes _ c n k h ∙ remaining-expired now (laws.table c k)

  pub live_at-selected :
      (k : Text) (now : ℕ) (c : Conn) (r : Option (Text × Text))
      → sql.select_pair macaroon_column preimage_column (live_at k now) c ≡ ok r
      → r ≡ selected now (laws.table c k)
  live_at-selected k now c none h = elim (Option-cases (laws.table c k)) [
    | inl e ↦ rw e refl
    | inr (row, e) ↦
        (let off = sym (holds-live_at k now row) ∙ laws.misses _ _ _ c k row h e in
          let same = (text_eq_iff row.endpoint k).1 (laws.keyed c k row e) in
          rw e (ground (arith, off, same)))
  ]
  live_at-selected k now c (some v) h =
      let (j, row, t, on, e) = laws.finds _ _ _ c v h in
      let both_true = sym (holds-live_at k now row) ∙ on in
      let same : text_eq row.endpoint k ≡ true = ground (arith, both_true) in
      let live : is_live now row.expires_at ≡ true = ground (arith, both_true) in
      let here =
        subst (λ x. laws.table c x ≡ some row)
          (sym (laws.keyed c j row t) ∙ (text_eq_iff row.endpoint k).0 same) t in
      rw here (rw live (ap some e))
