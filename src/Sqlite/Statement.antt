-- ===== src/Sqlite/Statement.antt =====
-- The SQL of crates/bolt402-sqlite/src/store.rs as syntax, with the parameters that are bound to it:
-- the statements that the store runs on its table, `l402_tokens`, and their conditions.
use bolt.Prelude.{ℕ, Option, none, some, List, [], ◌∷◌, Result, ℤ}
use bolt.Text.{Text}

-- The columns, by their type.
pub data TextColumn : Type 0 where
  endpoint_column macaroon_column preimage_column : TextColumn

pub data IntegerColumn : Type 0 where
  created_at_column expires_at_column : IntegerColumn

pub data Column : Type 0 where
  text_column : TextColumn → Column
  integer_column : IntegerColumn → Column

pub record Row : Type 0 where
  pub endpoint : Text
  pub macaroon : Text
  pub preimage : Text
  pub created_at : ℕ
  pub expires_at : Option ℤ

-- `column = ?`, `IS NULL`, `IS NOT NULL`, `>`, `<=`, `AND` and `OR`.
pub data Condition : Type 0 where
  equals : TextColumn → Text → Condition
  is_null is_not_null : IntegerColumn → Condition
  greater at_most : IntegerColumn → ℕ → Condition
  both either : Condition → Condition → Condition

-- `INSERT … ON CONFLICT(endpoint) DO UPDATE SET` with the columns that are set to `excluded`, and
-- `DELETE`, with or without a `WHERE`.
pub data Statement : Type 0 where
  insert_or_update : Row → List Column → Statement
  delete_where : Option Condition → Statement

-- What rusqlite does with statements on a connection, and whether the connection's mutex is
-- poisoned. `select_pair` is `query_row` with the two selected columns; no row is `none`.
pub record Sql (Conn : Type 0) : Type 0 where
  pub poisoned : Conn → Option Text
  pub execute : Statement → Conn → Conn × Result Text ℕ
  pub select_pair : TextColumn → TextColumn → Condition → Conn → Result Text (Option (Text × Text))
  pub count_all : Conn → Result Text ℕ

-- Lines 184 to 188.
abbrev pub updated_columns : List Column
updated_columns =
    text_column macaroon_column
    ∷ text_column preimage_column
    ∷ integer_column created_at_column
    ∷ integer_column expires_at_column
    ∷ []

-- Lines 181 to 188.
abbrev pub upsert : Row → Statement
upsert row = insert_or_update row updated_columns

-- Lines 208 to 211.
abbrev pub live_at : Text → ℕ → Condition
live_at endpoint now =
    both (equals endpoint_column endpoint)
      (either (is_null expires_at_column) (greater expires_at_column now))

-- Lines 127 and 128.
abbrev pub expired : ℕ → Statement
expired now =
    delete_where (some (both (is_not_null expires_at_column) (at_most expires_at_column now)))

-- Lines 238 and 254.
abbrev pub delete_endpoint : Text → Statement
delete_endpoint endpoint = delete_where (some (equals endpoint_column endpoint))

abbrev pub delete_all : Statement
delete_all = delete_where none
