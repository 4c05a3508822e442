-- ===== src/Database.antt =====
-- src/mob/database.py: the engine and the session factory of the process, and the migrations of
-- `init_db` and `migrate_db`. The connection (SQLAlchemy and the database) is a parameter.
pub mod Engines
pub mod Growth
pub mod Migrations
pub mod Preserved
use mob.Prelude.{
  ℕ, zero, suc, String, ◌==◌, ◌≡◌, Bool, true, false, not, ◌&&◌, ◌||◌, Option, none, some, List, [],
  ◌∷◌, ◌++◌, any, is_truthy, is_empty, or_else, if◌then◌else◌,
}

pub record Column : Type 0 where
  pub name : String
  pub type_name : String
  pub nullable : Bool

-- A table of `Base.metadata`
pub record Table : Type 0 where
  pub name : String
  pub columns : List Column

abbrev pub is_declared : List Table → String → Bool
is_declared tables name = any (λ t. t.name == name) tables

-- A connection in a transaction over databases of type `S`: what `inspect` reads, and the
-- statements, which are taken to succeed; the one of `backfill` reads the column id of the table. `rows`
-- is the number of rows that it fills.
pub record Connection (S : Type 0) : Type 0 where
  pub has_table : String → S → Bool
  pub has_column : (table column : String) → S → Bool
  pub rename_table : (old new : String) → S → S
  pub create_all : List Table → S → S
  pub add_column : (table column type_name : String) → S → S
  pub backfill : (table column : String) → S → S
  pub rows : (table column : String) → S → ℕ
  -- `ALTER TABLE old RENAME TO new`, where there is `old` and no `new`
  pub rename-has_table :
      (old new n : String) (s : S)
      → has_table old s ≡ true
      → has_table new s ≡ false
      → has_table n (rename_table old new s)
        ≡ (if n == new then true else if n == old then false else has_table n s)
  pub rename-has_column :
      (old new n c : String) (s : S)
      → has_table old s ≡ true
      → has_table new s ≡ false
      → has_column n c (rename_table old new s)
        ≡ (if n == new then has_column old c s else if n == old then false else has_column n c s)
  -- `create_all` creates the declared tables that are missing.
  pub create-has_table :
      (ts : List Table) (n : String) (s : S)
      → has_table n (create_all ts s) ≡ has_table n s || is_declared ts n
  pub create-has_column :
      (ts : List Table) (n c : String) (s : S)
      → has_table n s ≡ true
      → has_column n c (create_all ts s) ≡ has_column n c s
  pub create-none :
      (ts : List Table) (s : S)
      → ((n : String) → is_declared ts n ≡ true → has_table n s ≡ true)
      → create_all ts s ≡ s
  -- `ALTER TABLE t ADD COLUMN c`, where there is the table
  pub add-has_table :
      (t c type_name n : String) (s : S)
      → has_table t s ≡ true
      → has_table n (add_column t c type_name s) ≡ has_table n s
  pub add-has_column :
      (t c type_name n d : String) (s : S)
      → has_table t s ≡ true
      → has_column n d (add_column t c type_name s) ≡ (t == n && c == d) || has_column n d s
  -- `UPDATE t SET c = ... WHERE c IS NULL` changes no table's columns.
  pub backfill-has_table : (t c n : String) (s : S) → has_table n (backfill t c s) ≡ has_table n s
  pub backfill-has_column :
      (t c n d : String) (s : S) → has_column n d (backfill t c s) ≡ has_column n d s

-- The entries of `actions`
pub data Action : Type 0 where
  added_column : (table column type_name : String) → Action
  backfilled : (table column : String) (rowcount : ℕ) → Action

abbrev is_zero : ℕ → Bool
is_zero zero = true
is_zero (suc n) = false

module _ {S : Type 0} (conn : Connection S) where
  unfoldable pub rename_legacy_tables : S → S
  rename_legacy_tables s =
      if conn.has_table "agent_runs" s && not (conn.has_table "sessions" s)
      then conn.rename_table "agent_runs" "sessions" s
      else s

  -- A column that is not `existing`
  unfoldable pub add_column_and_backfill : (table : String) → Column → S → S × List Action
  add_column_and_backfill table column s =
      let s' = conn.add_column table column.name column.type_name s in
      let added = added_column table column.name column.type_name in
      let rowcount = conn.rows table column.name s' in
      if column.nullable then (s', added ∷ []) else (
        conn.backfill table column.name s',
        (if is_zero rowcount
            then added ∷ []
            else added ∷ backfilled table column.name rowcount ∷ []),
      )

  unfoldable pub add_if_missing : Bool → (table : String) → Column → S → S × List Action
  unfolding add_column_and_backfill
  add_if_missing true table column s = (s, [])
  add_if_missing false table column s = add_column_and_backfill table column s

  -- The loop over the columns of a table
  unfoldable pub add_columns :
      (table : String) → (existing : String → Bool) → List Column → S → S × List Action
  unfolding add_if_missing
  add_columns table existing [] s = (s, [])
  add_columns table existing (column ∷ columns) s =
      let (s', actions) = add_if_missing (existing column.name) table column s in
      let (s'', others) = add_columns table existing columns s' in (s'', actions ++ others)

  unfoldable pub add_missing_to : Bool → Table → S → S × List Action
  unfolding add_columns
  add_missing_to false table s = (s, [])
  add_missing_to true table s =
      add_columns table.name (λ c. conn.has_column table.name c s) table.columns s

  unfoldable pub add_missing_columns : List Table → S → S × List Action
  unfolding add_missing_to
  add_missing_columns [] s = (s, [])
  add_missing_columns (table ∷ tables) s =
      let (s', actions) = add_missing_to (conn.has_table table.name s) table s in
      let (s'', others) = add_missing_columns tables s' in (s'', actions ++ others)

  unfoldable pub migrate_db : List Table → S → S × List Action
  unfolding rename_legacy_tables add_missing_columns
  migrate_db tables s = add_missing_columns tables (conn.create_all tables (rename_legacy_tables s))

  unfoldable pub init_db : List Table → S → S
  unfolding migrate_db
  init_db tables s = (migrate_db tables s).0
