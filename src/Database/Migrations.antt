-- ===== src/Database/Migrations.antt =====
-- What the migrations of src/mob/database.py come to.
use mob.Prelude.{
  String, ◌==◌, eq_refl, ◌≡◌, refl, sym, ap, ◌∙◌, inl, inr, Bool, true, false, not, ◌&&◌, List, [],
  ◌∷◌, In, if◌then◌else◌,
}
use mob.Database.Growth.{Grows, or-true, add_missing_columns-Grows}
use mob.Database.{
  Column, Table, is_declared, Connection, rename_legacy_tables, add_if_missing, add_columns,
  add_missing_to, add_missing_columns, migrate_db, init_db,
}

is_declared-In : (ts : List Table) (t : Table) → In t ts → is_declared ts t.name ≡ true
is_declared-In [] t m = absurd m
is_declared-In (u ∷ ts) t (inl e) = rw (ap (λ x. x.name == t.name) (sym e), eq_refl t.name) refl
is_declared-In (u ∷ ts) t (inr m) = rw (is_declared-In ts t m) (or-true (u.name == t.name))

module _ {S : Type 0} (conn : Connection S) (tables : List Table) (s : S) where
  declared-has_table :
      (n : String) → is_declared tables n ≡ true → conn.has_table n (init_db conn tables s) ≡ true
  unfolding init_db migrate_db Grows
  declared-has_table n declared =
      (add_missing_columns-Grows conn tables
          (conn.create_all tables (rename_legacy_tables conn s))).0.0
        n
      ∙ rw (conn.create-has_table tables n (rename_legacy_tables conn s), declared)
          (or-true (conn.has_table n (rename_legacy_tables conn s)))

  -- After init_db every declared table is there with every declared column.
  pub init_db-declared :
      (t : Table) (c : Column)
      → In t tables
      → In c t.columns
      → (conn.has_table t.name (init_db conn tables s) ≡ true)
        × (conn.has_column t.name c.name (init_db conn tables s) ≡ true)
  unfolding init_db migrate_db Grows
  init_db-declared t c m n =
      let declared = is_declared-In tables t m in
      let here : conn.has_table t.name (conn.create_all tables (rename_legacy_tables conn s))
          ≡ true =
        rw (conn.create-has_table tables t.name (rename_legacy_tables conn s), declared)
          (or-true (conn.has_table t.name (rename_legacy_tables conn s))) in
      (declared-has_table t.name declared, (add_missing_columns-Grows conn tables _).1 t c m here n)

module _ {S : Type 0} (conn : Connection S) where
  add_columns-none :
      (table : String) (existing : String → Bool) (cs : List Column) (s : S)
      → ((c : Column) → In c cs → existing c.name ≡ true)
      → add_columns conn table existing cs s ≡ (s, [])
  unfolding add_columns add_if_missing
  add_columns-none table existing [] s h = refl
  add_columns-none table existing (c ∷ cs) s h =
      rw (h c (inl refl), add_columns-none table existing cs s (λ d m. h d (inr m))) refl

  add_missing_to-none :
      (b : Bool) (t : Table) (s : S)
      → ((c : Column) → In c t.columns → conn.has_column t.name c.name s ≡ true)
      → add_missing_to conn b t s ≡ (s, [])
  unfolding add_missing_to
  add_missing_to-none true t s h = add_columns-none t.name _ t.columns s h
  add_missing_to-none false t s h = refl

  add_missing_columns-none :
      (ts : List Table) (s : S)
      → ((t : Table) (c : Column)
          → In t ts
          → In c t.columns
          → conn.has_column t.name c.name s ≡ true)
      → add_missing_columns conn ts s ≡ (s, [])
  unfolding add_missing_columns
  add_missing_columns-none [] s h = refl
  add_missing_columns-none (t ∷ ts) s h =
      rw
        (
          add_missing_to-none (conn.has_table t.name s) t s (λ c. h t c (inl refl)),
          add_missing_columns-none ts s (λ u c m. h u c (inr m)),
        )
        refl

  rename_legacy_tables-none :
      (s : S) → conn.has_table "sessions" s ≡ true → rename_legacy_tables conn s ≡ s
  unfolding rename_legacy_tables
  rename_legacy_tables-none s h = by_cases (conn.has_table "agent_runs" s)
    where
      by_cases :
          (b : Bool)
          → (if b && not (conn.has_table "sessions" s)
              then conn.rename_table "agent_runs" "sessions" s
              else s)
            ≡ s
      by_cases true = rw (h) refl
      by_cases false = refl

  -- If sessions is a declared table, then the migrations after an init_db change nothing and
  -- report no action.
  pub migrate_db-init_db :
      (tables : List Table) (s : S)
      → is_declared tables "sessions" ≡ true
      → migrate_db conn tables (init_db conn tables s) ≡ (init_db conn tables s, [])
  unfolding migrate_db
  migrate_db-init_db tables s declared =
      let s' = init_db conn tables s in
      let same : conn.create_all tables (rename_legacy_tables conn s') ≡ s' =
        ap (conn.create_all tables)
          (rename_legacy_tables-none s' (declared-has_table conn tables s "sessions" declared))
        ∙ conn.create-none tables s' (declared-has_table conn tables s) in
      ap (add_missing_columns conn tables) same
      ∙ add_missing_columns-none tables s' (λ t c m n. (init_db-declared conn tables s t c m n).1)
