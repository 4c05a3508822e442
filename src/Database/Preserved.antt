-- ===== src/Database/Preserved.antt =====
-- An older database over the migrations of src/mob/database.py.
use mathlib.Core.Path.{subst}
use mob.Prelude.{
  String, ◌==◌, eq_of_==, ◌≡◌, refl, sym, ap, ◌∙◌, inl, inr, Bool, true, false, not, ◌&&◌, List,
  arith, Bool-cases, if◌then◌else◌,
}
use mob.Database.Growth.{Grows, add_missing_columns-Grows}
use mob.Database.{Table, Connection, rename_legacy_tables, migrate_db, init_db}

-- The name of a table after `_rename_legacy_tables`
abbrev pub renamed : (is_legacy : Bool) → String → String
renamed true name = if name == "agent_runs" then "sessions" else name
renamed false name = name

module _ {S : Type 0} (conn : Connection S) where
  abbrev pub is_legacy : S → Bool
  is_legacy s = conn.has_table "agent_runs" s && not (conn.has_table "sessions" s)

  -- A table under its new name, with its columns.
  abbrev IsKept : String → S → String → S → Type 0
  IsKept n s n' s' =
      (conn.has_table n' s' ≡ true)
      × ((c : String) → conn.has_column n c s ≡ true → conn.has_column n' c s' ≡ true)

  rename_table-IsKept :
      (n : String) (s : S)
      → conn.has_table "agent_runs" s ≡ true
      → conn.has_table "sessions" s ≡ false
      → conn.has_table n s ≡ true
      → IsKept n s (renamed true n) (conn.rename_table "agent_runs" "sessions" s)
  rename_table-IsKept n s old new here = elim (Bool-cases (n == "agent_runs")) [
    | inl same ↦ (
      rw (same, conn.rename-has_table "agent_runs" "sessions" "sessions" s old new) refl,
      (λ c h.
          rw (same, conn.rename-has_column "agent_runs" "sessions" "sessions" c s old new)
            (subst (λ m. conn.has_column m c s ≡ true) (eq_of_== n "agent_runs" same) h)),
    )
    | inr other ↦ (
      rw (other, conn.rename-has_table "agent_runs" "sessions" n s old new, unlike, other) here,
      (λ c h.
          rw (other, conn.rename-has_column "agent_runs" "sessions" n c s old new, unlike, other)
            h),
    )
  ]
    where
      unlike : (n == "sessions") ≡ false
      unlike = elim (Bool-cases (n == "sessions")) [
        | inl same ↦
            let contradiction : true ≡ false =
              sym here ∙ ap (λ m. conn.has_table m s) (eq_of_== n "sessions" same) ∙ new in
            ground arith
        | inr e ↦ e
      ]

  rename_legacy_tables-IsKept :
      (n : String) (s : S)
      → conn.has_table n s ≡ true
      → IsKept n s (renamed (is_legacy s) n) (rename_legacy_tables conn s)
  unfolding rename_legacy_tables
  rename_legacy_tables-IsKept n s here =
      by_cases (conn.has_table "agent_runs" s) (conn.has_table "sessions" s) refl refl
    where
      by_cases :
          (old new : Bool)
          → conn.has_table "agent_runs" s ≡ old
          → conn.has_table "sessions" s ≡ new
          → IsKept n s
              (renamed (old && not new) n)
              (if old && not new then conn.rename_table "agent_runs" "sessions" s else s)
      by_cases true false e e' = rename_table-IsKept n s e e' here
      by_cases true true e e' = (here, (λ c h. h))
      by_cases false new e e' = (here, (λ c h. h))

  -- A table of the database is there after init_db, agent_runs under the name sessions if there
  -- was no table of that name, with every column that it had.
  pub init_db-renamed :
      (tables : List Table) (n : String) (s : S)
      → conn.has_table n s ≡ true
      → (conn.has_table (renamed (is_legacy s) n) (init_db conn tables s) ≡ true)
        × ((c : String)
            → conn.has_column n c s ≡ true
            → conn.has_column (renamed (is_legacy s) n) c (init_db conn tables s) ≡ true)
  unfolding init_db migrate_db Grows
  init_db-renamed tables n s here =
      let n' = renamed (is_legacy s) n in
      let r = rename_legacy_tables conn s in
      let (there, columns) = rename_legacy_tables-IsKept n s here in
      let grown = (add_missing_columns-Grows conn tables (conn.create_all tables r)).0 in
      let created : conn.has_table n' (conn.create_all tables r) ≡ true =
        rw (conn.create-has_table tables n' r, there) refl in
      (
        grown.0 n' ∙ created,
        (λ c h. grown.1 n' c (conn.create-has_column tables n' c r there ∙ columns c h)),
      )
