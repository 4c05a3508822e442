-- ===== src/Database/Growth.antt =====
-- The tables and the columns over the migrations of src/mob/database.py, step by step.
use mathlib.Core.Path.{subst}
use mob.Prelude.{
  String, ◌==◌, eq_refl, ◌≡◌, refl, sym, ◌∙◌, inl, inr, Bool, true, false, ◌&&◌, ◌||◌, List, [],
  ◌∷◌, arith, In, if◌then◌else◌,
}
use mob.Database.{
  Column, Table, Connection, Action, add_column_and_backfill, add_if_missing, add_columns,
  add_missing_to, add_missing_columns,
}

pub or-true : (b : Bool) → b || true ≡ true
or-true true = refl
or-true false = refl

module _ {S : Type 0} (conn : Connection S) where
  abbrev choose : Bool → S × List Action → S × List Action → S × List Action
  choose b x y = if b then x else y

  -- The same tables, with at least the columns.
  unfoldable pub Grows : S → S → Type 0
  Grows s s' =
      ((n : String) → conn.has_table n s' ≡ conn.has_table n s)
      × ((n c : String) → conn.has_column n c s ≡ true → conn.has_column n c s' ≡ true)

  pub Grows-refl : (s : S) → Grows s s
  unfolding Grows
  Grows-refl s = ((λ n. refl), (λ n c h. h))

  pub Grows-trans : (s s' s'' : S) → Grows s s' → Grows s' s'' → Grows s s''
  unfolding Grows
  Grows-trans s s' s'' (t, c) (t', c') = ((λ n. t' n ∙ t n), (λ n d h. c' n d (c n d h)))

  module _ (table : String) (s : S) (here : conn.has_table table s ≡ true) where
    -- The column is there, and what was there.
    unfoldable pub IsAdded : String → S → Type 0
    unfolding Grows
    IsAdded c s' = Grows s s' × (conn.has_column table c s' ≡ true)

    add_column-IsAdded : (c type_name : String) → IsAdded c (conn.add_column table c type_name s)
    unfolding IsAdded
    add_column-IsAdded c type_name = (
      (
        (λ n. conn.add-has_table table c type_name n s here),
        (λ n d h.
            rw (conn.add-has_column table c type_name n d s here, h)
              (or-true (table == n && c == d))),
      ),
      rw (conn.add-has_column table c type_name table c s here, eq_refl table, eq_refl c) refl,
    )

    backfill-IsAdded : (c d : String) (s' : S) → IsAdded c s' → IsAdded c (conn.backfill table d s')
    unfolding IsAdded
    backfill-IsAdded c d s' (g, h) = (
      Grows-trans s s' (conn.backfill table d s') g (
        (λ n. conn.backfill-has_table table d n s'),
        (λ n e k. conn.backfill-has_column table d n e s' ∙ k),
      ),
      conn.backfill-has_column table d table c s' ∙ h,
    )

    add_column_and_backfill-IsAdded :
        (c : Column) → IsAdded c.name (add_column_and_backfill conn table c s).0
    unfolding add_column_and_backfill
    add_column_and_backfill-IsAdded c =
        either c.nullable _ _ (add_column-IsAdded c.name c.type_name)
          (backfill-IsAdded c.name c.name _ (add_column-IsAdded c.name c.type_name))
      where
        either :
            (b : Bool) (x y : S × List Action)
            → IsAdded c.name x.0
            → IsAdded c.name y.0
            → IsAdded c.name (choose b x y).0
        either true x y h h' = h
        either false x y h h' = h'

    pub add_if_missing-IsAdded :
        (b : Bool) (c : Column)
        → (b ≡ true → conn.has_column table c.name s ≡ true)
        → IsAdded c.name (add_if_missing conn b table c s).0
    unfolding add_if_missing IsAdded
    add_if_missing-IsAdded true c h = (Grows-refl s, h refl)
    add_if_missing-IsAdded false c h = add_column_and_backfill-IsAdded c

  pub add_columns-Grows :
      (table : String) (existing : String → Bool) (cs : List Column) (s : S)
      → conn.has_table table s ≡ true
      → ((c : String) → existing c ≡ true → conn.has_column table c s ≡ true)
      → Grows s (add_columns conn table existing cs s).0
        × ((c : Column)
            → In c cs
            → conn.has_column table c.name (add_columns conn table existing cs s).0 ≡ true)
  unfolding add_columns IsAdded Grows
  add_columns-Grows table existing [] s here known = (Grows-refl s, (λ c m. absurd m))
  add_columns-Grows table existing (c ∷ cs) s here known =
      let s' = (add_if_missing conn (existing c.name) table c s).0 in
      let (g, added) = add_if_missing-IsAdded table s here (existing c.name) c (known c.name) in
      let (g', others) =
        add_columns-Grows table existing cs s' (g.0 table ∙ here)
          (λ d e. g.1 table d (known d e)) in
      (
        Grows-trans s s' _ g g',
        (λ d m. elim m [
          | inl e ↦
              subst
                (λ x. conn.has_column table x.name (add_columns conn table existing cs s').0 ≡ true)
                (sym e) (g'.1 table c.name added)
          | inr m' ↦ others d m'
        ]),
      )

  pub add_missing_to-Grows :
      (b : Bool) (t : Table) (s : S)
      → (b ≡ true → conn.has_table t.name s ≡ true)
      → Grows s (add_missing_to conn b t s).0
        × (b ≡ true
            → (c : Column) → In c t.columns
            → conn.has_column t.name c.name (add_missing_to conn b t s).0 ≡ true)
  unfolding add_missing_to Grows
  add_missing_to-Grows false t s h = (Grows-refl s, (λ e. ground arith))
  add_missing_to-Grows true t s h =
      let (g, added) =
        add_columns-Grows t.name (λ c. conn.has_column t.name c s) t.columns s (h refl)
          (λ c e. e) in
      (g, (λ e. added))

  pub add_missing_columns-Grows :
      (ts : List Table) (s : S)
      → Grows s (add_missing_columns conn ts s).0
        × ((t : Table) (c : Column)
            → In t ts
            → conn.has_table t.name s ≡ true
            → In c t.columns
            → conn.has_column t.name c.name (add_missing_columns conn ts s).0 ≡ true)
  unfolding add_missing_columns Grows
  add_missing_columns-Grows [] s = (Grows-refl s, (λ t c m. absurd m))
  add_missing_columns-Grows (t ∷ ts) s =
      let s' = (add_missing_to conn (conn.has_table t.name s) t s).0 in
      let (g, added) = add_missing_to-Grows (conn.has_table t.name s) t s (λ e. e) in
      let (g', others) = add_missing_columns-Grows ts s' in
      (
        Grows-trans s s' _ g g',
        (λ u c m here n. elim m [
          | inl e ↦
              let here' : conn.has_table t.name s ≡ true =
                subst (λ x. conn.has_table x.name s ≡ true) e here in
              let n' : In c t.columns = subst (λ x. In c x.columns) e n in
              subst (λ x. conn.has_column x.name c.name (add_missing_columns conn ts s').0 ≡ true)
                (sym e) (g'.1 t.name c.name (added here' c n'))
          | inr m' ↦ others u c m' (g.0 u.name ∙ here) n
        ]),
      )
