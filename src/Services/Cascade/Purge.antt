-- ===== src/Services/Cascade/Purge.antt =====
-- Loops of deletions as functions of the database, and the table that such a loop leaves.
use mathlib.Core.Path.{subst}
use mob.Prelude.{
  ◌≡◌, ◌≢◌, refl, sym, ap, ◌∙◌, inl, inr, Bool, false, none, some, List, [], ◌∷◌, In, Bool-cases,
  ◌↔◌,
}
use mob.Orm.{Orm, Db}
use mob.Orm.Mapped.{Rows, get_own}
use mob.Transaction.{ok, Service, Txn, for_each, pure, ◌>>=◌}

-- A program without a failure, which changes the current database by a function.
abbrev pub Acts : {o : Orm} → Service o (Unit {0}) → (Db o → Db o) → Type 0
Acts {o} m f = (s : Txn o) → m s ≡ (ok tt, record s { current = f s.current })

module _ {o : Orm} {A : Type 0} where
  unfoldable pub fold : (A → Db o → Db o) → List A → Db o → Db o
  fold f [] db = db
  fold f (a ∷ xs) db = fold f xs (f a db)

  pub Acts-for_each :
      (body : A → Service o (Unit {0})) (f : A → Db o → Db o)
      → ((a : A) → Acts (body a) (f a))
      → (xs : List A) → Acts (for_each xs body) (fold f xs)
  unfolding for_each fold pure ◌>>=◌
  Acts-for_each body f acts [] s = refl
  Acts-for_each body f acts (a ∷ xs) s =
      rw (acts a s) (Acts-for_each body f acts xs (record s { current = f a s.current }))

module _ {R K : Type 0} {key : R → K} {clash : R → R → Bool} (rows : Rows R K key clash) where
  -- The table without the rows of a list.
  unfoldable pub purge : List R → rows.Table → rows.Table
  purge [] t = t
  purge (r ∷ rs) t = purge rs (rows.delete (key r) t)

  pub get-delete_some :
      (t : rows.Table) (j k : K) (r : R)
      → rows.get (rows.delete j t) k ≡ some r
      → (j ≢ k) × (rows.get t k ≡ some r)
  get-delete_some t j k r e =
      let other : j ≢ k = λ same.
        let gone =
          subst (λ x. rows.get (rows.delete j t) x ≡ none) same (rows.get-delete_self t j) in
        cc in
      (other, sym (rows.get-delete_ne t j k other) ∙ e)

  get-purge :
      (rs : List R) (t : rows.Table) (k : K) (r : R)
      → rows.get (purge rs t) k ≡ some r
      → (¬ In r rs) × (rows.get t k ≡ some r)
  unfolding purge
  get-purge [] t k r e = (λ m. m, e)
  get-purge (x ∷ xs) t k r e =
      let (others, rest) = get-purge xs (rows.delete (key x) t) k r e in
      let (ne, there) = get-delete_some t (key x) k r rest in
      (outside others ne (rows.get_key t k r there), there)
    where
      outside : ¬ In r xs → key x ≢ k → key r ≡ k → ¬ In r (x ∷ xs)
      outside others ne at (inl same) = ne (ap key (sym same) ∙ at)
      outside others ne at (inr m) = others m

  -- A row that is left was there and was not selected.
  pub get-purge_select :
      (p : R → Bool) (t : rows.Table) (k : K) (r : R)
      → rows.get (purge (rows.select p t) t) k ≡ some r
      → (p r ≡ false) × (rows.get t k ≡ some r)
  get-purge_select p t k r e =
      let (out, there) = get-purge (rows.select p t) t k r e in
      elim (Bool-cases (p r)) [
        | inl selected ↦
            absurd (out (rows.select_complete t p r (get_own rows t k r there) selected))
        | inr unselected ↦ (unselected, there)
      ]

  get-purge_outside :
      (rs : List R) (t : rows.Table) (k : K)
      → ((x : R) → In x rs → key x ≢ k)
      → rows.get (purge rs t) k ≡ rows.get t k
  unfolding purge
  get-purge_outside [] t k h = refl
  get-purge_outside (x ∷ xs) t k h =
      get-purge_outside xs (rows.delete (key x) t) k (λ y m. h y (inr m))
      ∙ rows.get-delete_ne t (key x) k (h x (inl refl))

  -- After the selected rows are deleted, exactly the others are left.
  pub get-purge_iff :
      (p : R → Bool) (t : rows.Table) (k : K) (r : R)
      → (rows.get (purge (rows.select p t) t) k ≡ some r)
        ↔ ((rows.get t k ≡ some r) × (p r ≡ false))
  get-purge_iff p t k r = (
    λ e. let (no_match, there) = get-purge_select p t k r e in (there, no_match),
    λ (there, no_match).
        get-purge_outside (rows.select p t) t k (λ x m same.
          let (match, stored) = rows.select_sound t p x m in
          let found = subst (λ j. rows.get t j ≡ some x) same stored in
          let equal : x ≡ r = cc (found, there) in cc (match, no_match, equal))
        ∙ there,
  )
