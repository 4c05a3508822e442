-- ===== src/Orm/Mapped.antt =====
-- The interface of one mapped class. `Table`, `get`, ... are SQLAlchemy's; the laws are what its
-- documentation states of them, and hold for a database that checks foreign keys and for one that
-- does not.
use mathlib.Core.Path.{subst}
use mob.Prelude.{
  String, ◌==◌, sym, inl, inr, if◌then◌else◌, Bool-cases, eq_of_==, ne_of_==, ◌≡◌, ◌≢◌, Bool, true,
  false, Option, none, some, List, In,
}

-- One mapped class: its rows, its primary key and its unique constraints.
pub record Rows (R K : Type 0) (key : R → K) (clash : R → R → Bool) : Type 1 where
  -- The rows as the open session sees them, flushed changes included.
  pub Table : Type 0
  -- `session.get(R, k)`
  pub get : Table → K → Option R
  -- `session.execute(select(R).where(p)).scalars().all()`; the order of the rows is left open.
  pub select : (R → Bool) → Table → List R
  -- `session.add(r)` and the flush of it; `none` is an IntegrityError.
  pub add : R → Table → Option Table
  -- Assigned attributes of a persistent row and the flush of them.
  pub update : R → Table → Option Table
  -- `session.delete` of the row alone, without the cascades that the classes declare.
  pub delete : K → Table → Table
  pub get_key : (t : Table) (k : K) (r : R) → get t k ≡ some r → key r ≡ k
  pub select_sound :
      (t : Table) (p : R → Bool) (r : R)
      → In r (select p t)
      → (p r ≡ true) × (get t (key r) ≡ some r)
  pub select_complete :
      (t : Table) (p : R → Bool) (r : R) → get t (key r) ≡ some r → p r ≡ true → In r (select p t)
  pub add_fresh : (t t' : Table) (r : R) → add r t ≡ some t' → get t (key r) ≡ none
  pub get-add_self : (t t' : Table) (r : R) → add r t ≡ some t' → get t' (key r) ≡ some r
  pub get-add_ne :
      (t t' : Table) (r : R) (k : K) → add r t ≡ some t' → key r ≢ k → get t' k ≡ get t k
  pub add_unique :
      (t t' : Table) (r s : R) → add r t ≡ some t' → get t (key s) ≡ some s → clash r s ≡ false
  pub get-update_self : (t t' : Table) (r : R) → update r t ≡ some t' → get t' (key r) ≡ some r
  pub get-update_ne :
      (t t' : Table) (r : R) (k : K) → update r t ≡ some t' → key r ≢ k → get t' k ≡ get t k
  pub get-delete_self : (t : Table) (k : K) → get (delete k t) k ≡ none
  pub get-delete_ne : (t : Table) (j k : K) → j ≢ k → get (delete j t) k ≡ get t k

module _ {R K : Type 0} {key : R → K} {clash : R → R → Bool} (rows : Rows R K key clash) where
  pub get_own :
      (t : rows.Table) (k : K) (r : R) → rows.get t k ≡ some r → rows.get t (key r) ≡ some r
  get_own t k r e = subst (λ x. rows.get t x ≡ some r) (sym (rows.get_key t k r e)) e

-- The table after an operation on one row of a class whose key is a text.
module _ {R : Type 0} {key : R → String} {clash : R → R → Bool}
    (rows : Rows R String key clash) where
  pub get-update :
      (t t' : rows.Table) (r : R) (k : String)
      → rows.update r t ≡ some t'
      → rows.get t' k ≡ (if key r == k then some r else rows.get t k)
  get-update t t' r k e = elim (Bool-cases (key r == k)) [
    | inl same ↦
        rw same
          (subst (λ x. rows.get t' x ≡ some r) (eq_of_== _ _ same) (rows.get-update_self t t' r e))
    | inr other ↦ rw other (rows.get-update_ne t t' r k e (λ p. ne_of_== _ _ other p))
  ]

  pub get-add :
      (t t' : rows.Table) (r : R) (k : String)
      → rows.add r t ≡ some t'
      → rows.get t' k ≡ (if key r == k then some r else rows.get t k)
  get-add t t' r k e = elim (Bool-cases (key r == k)) [
    | inl same ↦
        rw same
          (subst (λ x. rows.get t' x ≡ some r) (eq_of_== _ _ same) (rows.get-add_self t t' r e))
    | inr other ↦ rw other (rows.get-add_ne t t' r k e (λ p. ne_of_== _ _ other p))
  ]

  pub get-delete :
      (t : rows.Table) (j k : String)
      → rows.get (rows.delete j t) k ≡ (if j == k then none else rows.get t k)
  get-delete t j k = elim (Bool-cases (j == k)) [
    | inl same ↦ rw same (
        subst (λ x. rows.get (rows.delete j t) x ≡ none) (eq_of_== _ _ same)
          (rows.get-delete_self t j))
    | inr other ↦ rw other (rows.get-delete_ne t j k (λ p. ne_of_== _ _ other p))
  ]
