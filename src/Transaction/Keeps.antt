-- ===== src/Transaction/Keeps.antt =====
-- Invariants of a unit of work: `Still` actions change nothing, `Keeps P` actions keep `P`, whether
-- they return or raise.
use mathlib.Core.Path.{subst}
use mob.Prelude.{◌≡◌, refl, sym, Bool, true, false, Option, none, some, List, [], ◌∷◌}
use mob.Orm.{Orm}
use mob.Orm.Mapped.{Rows}
use mob.Transaction.{
  Error, Result, ok, err, Txn, Service, Slot, continue, ◌>>=◌, pure, raise, require, refuse_if,
  find, select, scalar_one_or_none, when, for_each,
}

module _ {o : Orm} {A : Type 0} where
  pub record Still (m : Service o A) : Type 0 where
    pub at : (s : Txn o) → (m s).1 ≡ s

  pub record Keeps (P : Txn o → Type 0) (m : Service o A) : Type 0 where
    pub at : (s : Txn o) → P s → P (m s).1

  pub Keeps-of_Still : {P : Txn o → Type 0} {m : Service o A} → Still m → Keeps P m
  Keeps-of_Still {P} u = record { at = λ s h. subst P (sym (u.at s)) h }

module _ {o : Orm} {A : Type 0} where
  pub Still-pure : (a : A) → Still {o = o} (pure a)
  unfolding pure
  Still-pure a = record { at = λ s. refl }

  pub Still-raise : (e : Error) → Still {o = o} (raise {A = A} e)
  unfolding raise
  Still-raise e = record { at = λ s. refl }

  pub Still-require : (e : Error) (a : Option A) → Still {o = o} (require e a)
  unfolding require
  Still-require e none = record { at = λ s. refl }
  Still-require e (some a) = record { at = λ s. refl }

  pub Still-scalar : (rs : List A) → Still {o = o} (scalar_one_or_none rs)
  unfolding scalar_one_or_none
  Still-scalar [] = record { at = λ s. refl }
  Still-scalar (r ∷ []) = record { at = λ s. refl }
  Still-scalar (r ∷ r' ∷ rs) = record { at = λ s. refl }

module _ {o : Orm} where
  pub Still-refuse_if : (b : Bool) (e : Error) → Still {o = o} (refuse_if b e)
  unfolding refuse_if
  Still-refuse_if true e = record { at = λ s. refl }
  Still-refuse_if false e = record { at = λ s. refl }

module _ {o : Orm} {R K : Type 0} {key : R → K} {clash : R → R → Bool} {rows : Rows R K key clash}
    (slot : Slot o rows) where
  pub Still-find : (k : K) → Still (find slot k)
  unfolding find
  Still-find k = record { at = λ s. refl }

  pub Still-select : (p : R → Bool) → Still (select slot p)
  unfolding select
  Still-select p = record { at = λ s. refl }

module _ {o : Orm} {A B : Type 0} {P : Txn o → Type 0} where
  Keeps-continue :
      (r : Result A) (f : A → Service o B) → ((a : A) → Keeps P (f a)) → Keeps P (continue r f)
  unfolding continue
  Keeps-continue (ok a) f h = record { at = (h a).at }
  Keeps-continue (err e) f h = record { at = λ s p. p }

  pub Keeps-bind :
      (m : Service o A) (f : A → Service o B)
      → Keeps P m
      → ((a : A) → Keeps P (f a))
      → Keeps P (m >>= f)
  unfolding ◌>>=◌
  Keeps-bind m f u h = record {
    at = λ s p. let (r, s') = m s in (Keeps-continue r f h).at s' (u.at s p);
  }

module _ {o : Orm} {P : Txn o → Type 0} where
  pub Keeps-when : (b : Bool) (m : Service o (Unit {0})) → Keeps P m → Keeps P (when b m)
  unfolding when
  Keeps-when true m u = u
  Keeps-when false m u = Keeps-of_Still (Still-pure tt)

  pub Keeps-for_each :
      {A : Type 0} (xs : List A) (body : A → Service o (Unit {0}))
      → ((a : A) → Keeps P (body a))
      → Keeps P (for_each xs body)
  unfolding for_each
  Keeps-for_each [] body h = Keeps-of_Still (Still-pure tt)
  Keeps-for_each (a ∷ xs) body h =
      Keeps-bind (body a) (λ _. for_each xs body) (h a) (λ _. Keeps-for_each xs body h)

pub ruleset still_rules = (
  Keeps-of_Still, Still-pure, Still-raise, Still-require, Still-scalar, Still-refuse_if, Still-find,
  Still-select,
)

pub ruleset keeps_rules = (still_rules, Keeps-bind, Keeps-when, Keeps-for_each)
