-- ===== src/Transaction/Atomic.antt =====
-- Units of work that leave the saved database alone: the rules by which a proof goes through the
-- body of a service. `Unsaved` never saves; `Atomic` saves nothing if it raises.
use mob.Prelude.{◌≡◌, refl, ◌∙◌, Bool, true, false, Option, none, some, List, [], ◌∷◌}
use mob.Orm.{Orm}
use mob.Orm.Mapped.{Rows}
use mob.Transaction.{
  Error, Result, ok, err, Txn, Service, Slot, continue, ◌>>=◌, pure, raise, require, refuse_if,
  commit, find, select, insert, assign, remove, flush, scalar_one_or_none, when, for_each,
}

module _ {o : Orm} {A : Type 0} where
  pub record Unsaved (m : Service o A) : Type 0 where
    pub at : (s : Txn o) → (m s).1.saved ≡ s.saved

  pub record Atomic (m : Service o A) : Type 0 where
    pub at : (s : Txn o) (e : Error) → (m s).0 ≡ err e → (m s).1.saved ≡ s.saved

  pub Atomic-of_Unsaved : {m : Service o A} → Unsaved m → Atomic m
  Atomic-of_Unsaved u = record { at = λ s e h. u.at s }

module _ {o : Orm} {A : Type 0} where
  pub Unsaved-pure : (a : A) → Unsaved {o = o} (pure a)
  unfolding pure
  Unsaved-pure a = record { at = λ s. refl }

  pub Unsaved-raise : (e : Error) → Unsaved {o = o} (raise {A = A} e)
  unfolding raise
  Unsaved-raise e = record { at = λ s. refl }

  pub Unsaved-require : (e : Error) (a : Option A) → Unsaved {o = o} (require e a)
  unfolding require
  Unsaved-require e none = record { at = λ s. refl }
  Unsaved-require e (some a) = record { at = λ s. refl }

  pub Unsaved-scalar : (rs : List A) → Unsaved {o = o} (scalar_one_or_none rs)
  unfolding scalar_one_or_none
  Unsaved-scalar [] = record { at = λ s. refl }
  Unsaved-scalar (r ∷ []) = record { at = λ s. refl }
  Unsaved-scalar (r ∷ r' ∷ rs) = record { at = λ s. refl }

module _ {o : Orm} where
  pub Unsaved-refuse_if : (b : Bool) (e : Error) → Unsaved {o = o} (refuse_if b e)
  unfolding refuse_if
  Unsaved-refuse_if true e = record { at = λ s. refl }
  Unsaved-refuse_if false e = record { at = λ s. refl }

module _ {o : Orm} {A B : Type 0} where
  Unsaved-continue :
      (r : Result A) (f : A → Service o B) → ((a : A) → Unsaved (f a)) → Unsaved (continue r f)
  unfolding continue
  Unsaved-continue (ok a) f h = record { at = (h a).at }
  Unsaved-continue (err e) f h = record { at = λ s. refl }

  pub Unsaved-bind :
      (m : Service o A) (f : A → Service o B)
      → Unsaved m
      → ((a : A) → Unsaved (f a))
      → Unsaved (m >>= f)
  unfolding ◌>>=◌
  Unsaved-bind m f u h = record {
    at = λ s. let (r, s') = m s in (Unsaved-continue r f h).at s' ∙ u.at s;
  }

  Atomic-continue :
      (r : Result A) (f : A → Service o B) → ((a : A) → Atomic (f a)) → Atomic (continue r f)
  unfolding continue
  Atomic-continue (ok a) f h = record { at = (h a).at }
  Atomic-continue (err e) f h = record { at = λ s e' p. refl }

  -- What comes before the last commit saves nothing, so an error there leaves the saved database.
  pub Atomic-bind :
      (m : Service o A) (f : A → Service o B)
      → Unsaved m
      → ((a : A) → Atomic (f a))
      → Atomic (m >>= f)
  unfolding ◌>>=◌
  Atomic-bind m f u h = record {
    at = λ s e p. let (r, s') = m s in (Atomic-continue r f h).at s' e p ∙ u.at s;
  }

module _ {o : Orm} where
  pub Atomic-commit : Atomic {o = o} commit
  unfolding commit
  Atomic-commit = record { at = λ s e p. cc }

  -- Nothing that can raise follows a commit.
  pub Atomic-commit-pure : {A : Type 0} (a : A) → Atomic {o = o} (commit >>= λ _. pure a)
  unfolding commit pure ◌>>=◌
  Atomic-commit-pure a = record { at = λ s e p. cc }

  pub Unsaved-when : (b : Bool) (m : Service o (Unit {0})) → Unsaved m → Unsaved (when b m)
  unfolding when
  Unsaved-when true m u = u
  Unsaved-when false m u = Unsaved-pure tt

  pub Unsaved-for_each :
      {A : Type 0} (xs : List A) (body : A → Service o (Unit {0}))
      → ((a : A) → Unsaved (body a))
      → Unsaved (for_each xs body)
  unfolding for_each
  Unsaved-for_each [] body h = Unsaved-pure tt
  Unsaved-for_each (a ∷ xs) body h =
      Unsaved-bind (body a) (λ _. for_each xs body) (h a) (λ _. Unsaved-for_each xs body h)

module _ {o : Orm} {R K : Type 0} {key : R → K} {clash : R → R → Bool} {rows : Rows R K key clash}
    (slot : Slot o rows) where
  pub Unsaved-find : (k : K) → Unsaved (find slot k)
  unfolding find
  Unsaved-find k = record { at = λ s. refl }

  pub Unsaved-select : (p : R → Bool) → Unsaved (select slot p)
  unfolding select
  Unsaved-select p = record { at = λ s. refl }

  Unsaved-flush : (t : Option rows.Table) → Unsaved (flush slot t)
  unfolding flush
  Unsaved-flush none = record { at = λ s. refl }
  Unsaved-flush (some t) = record { at = λ s. refl }

  pub Unsaved-insert : (r : R) → Unsaved (insert slot r)
  unfolding insert
  Unsaved-insert r = record { at = λ s. (Unsaved-flush (rows.add r (slot.read s.current))).at s }

  pub Unsaved-assign : (r : R) → Unsaved (assign slot r)
  unfolding assign
  Unsaved-assign r = record { at = λ s. (Unsaved-flush (rows.update r (slot.read s.current))).at s }

  pub Unsaved-remove : (k : K) → Unsaved (remove slot k)
  unfolding remove
  Unsaved-remove k = record { at = λ s. refl }

pub ruleset unsaved_rules = (
  Unsaved-pure, Unsaved-raise, Unsaved-require, Unsaved-scalar, Unsaved-refuse_if, Unsaved-bind,
  Unsaved-when, Unsaved-for_each, Unsaved-find, Unsaved-select, Unsaved-insert, Unsaved-assign,
  Unsaved-remove,
)

pub ruleset atomic_rules = (unsaved_rules, Atomic-bind, Atomic-commit, Atomic-commit-pure)
