-- ===== src/Orm/Memory.antt =====
-- A table in memory, which meets every law of `Rows`: the instance at which the witnesses run.
use mob.Orm.Mapped.{Rows}
use mob.Prelude.{
  ◌≡◌, refl, ◌≢◌, ◌↔◌, Bool, true, false, not, Option, none, some, List, [], ◌∷◌, In, arith,
  if◌then◌else◌, any,
}

module _ {R K : Type 0} (key : R → K) (beq : K → K → Bool)
    (beq_iff : (j k : K) → (beq j k ≡ true) ↔ (j ≡ k)) where
  unfoldable pub get : List R → K → Option R
  get [] k = none
  get (r ∷ t) k = if beq (key r) k then some r else get t k

  unfoldable pub without : K → List R → List R
  without k [] = []
  without k (r ∷ t) = let rest = without k t in if beq (key r) k then rest else r ∷ rest

  pub get-without_self : (t : List R) (k : K) → get (without k t) k ≡ none
  unfolding get without
  get-without_self [] k = refl
  get-without_self (r ∷ t) k = ground (arith, get-without_self t k)

  pub get-without_ne : (t : List R) (j k : K) → j ≢ k → get (without j t) k ≡ get t k
  unfolding get without
  get-without_ne [] j k h = refl
  get-without_ne (r ∷ t) j k h =
      ground (arith, get-without_ne t j k h, beq_iff (key r) j, beq_iff (key r) k)

  pub get_key : (t : List R) (k : K) (r : R) → get t k ≡ some r → key r ≡ k
  unfolding get
  get_key [] k r e = cc
  get_key (s ∷ t) k r e = ground (arith, get_key t k r, beq_iff (key s) k)

  pub get_self : (r : R) (t : List R) → get (r ∷ t) (key r) ≡ some r
  unfolding get
  get_self r t = ground (arith, beq_iff (key r) (key r))

  pub get-cons_ne : (r : R) (t : List R) (k : K) → key r ≢ k → get (r ∷ t) k ≡ get t k
  unfolding get
  get-cons_ne r t k h = ground (arith, beq_iff (key r) k)

  -- The rows that `get` can return, each once.
  unfoldable pub live : (R → Bool) → List R → List R
  live p [] = []
  live p (r ∷ t) = let rest = without (key r) (live p t) in if p r then r ∷ rest else rest

  In-without : (t : List R) (k : K) (r : R) → In r (without k t) → In r t × (beq (key r) k ≡ false)
  unfolding without
  In-without (s ∷ t) k r m = ground (arith, In-without t k r)
  In-without [] k r m = absurd m

  In-without_of : (t : List R) (k : K) (r : R) → In r t → beq (key r) k ≡ false → In r (without k t)
  unfolding without
  In-without_of [] k r m h = m
  In-without_of (s ∷ t) k r m h = ground (arith, In-without_of t k r)

  pub select_sound :
      (t : List R) (p : R → Bool) (r : R)
      → In r (live p t)
      → (p r ≡ true) × (get t (key r) ≡ some r)
  unfolding live get
  select_sound [] p r m = absurd m
  select_sound (s ∷ t) p r m = ground (
    arith,
    select_sound t p r,
    In-without (live p t) (key s) r,
    beq_iff (key s) (key r),
    beq_iff (key r) (key s),
  )

  pub select_complete :
      (t : List R) (p : R → Bool) (r : R) → get t (key r) ≡ some r → p r ≡ true → In r (live p t)
  unfolding live get
  select_complete [] p r e h = cc
  select_complete (s ∷ t) p r e h = ground (
    arith,
    select_complete t p r,
    In-without_of (live p t) (key s) r,
    beq_iff (key s) (key r),
    beq_iff (key r) (key s),
  )

  -- A live row with the key of `r`, or another one that clashes with it.
  unfoldable pub is_refused : (R → R → Bool) → R → List R → Bool
  is_refused clash r t = any (λ s. clash r s) (live (λ s. not (beq (key r) (key s))) t)

  pub any-false : (p : R → Bool) (t : List R) (s : R) → any p t ≡ false → In s t → p s ≡ false
  any-false p [] s h m = absurd m
  any-false p (r ∷ t) s h m = ground (arith, any-false p t s)

  pub refused_unique :
      (clash : R → R → Bool) (t : List R) (r s : R)
      → is_refused clash r t ≡ false
      → get t (key s) ≡ some s
      → key r ≢ key s
      → clash r s ≡ false
  unfolding is_refused
  refused_unique clash t r s h e ne =
      any-false (λ x. clash r x) (live (λ x. not (beq (key r) (key x))) t) s h
        (select_complete t (λ x. not (beq (key r) (key x))) s e
          (ground (arith, beq_iff (key r) (key s))))

module _ {R K : Type 0} (key : R → K) (beq : K → K → Bool)
    (beq_iff : (j k : K) → (beq j k ≡ true) ↔ (j ≡ k)) (clash : R → R → Bool) where
  unfoldable pub update : R → List R → Option (List R)
  unfolding is_refused live without
  update r t = if is_refused key beq beq_iff clash r t then none else some (r ∷ t)

  unfoldable pub add_to : Option R → R → List R → Option (List R)
  unfolding update
  add_to none r t = update r t
  add_to (some s) r t = none

  unfoldable pub add : R → List R → Option (List R)
  unfolding add_to get
  add r t = add_to (get key beq beq_iff t (key r)) r t

  not_refused :
      (t t' : List R) (r : R) → update r t ≡ some t' → is_refused key beq beq_iff clash r t ≡ false
  unfolding update
  not_refused t t' r e = ground arith

  fresh_ne :
      (t : List R) (r s : R)
      → get key beq beq_iff t (key r) ≡ none
      → get key beq beq_iff t (key s) ≡ some s
      → key r ≢ key s
  fresh_ne t r s fresh h same = cc

  pub get-update_self :
      (t t' : List R) (r : R) → update r t ≡ some t' → get key beq beq_iff t' (key r) ≡ some r
  unfolding update
  get-update_self t t' r e = ground (arith, get_self key beq beq_iff r t)

  pub get-update_ne :
      (t t' : List R) (r : R) (k : K)
      → update r t ≡ some t'
      → key r ≢ k
      → get key beq beq_iff t' k ≡ get key beq beq_iff t k
  unfolding update
  get-update_ne t t' r k e h = ground (arith, get-cons_ne key beq beq_iff r t k h)

  pub add-update :
      (t t' : List R) (r : R)
      → add r t ≡ some t'
      → (get key beq beq_iff t (key r) ≡ none) × (update r t ≡ some t')
  unfolding add add_to
  add-update t t' r e = ground arith

  pub add_unique :
      (t t' : List R) (r s : R)
      → add r t ≡ some t'
      → get key beq beq_iff t (key s) ≡ some s
      → clash r s ≡ false
  add_unique t t' r s e h =
      let (fresh, updated) = add-update t t' r e in
      refused_unique key beq beq_iff clash t r s (not_refused t t' r updated) h
        (λ same. fresh_ne t r s fresh h same)

  abbrev pub memory : Rows R K key clash
  memory = record {
    Table = List R;
    get = get key beq beq_iff;
    select = live key beq beq_iff;
    add = add;
    update = update;
    delete = without key beq beq_iff;
    get_key = get_key key beq beq_iff;
    select_sound = select_sound key beq beq_iff;
    select_complete = select_complete key beq beq_iff;
    add_fresh = λ t t' r e. (add-update t t' r e).0;
    get-add_self = λ t t' r e. get-update_self t t' r (add-update t t' r e).1;
    get-add_ne = λ t t' r k e h. get-update_ne t t' r k (add-update t t' r e).1 h;
    add_unique = add_unique;
    get-update_self = get-update_self;
    get-update_ne = get-update_ne;
    get-delete_self = get-without_self key beq beq_iff;
    get-delete_ne = get-without_ne key beq beq_iff;
  }
