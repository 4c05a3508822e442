-- ===== src/Prelude/Membership.antt =====
-- Membership in mapped and filtered lists.
use mathlib.Core.Path.{◌≡◌, refl, ap}
use mathlib.Core.Logic.{◌⊎◌, inl, inr}
use mathlib.Core.Bool.{Bool, true}
use mathlib.Core.List.{List, [], ◌∷◌, ◌++◌, map}
use native.Mathlib.Omega.{arith}
use mob.Prelude.Lists.{In, filter}

module _ {A : Type 0} where
  pub In-filter : (p : A → Bool) (xs : List A) (x : A) → In x (filter p xs) → In x xs × (p x ≡ true)
  In-filter p [] x m = absurd m
  In-filter p (y ∷ xs) x m = ground (arith, In-filter p xs x)

  pub In-filter_of :
      (p : A → Bool) (xs : List A) (x : A) → In x xs → p x ≡ true → In x (filter p xs)
  In-filter_of p [] x m h = m
  In-filter_of p (y ∷ xs) x m h = ground (arith, In-filter_of p xs x)

  pub In-append : (xs ys : List A) (x : A) → In x (xs ++ ys) → In x xs ⊎ In x ys
  In-append [] ys x m = inr m
  In-append (y ∷ xs) ys x m = ground (arith, In-append xs ys x)

module _ {A B : Type 0} (f : A → B) where
  pub In-map : (xs : List A) (b : B) → In b (map f xs) → (a : A) × In a xs × (b ≡ f a)
  In-map [] b m = absurd m
  In-map (x ∷ xs) b (inl e) = (x, inl refl, e)
  In-map (x ∷ xs) b (inr m) = let (a, n, e) = In-map xs b m in (a, inr n, e)

  pub In-map_of : (xs : List A) (a : A) → In a xs → In (f a) (map f xs)
  In-map_of [] a m = absurd m
  In-map_of (x ∷ xs) a (inl e) = inl (ap f e)
  In-map_of (x ∷ xs) a (inr m) = inr (In-map_of xs a m)
