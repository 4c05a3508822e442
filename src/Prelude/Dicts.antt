-- ===== src/Prelude/Dicts.antt =====
-- Python's `dict` with text keys, as an association list in insertion order.
use Prim.Native.String.{String}
use mathlib.Core.Path.{◌≡◌, refl}
use mathlib.Core.Option.{Option, none, some}
use mathlib.Core.List.{List, [], ◌∷◌}
use native.Mathlib.Omega.{arith}
use text.Mathlib.Text.{◌==◌}
use text.Mathlib.TextEquality.{eq_iff}
use mob.Prelude.Tests.{if◌then◌else◌}

abbrev pub Assoc : Type 0 → Type 0
Assoc V = List (String × V)

module _ {V : Type 0} where
  -- `d.get(k)`
  unfoldable pub lookup : String → Assoc V → Option V
  lookup k [] = none
  lookup k ((j, v) ∷ d) = if j == k then some v else lookup k d

  -- `d[k] = v`
  unfoldable pub put : String → V → Assoc V → Assoc V
  put k v [] = (k, v) ∷ []
  put k v ((j, w) ∷ d) = if j == k then (j, v) ∷ d else (j, w) ∷ put k v d

  -- `d.update(e)`, also the dictionary of a comprehension over `e` when `d` is empty
  unfoldable pub update : Assoc V → Assoc V → Assoc V
  update d [] = d
  update d ((k, v) ∷ e) = update (put k v d) e

  -- The value that is written last.
  unfoldable pub last : String → Assoc V → Option V → Option V
  last k [] found = found
  last k ((j, v) ∷ e) found = last k e (if j == k then some v else found)

  pub lookup-put :
      (k j : String) (v : V) (d : Assoc V)
      → lookup k (put j v d) ≡ (if j == k then some v else lookup k d)
  unfolding lookup put
  lookup-put k j v [] = refl
  lookup-put k j v ((i, w) ∷ d) =
      ground (arith, eq_iff j k, eq_iff i j, eq_iff i k, lookup-put k j v d)

  -- After `d.update(e)` a key has the last value that `e` gives it, and else that of `d`.
  pub lookup-update : (k : String) (d e : Assoc V) → lookup k (update d e) ≡ last k e (lookup k d)
  unfolding update last
  lookup-update k d [] = refl
  lookup-update k d ((j, v) ∷ e) = rw (lookup-update k (put j v d) e, lookup-put k j v d)
