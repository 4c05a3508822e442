-- ===== src/Cli/Resolver/Laws.antt =====
-- When a reference resolves, and to what.
use mob.Prelude.{
  ℕ, zero, suc, ◌-◌, ◌≤◌, String, ◌≡◌, inl, inr, ◌↔◌, Option, some, List, [], ◌∷◌, arith, length,
  get_elem?, Option-cases,
}
use mob.Cli.Resolver.{Item, found, resolve_by_position}

get_elem?-lt : (xs : List Item) (i : ℕ) (x : Item) → get_elem? xs i ≡ some x → suc i ≤ length xs
get_elem?-lt [] i x e = cc
get_elem?-lt (y ∷ xs) zero x e = omega arith
get_elem?-lt (y ∷ xs) (suc i) x e = omega (arith, get_elem?-lt xs i x e)

-- A position resolves exactly to the id of the item at that place of the list, counted from one.
pub resolve_by_position_iff :
    (resource_type : String) (position : ℕ) (xs : List Item) (id : String)
    → (resolve_by_position resource_type position xs ≡ found id) ↔ (
        (item : Item) × (1 ≤ position) × (get_elem? xs (position - 1) ≡ some item) × (item.id ≡ id))
unfolding resolve_by_position
resolve_by_position_iff resource_type position [] id = (λ h. cc, λ (item, p, e, q). cc)
resolve_by_position_iff resource_type position (x ∷ xs) id =
    elim (Option-cases (get_elem? (x ∷ xs) (position - 1))) [
      | inl outside ↦ (λ h. ground arith, λ (item, p, e, q). cc)
      | inr (item, inside) ↦ (
        λ h. (item, ground arith, inside, ground arith),
        λ (item', p, e, q). ground (arith, get_elem?-lt (x ∷ xs) (position - 1) item' e),
      )
    ]

-- One match, and no other.
abbrev pub IsOnly : List Item → String → Type 0
IsOnly ms id = (m : Item) × (ms ≡ m ∷ []) × (m.id ≡ id)

-- What the list of all contributes: one match in it, if there are filters.
abbrev IsOnlyThere : Option (List Item) → String → Type 0
IsOnlyThere all id = (ns : List Item) × (all ≡ some ns) × IsOnly ns id
