-- ===== src/Api/Slug.antt =====
-- The pattern of identifiers and names in src/mob/schemas.py, ^[a-z0-9][a-z0-9\-]*[a-z0-9]$, as a test
-- and as what the regular expression says.
use mob.Prelude.{
  ℕ, code, String, ◌≤◌, ◌⊎◌, ◌≡◌, refl, ap, ◌↔◌, Bool, true, false, ◌&&◌, ◌||◌, List, [], ◌∷◌, ◌++◌,
  leb, nat_eq, arith,
}

abbrev pub codes : String → List ℕ
codes String.[] = []
codes (String.◌∷◌ c s) = code c ∷ codes s

-- [a-z0-9]
abbrev pub is_alnum : ℕ → Bool
is_alnum c = leb b'a' c && leb c b'z' || leb b'0' c && leb c b'9'

-- [a-z0-9\-]
abbrev pub is_inner : ℕ → Bool
is_inner c = is_alnum c || nat_eq c b'-'

-- [a-z0-9\-]*[a-z0-9]$
unfoldable pub ends_slug : List ℕ → Bool
ends_slug [] = false
ends_slug (c ∷ []) = is_alnum c
ends_slug (c ∷ d ∷ s) = is_inner c && ends_slug (d ∷ s)

unfoldable pub starts_slug : List ℕ → Bool
unfolding ends_slug
starts_slug [] = false
starts_slug (c ∷ s) = is_alnum c && ends_slug s

unfoldable pub is_slug : String → Bool
unfolding starts_slug
is_slug s = starts_slug (codes s)

-- The code points of a to z and of 0 to 9, and with them that of the hyphen.
abbrev pub IsAlnum : ℕ → Type 0
IsAlnum c = (97 ≤ c) × (c ≤ 122) ⊎ (48 ≤ c) × (c ≤ 57)

abbrev pub IsInner : ℕ → Type 0
IsInner c = IsAlnum c ⊎ (c ≡ 45)

is_alnum_iff : (c : ℕ) → (is_alnum c ≡ true) ↔ IsAlnum c
is_alnum_iff c = ground arith

is_inner_iff : (c : ℕ) → (is_inner c ≡ true) ↔ IsInner c
is_inner_iff c = ground arith

-- Every item passes.
abbrev pub All : (ℕ → Type 0) → List ℕ → Type 0
All p [] = Unit
All p (c ∷ s) = p c × All p s

-- The text is one letter or digit, any number of letters, digits and hyphens, one letter or digit.
pub record MatchesSlug (s : List ℕ) : Type 0 where
  pub first : ℕ
  pub inner : List ℕ
  pub final : ℕ
  pub parts : s ≡ first ∷ (inner ++ final ∷ [])
  pub first_alnum : IsAlnum first
  pub inner_all : All IsInner inner
  pub final_alnum : IsAlnum final

pub record EndsSlug (s : List ℕ) : Type 0 where
  pub inner : List ℕ
  pub final : ℕ
  pub parts : s ≡ inner ++ final ∷ []
  pub inner_all : All IsInner inner
  pub final_alnum : IsAlnum final

ends_slug_sound : (s : List ℕ) → ends_slug s ≡ true → EndsSlug s
unfolding ends_slug
ends_slug_sound [] h = cc
ends_slug_sound (c ∷ []) h = record {
  inner = [];
  final = c;
  parts = refl;
  inner_all = tt;
  final_alnum = (is_alnum_iff c).0 h;
}
ends_slug_sound (c ∷ d ∷ s) h =
    let rest = ends_slug_sound (d ∷ s) (ground arith) in
    record {
      inner = c ∷ rest.inner;
      final = rest.final;
      parts = ap (λ r. c ∷ r) rest.parts;
      inner_all = ((is_inner_iff c).0 (ground arith), rest.inner_all);
      final_alnum = rest.final_alnum;
    }

ends_slug_complete :
    (inner : List ℕ) (final : ℕ)
    → All IsInner inner
    → IsAlnum final
    → ends_slug (inner ++ final ∷ []) ≡ true
unfolding ends_slug
ends_slug_complete [] final h e = (is_alnum_iff final).1 e
ends_slug_complete (c ∷ []) final (h, _) e =
    ground (arith, (is_inner_iff c).1 h, (is_alnum_iff final).1 e)
ends_slug_complete (c ∷ d ∷ inner) final (h, hs) e =
    ground (arith, (is_inner_iff c).1 h, ends_slug_complete (d ∷ inner) final hs e)

-- The slug test accepts exactly the texts that start and end with a letter a to z or a digit, in
-- two places, and have only such characters and hyphens between.
pub is_slug_iff : (s : String) → (is_slug s ≡ true) ↔ MatchesSlug (codes s)
unfolding is_slug
is_slug_iff s = (sound (codes s), complete (codes s))
  where
    sound : (s : List ℕ) → starts_slug s ≡ true → MatchesSlug s
    sound [] h = cc
    sound (c ∷ s) h =
        let rest = ends_slug_sound s (ground arith) in
        record {
          first = c;
          inner = rest.inner;
          final = rest.final;
          parts = ap (λ r. c ∷ r) rest.parts;
          first_alnum = (is_alnum_iff c).0 (ground arith);
          inner_all = rest.inner_all;
          final_alnum = rest.final_alnum;
        }

    complete : (s : List ℕ) → MatchesSlug s → starts_slug s ≡ true
    complete s m = rw m.parts (
        ground (
          arith,
          (is_alnum_iff m.first).1 m.first_alnum,
          ends_slug_complete m.inner m.final m.inner_all m.final_alnum,
        ))
