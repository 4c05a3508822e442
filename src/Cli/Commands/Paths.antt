-- ===== src/Cli/Commands/Paths.antt =====
-- The paths that the commands of src/mob/cli/commands build from an id.
use package.text.Mathlib.TextLemmas.{nil-append, cons-append, append-nil, append_assoc}
use mob.Prelude.{
  String, Char, code, ◌<>◌, ◌≡◌, refl, sym, ap, ◌∙◌, Bool, true, false, not, ◌&&◌, ◌||◌, ℕ, zero,
  suc, leb, [], ◌∷◌, nat_eq, arith,
}
use mob.Backend.Routes.Values.{split_from, split_path}

-- A text without a slash
unfoldable pub is_part : String → Bool
is_part String.[] = true
is_part (String.◌∷◌ c s) = not (nat_eq (code c) b'/') && is_part s

-- A letter, a digit, a hyphen or an underscore: a character that no URL gives a meaning or encodes
abbrev pub is_plain_char : ℕ → Bool
is_plain_char c =
    leb b'a' c && leb c b'z'
    || leb b'A' c && leb c b'Z'
    || leb b'0' c && leb c b'9'
    || nat_eq c b'-'
    || nat_eq c b'_'

-- A path of such characters and slashes
unfoldable pub is_plain : String → Bool
is_plain String.[] = true
is_plain (String.◌∷◌ c s) = (is_plain_char (code c) || nat_eq (code c) b'/') && is_plain s

-- An id of such characters, at most `n` of them
unfoldable pub is_id_within : (n : ℕ) → String → Bool
is_id_within n String.[] = true
is_id_within zero (String.◌∷◌ c s) = false
is_id_within (suc n) (String.◌∷◌ c s) = is_plain_char (code c) && is_id_within n s

pub is_part_of_id : (n : ℕ) (s : String) → is_id_within n s ≡ true → is_part s ≡ true
unfolding is_part is_id_within
is_part_of_id n String.[] h = refl
is_part_of_id zero (String.◌∷◌ c s) h = absurd cc
is_part_of_id (suc n) (String.◌∷◌ c s) h = ground (arith, is_part_of_id n s (ground arith))

append_char : (p s : String) (c : Char) → (p <> String.◌∷◌ c "") <> s ≡ p <> String.◌∷◌ c s
append_char p s c =
    append_assoc p (String.◌∷◌ c "") s
    ∙ ap (λ t. p <> t) (cons-append c "" s ∙ ap (String.◌∷◌ c) (nil-append s))

split_from-cons :
    (p s : String) (c : Char)
    → nat_eq (code c) b'/' ≡ false
    → split_from p (String.◌∷◌ c s) ≡ split_from (p <> String.◌∷◌ c "") s
unfolding split_from
split_from-cons p s c h = rw (h) refl

split_from-append :
    (p s t : String) → is_part s ≡ true → split_from p (s <> t) ≡ split_from (p <> s) t
unfolding is_part
split_from-append p String.[] t h =
    ap (split_from p) (nil-append t) ∙ ap (λ q. split_from q t) (sym (append-nil p))
split_from-append p (String.◌∷◌ c s) t h =
    ap (split_from p) (cons-append c s t)
    ∙ split_from-cons p (s <> t) c (ground arith)
    ∙ split_from-append (p <> String.◌∷◌ c "") s t (ground arith)
    ∙ ap (λ q. split_from q t) (append_char p s c)

split_from-part : (s : String) → is_part s ≡ true → split_from "" s ≡ s ∷ []
unfolding split_from
split_from-part s h =
    ap (split_from "") (sym (append-nil s))
    ∙ split_from-append "" s "" h
    ∙ ap (λ q. q ∷ []) (nil-append s)

-- `/name/id`
pub split_path-id :
    (name id : String)
    → is_part name ≡ true
    → is_part id ≡ true
    → split_path (String.◌∷◌ "/" (name <> String.◌∷◌ "/" id)) ≡ "" ∷ name ∷ id ∷ []
unfolding split_path split_from
split_path-id name id h h' =
    ap (λ ps. "" ∷ ps)
      (split_from-append "" name (String.◌∷◌ "/" id) h
        ∙ ap (λ q. q ∷ split_from "" id) (nil-append name)
        ∙ ap (λ ps. name ∷ ps) (split_from-part id h'))

-- A prefix that ends in a slash
pub path-id :
    (name id : String)
    → (String.◌∷◌ "/" (name <> "/")) <> id ≡ String.◌∷◌ "/" (name <> String.◌∷◌ "/" id)
path-id name id =
    cons-append "/" (name <> "/") id
    ∙ ap (String.◌∷◌ "/") (
        append_assoc name "/" id
        ∙ ap (λ t. name <> t) (cons-append "/" "" id ∙ ap (String.◌∷◌ "/") (nil-append id)))
