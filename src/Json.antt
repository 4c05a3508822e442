-- ===== src/Json.antt =====
-- JSON values as Python's `json` reads them, and what the program does with them: `.get`, truth,
-- iteration. An absent result is an AttributeError or a TypeError, which no caller catches.
use mob.Prelude.{
  String, ◌==◌, Bool, true, false, not, Option, none, some, List, [], ◌∷◌, is_empty, if◌then◌else◌,
}

mutual
  pub data Json : Type 0 where
    null : Json
    bool : Bool → Json
    number : (is_zero : Bool) (text : String) → Json
    str : String → Json
    arr : Items → Json
    obj : Fields → Json

  pub data Items : Type 0 where
    nil : Items
    cons : Json → Items → Items

  pub data Fields : Type 0 where
    end : Fields
    field : String → Json → Fields → Fields

abbrev pub is_true : Json → Bool
is_true null = false
is_true (bool b) = b
is_true (number is_zero text) = not is_zero
is_true (str s) = not (is_empty s)
is_true (arr nil) = false
is_true (arr (cons x xs)) = true
is_true (obj end) = false
is_true (obj (field k v fs)) = true

-- The value of a key; a dictionary has each key once.
unfoldable pub field_of : String → Json → Fields → Json
field_of key default end = default
field_of key default (field k v fs) = if k == key then v else field_of key default fs

-- `value.get(key, default)`
unfoldable pub get : String → Json → Json → Option Json
unfolding field_of
get key default (obj fs) = some (field_of key default fs)
get key default _ = none

unfoldable pub to_list : Items → List Json
to_list nil = []
to_list (cons x xs) = x ∷ to_list xs

-- The items of a `for`. A text or a dictionary that is not empty yields texts, whose `.get` raises
-- at once.
unfoldable pub iterate : Json → Option (List Json)
unfolding to_list
iterate (arr xs) = some (to_list xs)
iterate (obj end) = some []
iterate (str String.[]) = some []
iterate _ = none

-- `a or b`
abbrev pub or_json : Json → Json → Json
or_json a b = if is_true a then a else b

infixl 5 ◌>>=◌
abbrev pub ◌>>=◌ {ℓ κ} : {A : Type ℓ} {B : Type κ} → Option A → (A → Option B) → Option B
none >>= f = none
some a >>= f = f a
