-- ===== src/Tests/Texts.antt =====
-- A codec of JSON values that meets the law of `JsonText`, for the examples.
use mob.Prelude.{
  String, ◌==◌, ◌≡◌, refl, ap, ◌∙◌, true, false, Option, none, some, List, [], ◌∷◌, if◌then◌else◌,
}
use mob.Json.{Json, Items, Fields, null, bool, number, str, arr, obj, nil, cons, end, field}
use mob.Config.{JsonText}
use mob.Tests.Codec.{encode, decode, decode-encode}

pub data Cell : Type 0 where
  value : Json → Cell
  items : Items → Cell
  fields : Fields → Cell

abbrev join_items : List Cell → List Cell
join_items (items xs ∷ value x ∷ st) = items (cons x xs) ∷ st
join_items st = []

abbrev join_fields : String → List Cell → List Cell
join_fields k (fields fs ∷ value v ∷ st) = fields (field k v fs) ∷ st
join_fields k st = []

abbrev close : List Cell → List Cell
close (items xs ∷ st) = value (arr xs) ∷ st
close (fields fs ∷ st) = value (obj fs) ∷ st
close st = []

-- A value in postfix order is read with a stack; an entry is a tag and a text.
abbrev enter : String → String → List Cell → List Cell
enter t w st =
    if t == "null"
    then value null ∷ st
    else if t == "true"
    then value (bool true) ∷ st
    else if t == "false"
    then value (bool false) ∷ st
    else if t == "zero"
    then value (number true w) ∷ st
    else if t == "number"
    then value (number false w) ∷ st
    else if t == "text"
    then value (str w) ∷ st
    else if t == "nil"
    then items nil ∷ st
    else if t == "end"
    then fields end ∷ st
    else if t == "item"
    then join_items st
    else if t == "field"
    then join_fields w st
    else close st

abbrev top : List Cell → Option Json
top (value v ∷ []) = some v
top st = none

unfoldable pub read : List String → List Cell → Option Json
read (t ∷ w ∷ ws) st = read ws (enter t w st)
read _ st = top st

unfoldable mutual
  pub write : Json → List String → List String
  write null rest = "null" ∷ "" ∷ rest
  write (bool true) rest = "true" ∷ "" ∷ rest
  write (bool false) rest = "false" ∷ "" ∷ rest
  write (number true w) rest = "zero" ∷ w ∷ rest
  write (number false w) rest = "number" ∷ w ∷ rest
  write (str w) rest = "text" ∷ w ∷ rest
  write (arr xs) rest = write_items xs ("close" ∷ "" ∷ rest)
  write (obj fs) rest = write_fields fs ("close" ∷ "" ∷ rest)

  pub write_items : Items → List String → List String
  write_items nil rest = "nil" ∷ "" ∷ rest
  write_items (cons x xs) rest = write x (write_items xs ("item" ∷ "" ∷ rest))

  pub write_fields : Fields → List String → List String
  write_fields end rest = "end" ∷ "" ∷ rest
  write_fields (field k v fs) rest = write v (write_fields fs ("field" ∷ k ∷ rest))

mutual
  unfolding read write write_items write_fields

  read-write :
      (v : Json) (rest : List String) (st : List Cell)
      → read (write v rest) st ≡ read rest (value v ∷ st)
  read-write null rest st = refl
  read-write (bool true) rest st = refl
  read-write (bool false) rest st = refl
  read-write (number true w) rest st = refl
  read-write (number false w) rest st = refl
  read-write (str w) rest st = refl
  read-write (arr xs) rest st = read-write_items xs ("close" ∷ "" ∷ rest) st
  read-write (obj fs) rest st = read-write_fields fs ("close" ∷ "" ∷ rest) st

  read-write_items :
      (xs : Items) (rest : List String) (st : List Cell)
      → read (write_items xs rest) st ≡ read rest (items xs ∷ st)
  read-write_items nil rest st = refl
  read-write_items (cons x xs) rest st =
      read-write x (write_items xs ("item" ∷ "" ∷ rest)) st
      ∙ read-write_items xs ("item" ∷ "" ∷ rest) (value x ∷ st)

  read-write_fields :
      (fs : Fields) (rest : List String) (st : List Cell)
      → read (write_fields fs rest) st ≡ read rest (fields fs ∷ st)
  read-write_fields end rest st = refl
  read-write_fields (field k v fs) rest st =
      read-write v (write_fields fs ("field" ∷ k ∷ rest)) st
      ∙ read-write_fields fs ("field" ∷ k ∷ rest) (value v ∷ st)

unfoldable pub join : List String → String
join [] = ""
join (w ∷ ws) = encode w (join ws)

pub decode-join : (ws : List String) → decode (join ws) ≡ ws
unfolding join decode
decode-join [] = refl
decode-join (w ∷ ws) = decode-encode w (join ws) ∙ ap (λ r. w ∷ r) (decode-join ws)

pub read-join : (v : Json) → read (decode (join (write v []))) [] ≡ some v
unfolding read
read-join v = ap (λ ws. read ws []) (decode-join (write v [])) ∙ read-write v [] []

abbrev pub texts : JsonText
texts = record {
  dumps = λ v. join (write v []);
  loads = λ s. read (decode s) [];
  loads-dumps = read-join;
}
