-- ===== src/Tests/Codec.antt =====
-- A codec that meets the laws of `Json`, for the examples.
use Prim.Native.Char.{Char, code}
use mob.Prelude.{
  String, ◌≡◌, refl, ap, ◌∙◌, Option, none, some, List, [], ◌∷◌, nat_eq, if◌then◌else◌,
}
use mob.Services.Json.{Dict, Json}

abbrev push : Char → List String → List String
push c [] = []
push c (w ∷ ws) = String.◌∷◌ c w ∷ ws

-- A text is its characters, each behind a `c`, and a final dot.
unfoldable pub encode : String → String → String
encode String.[] rest = String.◌∷◌ "." rest
encode (String.◌∷◌ c w) rest = String.◌∷◌ "c" (String.◌∷◌ c (encode w rest))

unfoldable pub decode : String → List String
decode String.[] = []
decode (String.◌∷◌ m String.[]) = "" ∷ []
decode (String.◌∷◌ m (String.◌∷◌ c s)) =
    let ended = "" ∷ decode (String.◌∷◌ c s) in
    let longer = push c (decode s) in if nat_eq (code m) b'.' then ended else longer

dec_end : (rest : String) → decode (String.◌∷◌ "." rest) ≡ "" ∷ decode rest
unfolding decode
dec_end String.[] = refl
dec_end (String.◌∷◌ c s) = refl

pub decode-encode : (w rest : String) → decode (encode w rest) ≡ w ∷ decode rest
unfolding decode encode
decode-encode String.[] rest = dec_end rest
decode-encode (String.◌∷◌ c w) rest = ap (push c) (decode-encode w rest)

unfoldable pub entries : Dict → String
entries [] = ""
entries ((k, v) ∷ d) = encode k (encode v (entries d))

unfoldable pub pairs : List String → Dict
pairs (k ∷ v ∷ ws) = (k, v) ∷ pairs ws
pairs _ = []

pub pairs-entries : (d : Dict) → pairs (decode (entries d)) ≡ d
unfolding pairs entries decode
pairs-entries [] = refl
pairs-entries ((k, v) ∷ d) =
    ap pairs (decode-encode k (encode v (entries d)))
    ∙ ap (λ ws. pairs (k ∷ ws)) (decode-encode v (entries d))
    ∙ ap (λ r. (k, v) ∷ r) (pairs-entries d)

abbrev loads : String → Option Dict
loads String.[] = none
loads (String.◌∷◌ c s) = some (pairs (decode s))

abbrev pub codec : Json
codec = record {
  dumps = λ d. String.◌∷◌ "{" (entries d);
  loads = loads;
  dumps_nonempty = λ d. refl;
  loads-dumps = λ d. ap some (pairs-entries d);
}
