-- ===== src/Services/Sessions/Layers.antt =====
-- Which layer of `_build_env_vars` a variable of the pod comes from.
use mob.Prelude.{
  String, ◌<>◌, ◌==◌, ◌&&◌, Bool, not, inl, inr, Bool-cases, if◌then◌else◌, ap, ◌≡◌, refl, ◌∙◌,
  false, Option, none, some, [], ◌∷◌, lookup, last, update, lookup-update, is_empty, or_else,
}
use mob.Services.Json.{Json, Dict, dumps_given}
use mob.Services.Agents.{AgentData, new_agent}
use mob.Services.Sessions.Env.{
  load_column, default_layer, custom_layer, override_layer, merge_layers, none_if_empty,
  build_env_vars,
}

lookup-merge_layers :
    (upper : String → String) (k : String) (d c : Dict) (overrides : Option Dict)
    → lookup k (merge_layers upper d c overrides)
      ≡ last k
          (override_layer overrides)
          (last k (custom_layer upper c) (last k (default_layer d) none))
unfolding merge_layers lookup
lookup-merge_layers upper k d c overrides =
    rw
      (
        lookup-update k (update (update [] (default_layer d)) (custom_layer upper c))
            (override_layer overrides),
        lookup-update k (update [] (default_layer d)) (custom_layer upper c),
        lookup-update k [] (default_layer d),
      )
      refl

load_nonempty : (j : Json) (t : String) → is_empty t ≡ false → load_column j (some t) ≡ j.loads t
unfolding load_column
load_nonempty j String.[] h = cc
load_nonempty j (String.◌∷◌ c s) h = refl

load-dumps : (j : Json) (d : Option Dict) → load_column j (dumps_given j d) ≡ some (or_else d [])
unfolding load_column
load-dumps j none = refl
load-dumps j (some []) = refl
load-dumps j (some (kv ∷ d)) =
    load_nonempty j (j.dumps (kv ∷ d)) (j.dumps_nonempty (kv ∷ d)) ∙ j.loads-dumps (kv ∷ d)

or_else-none_if_empty : (d : Dict) → or_else (none_if_empty d) [] ≡ d
or_else-none_if_empty [] = refl
or_else-none_if_empty (kv ∷ d) = refl

-- The last entry that passes a test of its name and its value, or `found` if none does.
unfoldable pub newest :
    (test : (name value : String) → Bool) → Dict → (found : Option String) → Option String
newest test [] found = found
newest test ((name, value) ∷ d) found =
    newest test d (if test name value then some value else found)

last-default_layer :
    (k : String) (d : Dict) (found : Option String)
    → last k (default_layer d) found
      ≡ newest (λ name value. not (is_empty value) && name == k) d found
unfolding last newest
last-default_layer k [] found = refl
last-default_layer k ((name, value) ∷ d) found = elim (Bool-cases (is_empty value)) [
  | inl empty ↦ rw empty (last-default_layer k d found)
  | inr full ↦ rw full (last-default_layer k d (if name == k then some value else found))
]

last-custom_layer :
    (upper : String → String) (k : String) (d : Dict) (found : Option String)
    → last k (custom_layer upper d) found
      ≡ newest (λ name value. ("AGENT_CUSTOM_" <> upper name) == k) d found
unfolding last newest
last-custom_layer upper k [] found = refl
last-custom_layer upper k ((name, value) ∷ d) found =
    last-custom_layer upper k d (if ("AGENT_CUSTOM_" <> upper name) == k then some value else found)

last-override_layer :
    (k : String) (d : Option Dict) (found : Option String)
    → last k (override_layer d) found ≡ newest (λ name value. name == k) (or_else d []) found
unfolding last newest
last-override_layer k none found = refl
last-override_layer k (some []) found = refl
last-override_layer k (some ((name, value) ∷ d)) found =
    last-override_layer k (some d) (if name == k then some value else found)

-- The environment of a pod of an agent that create_agent made is built, and each variable is the
-- override, else the custom entry whose name under AGENT_CUSTOM_ it is, else the default that is
-- not empty, of several entries the last.
pub lookup-build_env_vars :
    (j : Json) (upper : String → String) (id name template domain_id : String) (fields : AgentData)
    (overrides : Option Dict)
    → (vars : Option Dict) × (build_env_vars j upper
          (new_agent j id name template domain_id fields)
          overrides
        ≡ some vars)
      × ((k : String)
          → lookup k (or_else vars [])
            ≡ newest
                (λ name value. name == k)
                (or_else overrides [])
                (newest
                  (λ name value. ("AGENT_CUSTOM_" <> upper name) == k)
                  (or_else fields.custom_config [])
                  (newest
                    (λ name value. not (is_empty value) && name == k)
                    (or_else fields.env_defaults [])
                    none)))
unfolding build_env_vars
lookup-build_env_vars j upper id name template domain_id fields overrides =
    let d = or_else fields.env_defaults [] in
    let c = or_else fields.custom_config [] in
    let merged = merge_layers upper d c overrides in
    (
      none_if_empty merged,
      rw (load-dumps j fields.env_defaults, load-dumps j fields.custom_config) refl,
      λ k. rw (or_else-none_if_empty merged) (
          lookup-merge_layers upper k d c overrides
          ∙ last-override_layer k overrides _
          ∙ ap (newest (λ name value. name == k) (or_else overrides [])) (
              last-custom_layer upper k c _
              ∙ ap (newest (λ name value. ("AGENT_CUSTOM_" <> upper name) == k) c)
                  (last-default_layer k d none))),
    )
