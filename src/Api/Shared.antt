-- ===== src/Api/Shared.antt =====
-- The requests that the HTTP API and local mode share: what it is for a handler of src/mob/api/routes
-- and a branch of src/mob/cli/local_backend.py to agree, with a rule for each reader of a value.
use mathlib.Core.Path.{subst}
use mob.Prelude.{
  String, ◌≡◌, refl, sym, Bool, true, false, Option, none, some, List, [], Assoc, if◌then◌else◌,
}
use mob.Backend.{Request}
use mob.Backend.Routes as Local
use mob.Backend.Routes.{
  route_organizations, route_domains, route_users, route_group_list, route_groups, route_agents,
  route_sessions, route_tasks, route_skills, route,
}
use mob.Backend.Routes.Values.{
  Value, null, text, texts, dict, mixed, Route, unmatched, read_text, read_optional, read_dict,
  read_texts,
}
use mob.Api.Schemas.{
  Endpoint, not_found, method_not_allowed, invalid, call, guarded, check_text, check_optional,
  check_dict, check_texts, check_optional_texts,
}
use mob.Api.Routes.{or_next}

-- Every request but the update of a session's state, whose new state the API reads from the query
-- and local mode from the body.
abbrev pub IsShared : Request → Type 0
IsShared (Request.update_session_state _ _) = ⊥
IsShared _ = Unit

-- A shared request that the API makes is made in local mode; where the API has no route, local mode
-- has none.
pub record Agrees (e : Endpoint) (l : Route) : Type 0 where
  pub same : (r : Request) → IsShared r → e ≡ call r → l ≡ Route.call r
  pub neither : e ≡ not_found → l ≡ unmatched

pub Agrees-call : (r : Request) → Agrees (call r) (Route.call r)
Agrees-call r = record { same = λ r' h e. cc; neither = λ e. cc }

pub Agrees-invalid : (l : Route) → Agrees invalid l
Agrees-invalid l = record { same = λ r h e. cc; neither = λ e. cc }

pub Agrees-method : (l : Route) → Agrees method_not_allowed l
Agrees-method l = record { same = λ r h e. cc; neither = λ e. cc }

pub Agrees-neither : Agrees not_found unmatched
Agrees-neither = record { same = λ r h e. cc; neither = λ e. refl }

pub Agrees-if :
    (b : Bool) (e e' : Endpoint) (l l' : Route)
    → Agrees e l
    → Agrees e' l'
    → Agrees (if b then e else e') (if b then l else l')
Agrees-if true e e' l l' h k = h
Agrees-if false e e' l l' h k = k

pub Agrees-guarded : (b : Bool) (e : Endpoint) (l : Route) → Agrees e l → Agrees (guarded b e) l
Agrees-guarded true e l h = h
Agrees-guarded false e l h = Agrees-invalid l

-- A reader of the API against the reader of local mode for the same value.
module _ (ok : String → Bool) where
  pub Agrees-check_text :
      (v : Option Value) (f : String → Endpoint) (g : String → Route)
      → ((s : String) → Agrees (f s) (g s))
      → Agrees (check_text ok v f) (read_text v g)
  unfolding check_text read_text
  Agrees-check_text none f g h = Agrees-invalid _
  Agrees-check_text (some (text s)) f g h = Agrees-guarded (ok s) (f s) (g s) (h s)
  Agrees-check_text (some null) f g h = Agrees-invalid _
  Agrees-check_text (some (texts l)) f g h = Agrees-invalid _
  Agrees-check_text (some (dict d)) f g h = Agrees-invalid _
  Agrees-check_text (some mixed) f g h = Agrees-invalid _

  pub Agrees-check_optional :
      (v : Option Value) (f : Option String → Endpoint) (g : Option String → Route)
      → ((s : Option String) → Agrees (f s) (g s))
      → Agrees (check_optional ok v f) (read_optional v g)
  unfolding check_optional read_optional
  Agrees-check_optional none f g h = h none
  Agrees-check_optional (some null) f g h = h none
  Agrees-check_optional (some (text s)) f g h =
      Agrees-guarded (ok s) (f (some s)) (g (some s)) (h (some s))
  Agrees-check_optional (some (texts l)) f g h = Agrees-invalid _
  Agrees-check_optional (some (dict d)) f g h = Agrees-invalid _
  Agrees-check_optional (some mixed) f g h = Agrees-invalid _

pub Agrees-check_dict :
    (v : Option Value) (f : Option (Assoc String) → Endpoint) (g : Option (Assoc String) → Route)
    → ((d : Option (Assoc String)) → Agrees (f d) (g d))
    → Agrees (check_dict v f) (read_dict v g)
unfolding check_dict read_dict
Agrees-check_dict none f g h = h none
Agrees-check_dict (some null) f g h = h none
Agrees-check_dict (some (dict d)) f g h = h (some d)
Agrees-check_dict (some (text s)) f g h = Agrees-invalid _
Agrees-check_dict (some (texts l)) f g h = Agrees-invalid _
Agrees-check_dict (some mixed) f g h = Agrees-invalid _

pub Agrees-check_texts :
    (v : Option Value) (f : Option (List String) → Endpoint) (g : Option (List String) → Route)
    → ((l : Option (List String)) → Agrees (f l) (g l))
    → Agrees (check_texts v f) (read_texts (some []) v g)
unfolding check_texts read_texts
Agrees-check_texts none f g h = h (some [])
Agrees-check_texts (some (texts l)) f g h = h (some l)
Agrees-check_texts (some null) f g h = Agrees-invalid _
Agrees-check_texts (some (text s)) f g h = Agrees-invalid _
Agrees-check_texts (some (dict d)) f g h = Agrees-invalid _
Agrees-check_texts (some mixed) f g h = Agrees-invalid _

pub Agrees-check_optional_texts :
    (v : Option Value) (f : Option (List String) → Endpoint) (g : Option (List String) → Route)
    → ((l : Option (List String)) → Agrees (f l) (g l))
    → Agrees (check_optional_texts v f) (read_texts none v g)
unfolding check_optional_texts read_texts
Agrees-check_optional_texts none f g h = h none
Agrees-check_optional_texts (some null) f g h = h none
Agrees-check_optional_texts (some (texts l)) f g h = h (some l)
Agrees-check_optional_texts (some (text s)) f g h = Agrees-invalid _
Agrees-check_optional_texts (some (dict d)) f g h = Agrees-invalid _
Agrees-check_optional_texts (some mixed) f g h = Agrees-invalid _

pub ruleset agrees_rules = (
  Agrees-call, Agrees-invalid, Agrees-method, Agrees-neither, Agrees-if, Agrees-guarded,
  Agrees-check_text, Agrees-check_optional, Agrees-check_dict, Agrees-check_texts,
  Agrees-check_optional_texts,
)

call-injective : {r r' : Request} → call r ≡ call r' → r ≡ r'
call-injective e = cc

not_shared :
    {id s : String} (r : Request)
    → IsShared r
    → ¬ (call (Request.update_session_state id s) ≡ call r)
not_shared {id} {s} r h e = subst IsShared (sym (call-injective e)) h

-- The update of a state is no shared request.
pub Agrees-state :
    (v : Option Value) (ok : String → Bool) (id : String) (l : Route)
    → Agrees (check_text ok v λ state. call (Request.update_session_state id state)) l
unfolding check_text
Agrees-state none ok id l = Agrees-invalid l
Agrees-state (some (text s)) ok id l =
    Agrees-guarded (ok s) (call (Request.update_session_state id s)) l (refused s)
  where
    refused : (s : String) → Agrees (call (Request.update_session_state id s)) l
    refused s = record { same = λ r h e. absurd (not_shared r h e); neither = λ e. cc }
Agrees-state (some null) ok id l = Agrees-invalid l
Agrees-state (some (texts x)) ok id l = Agrees-invalid l
Agrees-state (some (dict d)) ok id l = Agrees-invalid l
Agrees-state (some mixed) ok id l = Agrees-invalid l

pub Agrees-or_next :
    (e e' : Endpoint) (l l' : Route)
    → Agrees e l
    → Agrees e' l'
    → Agrees (or_next e e') (Local.or_next l l')
Agrees-or_next not_found e' l l' h k =
    subst (λ x. Agrees e' (Local.or_next x l')) (sym (h.neither refl)) k
Agrees-or_next method_not_allowed e' l l' h k = Agrees-method _
Agrees-or_next invalid e' l l' h k = Agrees-invalid _
Agrees-or_next (call r) e' l l' h k = record {
  same = λ r' shared e. cc (h.same r (subst IsShared (sym (call-injective e)) shared) refl, e);
  neither = λ e. cc;
}
