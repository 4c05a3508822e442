-- ===== src/Agent/Instagram.antt =====
-- src/mob/agent/integrations/instagram.py: `post_to_instagram`. The answers of the Graph API are a
-- parameter; a request that fails is an exception of the tool. The `range(6)` of the source is a
-- number of polls that is left.
pub mod Publishing
use mob.Prelude.{
  ℕ, zero, suc, String, ◌==◌, Bool, true, false, not, ◌||◌, Option, none, some, List, [], ◌∷◌,
  nat_eq, is_empty, if◌then◌else◌,
}
use mob.Json.{Json, Items, Fields, null, bool, number, str, arr, obj, get, is_true}

-- An answer with what `.json()` makes of it, or a transport error.
pub data Reply : Type 0 where
  response : (status_code : ℕ) (text : String) (json : Option Json) → Reply
  unreachable : Reply

-- The requests that the tool makes, and its pauses.
pub data Effect : Type 0 where
  create_container : (image_url caption : String) → Effect
  sleep : Effect
  poll : (container_id : Json) → Effect
  publish : (container_id : Json) → Effect

pub record Graph : Type 0 where
  pub media : Reply
  pub status : (remaining : ℕ) → Reply
  pub media_publish : Reply

-- What the tool returns, or its exception.
pub data Report : Type 0 where
  not_configured : Report
  no_container : (status_code : ℕ) (text : String) → Report
  no_id : Report
  processing_failed : Report
  published : (post_id : Json) → Report
  not_published : (status_code : ℕ) (text : String) → Report
  crashed : Report

-- `resp.json().get(key, default)`
unfoldable pub field_in : Option Json → String → Json → Option Json
unfolding get
field_in none key default = none
field_in (some v) key default = get key default v

-- One poll: the container is ready, has failed, is not ready yet, or the poll raises.
pub data Verdict : Type 0 where
  ready failed pending raised : Verdict

abbrev status_is : String → Json → Bool
status_is s (str t) = t == s
status_is s v = false

unfoldable pub verdict_of : Option Json → Verdict
verdict_of none = raised
verdict_of (some status) =
    if status_is "FINISHED" status
    then ready
    else if status_is "ERROR" status
    then failed
    else pending

unfoldable pub verdict : Reply → Verdict
unfolding field_in verdict_of
verdict unreachable = raised
verdict (response status_code text json) =
    if nat_eq status_code 200 then verdict_of (field_in json "status_code" null) else pending

abbrev published_as : Option Json → Report
published_as none = crashed
published_as (some post_id) = published post_id

unfoldable pub report : Reply → Report
unfolding field_in
report unreachable = crashed
report (response status_code text json) =
    if nat_eq status_code 200
    then published_as (field_in json "id" (str "unknown"))
    else not_published status_code text

unfoldable pub publish_container : Graph → Json → Report × List Effect
unfolding report
publish_container graph container_id = (report graph.media_publish, publish container_id ∷ [])

unfoldable pub after_poll :
    Verdict → Graph → Json → (others : Report × List Effect) → Report × List Effect
unfolding publish_container
after_poll ready graph container_id others = publish_container graph container_id
after_poll failed graph container_id others = (processing_failed, [])
after_poll pending graph container_id others = others
after_poll raised graph container_id others = (crashed, [])

-- The loop over the polls, and what follows it.
unfoldable pub poll_container : (remaining : ℕ) → Graph → Json → Report × List Effect
unfolding after_poll verdict publish_container
poll_container zero graph container_id = publish_container graph container_id
poll_container (suc n) graph container_id =
    let others = poll_container n graph container_id in
    let (outcome, effects) = after_poll (verdict (graph.status n)) graph container_id others in
    (outcome, sleep ∷ poll container_id ∷ effects)

unfoldable pub with_container : Graph → Option Json → Report × List Effect
unfolding poll_container
with_container graph none = (crashed, [])
with_container graph (some container_id) =
    if is_true container_id then poll_container 6 graph container_id else (no_id, [])

unfoldable pub on_media : Graph → Reply → Report × List Effect
unfolding with_container field_in
on_media graph unreachable = (crashed, [])
on_media graph (response status_code text json) =
    if nat_eq status_code 200
    then with_container graph (field_in json "id" null)
    else (no_container status_code text, [])

unfoldable pub post_to_instagram :
    (access_token business_account_id : String)
    → Graph
    → (image_url caption : String) → Report × List Effect
unfolding on_media
post_to_instagram access_token business_account_id graph image_url caption =
    if is_empty access_token || is_empty business_account_id
    then (not_configured, [])
    else let (outcome, effects) = on_media graph graph.media in
      (outcome, create_container image_url caption ∷ effects)
