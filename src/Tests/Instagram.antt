-- ===== src/Tests/Instagram.antt =====
-- A post of Instagram whose container never gets ready.
use mob.Prelude.{◌≤◌, ◌↔◌, refl, some, In}
use mob.Json.{Json, str, obj, field, end}
use mob.Agent.Instagram.{Graph, response, publish, field_in, post_to_instagram}
use mob.Agent.Instagram.Publishing.{
  IsSettled, polls, post_to_instagram-publishes, post_to_instagram-polls,
}

abbrev container : Json
container = obj (field "id" (str "17") end)

abbrev slow : Graph
slow = record {
  media = response 200 "" (some container);
  status = λ n. response 200 "" (some (obj (field "status_code" (str "IN_PROGRESS") end)));
  media_publish = response 200 "" (some container);
}

post_to_instagram-publishes_example :
    In (publish (str "17")) (post_to_instagram "t" "b" slow "url" "hi").1 ↔ IsSettled 6 slow
unfolding field_in
post_to_instagram-publishes_example =
    post_to_instagram-publishes "t" "b" "" "url" "hi" slow (some container) (str "17") refl refl
      refl refl

post_to_instagram-polls_example : polls (post_to_instagram "t" "b" slow "url" "hi").1 ≤ 6
post_to_instagram-polls_example = post_to_instagram-polls "t" "b" "url" "hi" slow
