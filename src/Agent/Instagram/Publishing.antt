-- ===== src/Agent/Instagram/Publishing.antt =====
-- When `post_to_instagram` (src/mob/agent/integrations/instagram.py) publishes.
use mathlib.Core.Path.{subst}
use mob.Prelude.{
  ℕ, zero, suc, ◌≤◌, ◌<◌, String, ◌≡◌, ◌≢◌, ◌↔◌, ◌⊎◌, inl, inr, refl, sym, ◌∙◌, Bool, true, false,
  ◌||◌, Option, none, some, List, [], ◌∷◌, In, nat_eq, is_empty, arith, if◌then◌else◌,
}
use mob.Json.{Json, null, is_true}
use mob.Agent.Instagram.{
  Reply, response, unreachable, Effect, create_container, sleep, poll, publish, Graph, Report,
  field_in, Verdict, ready, failed, pending, raised, verdict, publish_container, after_poll,
  poll_container, with_container, on_media, post_to_instagram,
}

-- With `k` of `n` polls left a poll found the container ready, or `k` is 0; those before found it
-- pending.
unfoldable pub IsSettled : ℕ → Graph → Type 0
IsSettled n g =
    (k : ℕ) × (k ≤ n)
    × ((i : ℕ) → k ≤ i → i < n → verdict (g.status i) ≡ pending)
    × ((k ≡ 0) ⊎ ((j : ℕ) × (k ≡ suc j) × (verdict (g.status j) ≡ ready)))

at_most-cases : (a b : ℕ) → a ≤ suc b → (a ≤ b) ⊎ (a ≡ suc b)
at_most-cases a b h = ground arith

ready-ne-pending : {v : Verdict} → v ≡ ready → v ≢ pending
ready-ne-pending e e' = ground arith

IsSettled-pending :
    (n : ℕ) (g : Graph) → verdict (g.status n) ≡ pending → IsSettled (suc n) g ↔ IsSettled n g
unfolding IsSettled
IsSettled-pending n g e = (shrink, grow)
  where
    shrink : IsSettled (suc n) g → IsSettled n g
    shrink (k, le, before, at) = elim (at_most-cases k n le) [
      | inl low ↦ (k, low, (λ i h h'. before i h (omega arith)), at)
      | inr last ↦ elim at [
        | inl none_left ↦ absurd (omega arith)
        | inr (j, same, r) ↦
            let here : j ≡ n = omega arith in
            absurd (ready-ne-pending (subst (λ x. verdict (g.status x) ≡ ready) here r) e)
      ]
    ]

    grow : IsSettled n g → IsSettled (suc n) g
    grow (k, le, before, at) = (
      k,
      omega arith,
      (λ i h h'. elim (at_most-cases (suc i) n h') [
        | inl low ↦ before i h low
        | inr last ↦
            let here : n ≡ i = omega arith in subst (λ x. verdict (g.status x) ≡ pending) here e
      ]),
      at,
    )

IsSettled-other :
    (n : ℕ) (g : Graph)
    → verdict (g.status n) ≢ pending
    → IsSettled (suc n) g ↔ (verdict (g.status n) ≡ ready)
unfolding IsSettled
IsSettled-other n g ne = (only, now)
  where
    only : IsSettled (suc n) g → verdict (g.status n) ≡ ready
    only (k, le, before, at) = elim (at_most-cases k n le) [
      | inl low ↦ absurd (ne (before n low (omega arith)))
      | inr last ↦ elim at [
        | inl none_left ↦ absurd (omega arith)
        | inr (j, same, r) ↦
            let here : j ≡ n = omega arith in subst (λ x. verdict (g.status x) ≡ ready) here r
      ]
    ]

    now : verdict (g.status n) ≡ ready → IsSettled (suc n) g
    now e = (suc n, omega arith, (λ i h h'. absurd (omega arith)), inr (n, refl, e))

-- A poll and its pause publish nothing.
skip_poll :
    (c : Json) (effects : List Effect)
    → In (publish c) (sleep ∷ poll c ∷ effects) ↔ In (publish c) effects
skip_poll c effects = (from, (λ m. inr (inr m)))
  where
    from : In (publish c) (sleep ∷ poll c ∷ effects) → In (publish c) effects
    from (inl e) = ground arith
    from (inr (inl e)) = ground arith
    from (inr (inr m)) = m

after_poll_iff :
    (n : ℕ) (g : Graph) (c : Json) (others : Report × List Effect) (v : Verdict)
    → verdict (g.status n) ≡ v
    → In (publish c) others.1 ↔ IsSettled n g
    → In (publish c) (after_poll v g c others).1 ↔ IsSettled (suc n) g
unfolding after_poll publish_container
after_poll_iff n g c others ready e h =
    ((λ m. (IsSettled-other n g (ready-ne-pending e)).1 e), (λ s. inl refl))
after_poll_iff n g c others failed e h = (
  (λ m. absurd m),
  (λ s. absurd (other (sym e ∙ (IsSettled-other n g (λ p. other' (sym e ∙ p))).0 s))),
)
  where
    other : failed ≢ ready
    other = λ q. ground arith

    other' : failed ≢ pending
    other' = λ q. ground arith
after_poll_iff n g c others raised e h = (
  (λ m. absurd m),
  (λ s. absurd (other (sym e ∙ (IsSettled-other n g (λ p. other' (sym e ∙ p))).0 s))),
)
  where
    other : raised ≢ ready
    other = λ q. ground arith

    other' : raised ≢ pending
    other' = λ q. ground arith
after_poll_iff n g c others pending e h =
    let (shrink, grow) = IsSettled-pending n g e in ((λ m. grow (h.0 m)), (λ s. h.1 (shrink s)))

poll_container_iff :
    (n : ℕ) (g : Graph) (c : Json) → In (publish c) (poll_container n g c).1 ↔ IsSettled n g
unfolding poll_container publish_container
poll_container_iff zero g c =
    (unfold IsSettled in
      ((λ m. (zero, omega arith, (λ i h h'. absurd (omega arith)), inl refl)), (λ s. inl refl)))
poll_container_iff (suc n) g c =
    let others = poll_container n g c in
    let (from, to) =
      after_poll_iff n g c others (verdict (g.status n)) refl (poll_container_iff n g c) in
    let (past, back) = skip_poll c (after_poll (verdict (g.status n)) g c others).1 in
    ((λ m. from (past m)), (λ s. back (to s)))

skip_container :
    {image_url caption : String} (c : Json) (effects : List Effect)
    → In (publish c) (create_container image_url caption ∷ effects)
    → In (publish c) effects
skip_container c effects (inl e) = ground arith
skip_container c effects (inr m) = m

-- With both credentials set and a container created with an id, post_to_instagram publishes the
-- container exactly if all polls up to some point of the six found it pending, and the next one
-- found it ready or there was none left.
pub post_to_instagram-publishes :
    (access_token account text image_url caption : String) (g : Graph) (json : Option Json)
    (c : Json)
    → is_empty access_token || is_empty account ≡ false
    → g.media ≡ response 200 text json
    → field_in json "id" null ≡ some c
    → is_true c ≡ true
    → In (publish c) (post_to_instagram access_token account g image_url caption).1 ↔ IsSettled 6 g
unfolding post_to_instagram on_media with_container
post_to_instagram-publishes access_token account text image_url caption g json c set made named
      real =
    let effects : (post_to_instagram access_token account g image_url caption).1
        ≡ create_container image_url caption ∷ (poll_container 6 g c).1 =
      rw (set, made, named, real) refl in
    let (from, to) = poll_container_iff 6 g c in
    (
      (λ m. from (skip_container c (poll_container 6 g c).1 (subst (In (publish c)) effects m))),
      (λ s. subst (In (publish c)) (sym effects) (inr (to s))),
    )

-- How often the tool polls
unfoldable pub polls : List Effect → ℕ
polls [] = 0
polls (poll c ∷ effects) = suc (polls effects)
polls (effect ∷ effects) = polls effects

poll_container-polls : (n : ℕ) (g : Graph) (c : Json) → polls (poll_container n g c).1 ≤ n
unfolding poll_container publish_container polls
poll_container-polls zero g c = omega arith
poll_container-polls (suc n) g c =
    by_verdict (verdict (g.status n)) (poll_container n g c) (poll_container-polls n g c)
  where
    by_verdict :
        (v : Verdict) (others : Report × List Effect)
        → polls others.1 ≤ n
        → suc (polls (after_poll v g c others).1) ≤ suc n
    by_verdict ready others h = omega arith
    by_verdict failed others h = omega arith
    by_verdict pending others h = omega arith
    by_verdict raised others h = omega arith

abbrev either : Bool → Report × List Effect → Report × List Effect → Report × List Effect
either b x y = if b then x else y

either-polls :
    (b : Bool) (x y : Report × List Effect)
    → polls x.1 ≤ 6
    → polls y.1 ≤ 6
    → polls (either b x y).1 ≤ 6
either-polls true x y h h' = h
either-polls false x y h h' = h'

with_container-polls : (g : Graph) (o : Option Json) → polls (with_container g o).1 ≤ 6
unfolding with_container polls
with_container-polls g none = omega arith
with_container-polls g (some c) =
    either-polls (is_true c) _ _ (poll_container-polls 6 g c) (omega arith)

on_media-polls : (g : Graph) (r : Reply) → polls (on_media g r).1 ≤ 6
unfolding on_media polls
on_media-polls g unreachable = omega arith
on_media-polls g (response status_code text json) =
    either-polls (nat_eq status_code 200) _ _ (with_container-polls g (field_in json "id" null))
      (omega arith)

-- Whatever the answers, post_to_instagram ends with at most six polls.
pub post_to_instagram-polls :
    (access_token account image_url caption : String) (g : Graph)
    → polls (post_to_instagram access_token account g image_url caption).1 ≤ 6
unfolding post_to_instagram polls
post_to_instagram-polls access_token account image_url caption g =
    either-polls (is_empty access_token || is_empty account) _ _ (omega arith)
      (on_media-polls g g.media)
