-- ===== src/Services/Sessions/Lifecycle/Machine.antt =====
-- The moves of a session between its states, against VALID_TRANSITIONS of
-- src/mob/services/sessions.py.
use mathlib.Core.Path.{subst}
use mob.Prelude.{◌≡◌, refl, true, false}
use mob.Models.{SessionState, pending, starting, idle, busy, finished, failed, Session}
use mob.Services.Sessions.States.{is_terminal, is_allowed}

-- The moves of a session, from the life of its pod.
pub data Transition : SessionState → SessionState → Type 0 where
  launch : Transition pending starting
  become_ready : Transition starting idle
  accept : Transition idle busy
  release : Transition busy idle
  finish_idle : Transition idle finished
  finish_busy : Transition busy finished
  fail : {s : SessionState} → is_terminal s ≡ false → Transition s failed

pub is_allowed_sound : (s t : SessionState) → is_allowed s t ≡ true → Transition s t
is_allowed_sound pending starting h = launch
is_allowed_sound starting idle h = become_ready
is_allowed_sound idle busy h = accept
is_allowed_sound busy idle h = release
is_allowed_sound idle finished h = finish_idle
is_allowed_sound busy finished h = finish_busy
is_allowed_sound pending failed h = fail refl
is_allowed_sound starting failed h = fail refl
is_allowed_sound idle failed h = fail refl
is_allowed_sound busy failed h = fail refl
is_allowed_sound _ _ h = cc

pub not-Transition_terminal : {s t : SessionState} → is_terminal s ≡ true → ¬ Transition s t
not-Transition_terminal h (fail live) = cc
not-Transition_terminal h launch = cc
not-Transition_terminal h become_ready = cc
not-Transition_terminal h accept = cc
not-Transition_terminal h release = cc
not-Transition_terminal h finish_idle = cc
not-Transition_terminal h finish_busy = cc

-- What a request makes of one saved session: nothing, or a move of the machine.
pub data Evolves (a b : Session) : Type 0 where
  kept : b ≡ a → Evolves a b
  moved_by : b.id ≡ a.id → Transition a.state b.state → Evolves a b

-- Any number of moves.
pub data Run : SessionState → SessionState → Type 0 where
  stay : {s : SessionState} → Run s s
  go : {s t u : SessionState} → Transition s t → Run t u → Run s u

pub Run-cons : {a b : Session} {u : SessionState} → Evolves a b → Run b.state u → Run a.state u
Run-cons {u = u} (kept same) r = subst (λ (x : Session). Run x.state u) same r
Run-cons (moved_by _ m) r = go m r
