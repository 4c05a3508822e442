-- ===== src/Services/Sessions/States/Codec.antt =====
-- The texts of the states: parsing against printing (`SessionState` of src/mob/models/session.py).
use mathlib.Core.Option.{some-injective}
use mob.Prelude.{◌≡◌, refl, sym, ap, ◌∙◌, ◌↔◌, true, some, eq_refl, eq_of_==}
use mob.Models.{SessionState, pending, starting, idle, busy, finished, failed, value}
use mob.Services.Sessions.States.{session_state, same_state}

session_state-value : (s : SessionState) → session_state (value s) ≡ some s
unfolding session_state
session_state-value pending = refl
session_state-value starting = refl
session_state-value idle = refl
session_state-value busy = refl
session_state-value finished = refl
session_state-value failed = refl

pub same_state_iff : (s t : SessionState) → (same_state s t ≡ true) ↔ (s ≡ t)
same_state_iff s t = (λ h. some_eq s t (eq_of_== _ _ h), λ e. rw e (eq_refl (value t)))
  where
    some_eq : (s t : SessionState) → value s ≡ value t → s ≡ t
    some_eq s t e =
        some-injective s t
          (sym (session_state-value s) ∙ ap session_state e ∙ session_state-value t)
