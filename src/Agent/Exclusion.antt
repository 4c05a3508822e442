-- ===== src/Agent/Exclusion.antt =====
-- Handlers of src/mob/agent/entrypoint.py side by side: which of them work on a message, over every
-- schedule.
use Prim.Native.String.{count}
use mob.Prelude.{
  ltb, ℕ, String, ◌≡◌, ◌≢◌, refl, Bool, true, false, Option, some, List, [], ◌∷◌, arith,
  if◌then◌else◌,
}
use mob.Agent.Entrypoint.{
  AgentState, starting, idle, busy, finished, Phase, absent, waiting, patching, running, settling,
  answered, Pod, Event, shutdown, arrive, enter, patched, complete, time_out, break, cancel, reply,
  max_length, is_authorized, set_phase, on_arrive, on_enter, on_patched, on_complete, on_failure,
  on_cancel, on_reply, on_startup, on_shutdown, admit, step, steps, fresh,
}

-- Admitted, and without an outcome yet.
abbrev pub is_working : Phase → Bool
is_working patching = true
is_working (running given) = true
is_working _ = false

pub record IsExclusive (p : Pod) : Type 0 where
  pub unique : (i j : ℕ) → is_working (p.phase i) ≡ true → is_working (p.phase j) ≡ true → i ≡ j
  pub not_idle : (i : ℕ) → is_working (p.phase i) ≡ true → p.state ≢ idle
  pub not_starting : (i : ℕ) → is_working (p.phase i) ≡ true → p.state ≢ starting
  pub current :
      (i : ℕ) (given : Option (List String)) → p.phase i ≡ running given → given ≡ p.history

-- A handler that stops working, or never worked, takes another phase without work.
rest_IsExclusive :
    (p : Pod) (i : ℕ) (ph : Phase)
    → IsExclusive p
    → is_working ph ≡ false
    → IsExclusive (set_phase i ph p)
rest_IsExclusive p i ph v h = record {
  unique = λ j k a b. ground (arith, v.unique j k);
  not_idle = λ j a. ground (arith, v.not_idle j);
  not_starting = λ j a. ground (arith, v.not_starting j);
  current = λ j given e. ground (arith, v.current j given);
}

-- The one working handler comes to its outcome: nobody works, whatever the state becomes.
release_IsExclusive :
    (p : Pod) (i : ℕ) (ph : Phase) (s : AgentState) (h : Option (List String))
    → IsExclusive p
    → is_working (p.phase i) ≡ true
    → is_working ph ≡ false
    → IsExclusive (set_phase i ph (record p { state = s; history = h }))
release_IsExclusive p i ph s h v w r = record {
  unique = λ j k a b. ground (arith, v.unique i j);
  not_idle = λ j a. absurd (ground (arith, v.unique i j));
  not_starting = λ j a. absurd (ground (arith, v.unique i j));
  current = λ j given e. ground (arith, v.unique i j);
}

-- Nobody works in an idle pod, so an admission makes one worker.
admit_IsExclusive :
    (p : Pod) (i : ℕ)
    → IsExclusive p
    → p.state ≡ idle
    → IsExclusive (set_phase i patching (record p { state = busy; lock_free = false }))
admit_IsExclusive p i v e = record {
  unique = λ j k a b. ground (arith, v.not_idle j, v.not_idle k);
  not_idle = λ j a. ground arith;
  not_starting = λ j a. ground arith;
  current = λ j given q. ground (arith, v.not_idle j);
}

call_IsExclusive :
    (p : Pod) (i : ℕ)
    → IsExclusive p
    → p.phase i ≡ patching
    → IsExclusive (set_phase i (running p.history) (record p { lock_free = true }))
call_IsExclusive p i v e = record {
  unique = λ j k a b. ground (arith, v.unique j k);
  not_idle = λ j a. ground (arith, v.not_idle j, v.not_idle i);
  not_starting = λ j a. ground (arith, v.not_starting j, v.not_starting i);
  current = λ j given q. ground (arith, v.current j given);
}

unlocked_IsExclusive : (p : Pod) → IsExclusive p → IsExclusive (record p { lock_free = true })
unlocked_IsExclusive p v = record {
  unique = v.unique;
  not_idle = v.not_idle;
  not_starting = v.not_starting;
  current = v.current;
}

module _ (p : Pod) (i : ℕ) (v : IsExclusive p) where
  admit-IsExclusive : (s : AgentState) → p.state ≡ s → IsExclusive (admit i s p)
  unfolding admit
  admit-IsExclusive idle e = admit_IsExclusive p i v e
  admit-IsExclusive starting e = rest_IsExclusive p i _ v refl
  admit-IsExclusive busy e = rest_IsExclusive p i _ v refl
  admit-IsExclusive finished e = rest_IsExclusive p i _ v refl

  if-IsExclusive :
      (b : Bool) (x y : Pod) → IsExclusive x → IsExclusive y → IsExclusive (if b then x else y)
  if-IsExclusive true x y a c = a
  if-IsExclusive false x y a c = c

  on_arrive-IsExclusive :
      (message : String) (authorization : Option String) (ph : Phase)
      → IsExclusive (on_arrive i message authorization ph p)
  unfolding on_arrive
  on_arrive-IsExclusive message authorization absent =
      if-IsExclusive (ltb max_length (count message)) _ _ (rest_IsExclusive p i (answered _) v refl)
        (if-IsExclusive (is_authorized p.auth_token authorization) _ _
          (rest_IsExclusive p i waiting v refl) (rest_IsExclusive p i (answered _) v refl))
  on_arrive-IsExclusive message authorization _ = v

  on_enter-IsExclusive : (ph : Phase) → IsExclusive (on_enter i ph p)
  unfolding on_enter
  on_enter-IsExclusive waiting = if-IsExclusive _ _ _ (admit-IsExclusive p.state refl) v
  on_enter-IsExclusive _ = v

  on_patched-IsExclusive : (ph : Phase) → p.phase i ≡ ph → IsExclusive (on_patched i ph p)
  unfolding on_patched
  on_patched-IsExclusive patching e = call_IsExclusive p i v e
  on_patched-IsExclusive _ e = v

  on_complete-IsExclusive :
      (messages : List String) (output : String) (ph : Phase)
      → p.phase i ≡ ph
      → IsExclusive (on_complete i messages output ph p)
  unfolding on_complete
  on_complete-IsExclusive messages output (running given) e =
      release_IsExclusive p i _ idle (some messages) v (rw e refl) refl
  on_complete-IsExclusive messages output _ e = v

  on_failure-IsExclusive :
      (code : ℕ) (text : String) (ph : Phase)
      → p.phase i ≡ ph
      → IsExclusive (on_failure i code text ph p)
  unfolding on_failure
  on_failure-IsExclusive code text (running given) e =
      release_IsExclusive p i _ idle p.history v (rw e refl) refl
  on_failure-IsExclusive code text _ e = v

  on_cancel-IsExclusive : (ph : Phase) → IsExclusive (on_cancel i ph p)
  unfolding on_cancel
  on_cancel-IsExclusive waiting = rest_IsExclusive p i _ v refl
  on_cancel-IsExclusive patching =
      rest_IsExclusive (record p { lock_free = true }) i _ (unlocked_IsExclusive p v) refl
  on_cancel-IsExclusive (running given) = rest_IsExclusive p i _ v refl
  on_cancel-IsExclusive (settling status_code text) = rest_IsExclusive p i _ v refl
  on_cancel-IsExclusive _ = v

  on_reply-IsExclusive : (ph : Phase) → IsExclusive (on_reply i ph p)
  unfolding on_reply
  on_reply-IsExclusive (settling code text) = rest_IsExclusive p i _ v refl
  on_reply-IsExclusive _ = v

-- The end of the server gives a pod no worker.
on_shutdown-IsExclusive : (p : Pod) → IsExclusive p → IsExclusive (on_shutdown p)
unfolding on_shutdown
on_shutdown-IsExclusive p v = record {
  unique = v.unique;
  not_idle = λ i a. λ q. cc;
  not_starting = λ i a. λ q. cc;
  current = v.current;
}

pub step-IsExclusive : (e : Event) (p : Pod) → IsExclusive p → IsExclusive (step e p)
unfolding step
step-IsExclusive shutdown p v = on_shutdown-IsExclusive p v
step-IsExclusive (arrive i message authorization) p v =
    on_arrive-IsExclusive p i v message authorization (p.phase i)
step-IsExclusive (enter i) p v = on_enter-IsExclusive p i v (p.phase i)
step-IsExclusive (patched i) p v = on_patched-IsExclusive p i v (p.phase i) refl
step-IsExclusive (complete i messages output) p v =
    on_complete-IsExclusive p i v messages output (p.phase i) refl
step-IsExclusive (time_out i) p v = on_failure-IsExclusive p i v 504 _ (p.phase i) refl
step-IsExclusive (break i) p v = on_failure-IsExclusive p i v 502 _ (p.phase i) refl
step-IsExclusive (cancel i) p v = on_cancel-IsExclusive p i v (p.phase i)
step-IsExclusive (reply i) p v = on_reply-IsExclusive p i v (p.phase i)

fresh-IsExclusive : (token : String) → IsExclusive (fresh token)
fresh-IsExclusive token = record {
  unique = λ i j a b. cc;
  not_idle = λ i a. cc;
  not_starting = λ i a. cc;
  current = λ i given e. cc;
}

started-IsExclusive : (token : String) → IsExclusive (on_startup (fresh token))
unfolding on_startup
started-IsExclusive token = record {
  unique = λ i j a b. cc;
  not_idle = λ i a. cc;
  not_starting = λ i a. cc;
  current = λ i given e. cc;
}

steps-IsExclusive : (es : List Event) (p : Pod) → IsExclusive p → IsExclusive (steps es p)
unfolding steps
steps-IsExclusive [] p v = v
steps-IsExclusive (e ∷ es) p v = steps-IsExclusive es (step e p) (step-IsExclusive e p v)

-- Over every schedule of message handlers in a pod, before or after its startup, at most one
-- handler is between its admission and its outcome, the pod is then neither idle nor starting,
-- and the history given to the LLM is still the history of the pod.
pub schedule-IsExclusive :
    (token : String) (es : List Event)
    → IsExclusive (steps es (fresh token)) × IsExclusive (steps es (on_startup (fresh token)))
schedule-IsExclusive token es = (
  steps-IsExclusive es (fresh token) (fresh-IsExclusive token),
  steps-IsExclusive es (on_startup (fresh token)) (started-IsExclusive token),
)
