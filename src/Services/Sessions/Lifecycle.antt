-- ===== src/Services/Sessions/Lifecycle.antt =====
-- The saved state of a session under any sequence of control requests: a state machine.
pub mod Machine
use Machine.{
  Transition, fail, is_allowed_sound, not-Transition_terminal, Evolves, kept, moved_by, Run, stay,
  Run-cons,
}
use mathlib.Core.Path.{subst}
use mob.Prelude.{
  ◌∙◌, eq_of_==, String, ◌==◌, ◌≡◌, refl, sym, ap, ◌⊎◌, inl, inr, ◌↔◌, true, false, some, List, [],
  ◌∷◌, arith, Bool-cases, Option-cases,
}
use mob.Models.{SessionState, pending, starting, idle, busy, finished, failed, Session}
use mob.Orm.{Orm, Db}
use mob.Orm.Mapped.{get_own, get-update}
use mob.Transaction.{Result, ok, err, run, ◌>>=◌, pure, require, refuse_if, commit, find, assign}
use mob.Services.Sessions.States.{is_terminal, is_allowed, session_state}
use mob.Services.Sessions.Control.{
  stop_session, update_session_state, stopped, moved, invalid_transition,
}

pub data Control : Type 0 where
  stop : (session_id : String) → Control
  update : (session_id state : String) → Control

module _ {o : Orm} where
  abbrev pub handle : Control → Db o → Result Session × Db o
  handle (stop session_id) db = run (stop_session session_id) db
  handle (update session_id state) db = run (update_session_state session_id state) db

  -- The saved database after a request, whether it succeeds or not.
  abbrev pub after : Control → Db o → Db o
  after c db = (handle c db).1

  -- One row is replaced by another with its id, by a move of the machine.
  record IsMove (db db' : Db o) : Type 0 where
    old : Session
    new : Session
    table : o.sessions.Table
    present : o.sessions.get db.sessions old.id ≡ some old
    same_id : new.id ≡ old.id
    move : Transition old.state new.state
    updated : o.sessions.update new db.sessions ≡ some table
    result : db' ≡ record db { sessions = table }

  after_cases : (c : Control) (db : Db o) → (after c db ≡ db) ⊎ IsMove db (after c db)
  unfolding run stop_session update_session_state find require refuse_if assign commit pure ◌>>=◌
  after_cases (stop id) db = elim (Option-cases (o.sessions.get db.sessions id)) [
    | inl absent ↦ inl (ground arith)
    | inr (old, found) ↦ elim (Bool-cases (is_terminal old.state)) [
      | inl done ↦ inl (ground arith)
      | inr live ↦ elim (Option-cases (o.sessions.update (stopped old) db.sessions)) [
        | inl clash ↦ inl (ground arith)
        | inr (t, e) ↦ inr (record {
          old = old;
          new = stopped old;
          table = t;
          present = get_own o.sessions db.sessions id old found;
          same_id = refl;
          move = fail live;
          updated = e;
          result = ground arith;
        })
      ]
    ]
  ]
  after_cases (update id state) db = elim (Option-cases (o.sessions.get db.sessions id)) [
    | inl absent ↦ inl (ground arith)
    | inr (old, found) ↦ elim (Option-cases (session_state state)) [
      | inl unknown ↦ inl (ground arith)
      | inr (target, known) ↦ elim (Bool-cases (is_allowed old.state target)) [
        | inr refused ↦ inl (ground arith)
        | inl allowed ↦ elim (Option-cases (o.sessions.update (moved target old) db.sessions)) [
          | inl clash ↦ inl (ground arith)
          | inr (t, e) ↦ inr (record {
            old = old;
            new = moved target old;
            table = t;
            present = get_own o.sessions db.sessions id old found;
            same_id = refl;
            move = is_allowed_sound old.state target allowed;
            updated = e;
            result = ground arith;
          })
        ]
      ]
    ]
  ]

  Evolves-of_move :
      {db db' : Db o} (id : String) (a : Session)
      → IsMove db db'
      → o.sessions.get db.sessions id ≡ some a
      → (b : Session) × (o.sessions.get db'.sessions id ≡ some b) × Evolves a b
  Evolves-of_move {db} {db'} id a m e =
      let changed = get-update o.sessions db.sessions m.table m.new id m.updated in
      let at_result : o.sessions.get db'.sessions id ≡ o.sessions.get m.table id =
        ap (λ (d : Db o). o.sessions.get d.sessions id) m.result in
      elim (Bool-cases (m.new.id == id)) [
        | inl same ↦
            let at_id : m.new.id ≡ id = eq_of_== _ _ same in
            let found : o.sessions.get db.sessions id ≡ some m.old =
              subst (λ k. o.sessions.get db.sessions k ≡ some m.old) (sym m.same_id ∙ at_id)
                m.present in
            let owner : m.old ≡ a = cc in
            (
              m.new,
              ground arith,
              moved_by (m.same_id ∙ ap (λ (r : Session). r.id) owner)
                  (subst (λ (r : Session). Transition r.state m.new.state) owner m.move),
            )
        | inr other ↦ (a, ground arith, kept refl)
      ]

  -- One request on any session leaves each stored session stored, as it was or moved along the
  -- machine.
  pub after-Evolves :
      (c : Control) (db : Db o) (id : String) (a : Session)
      → o.sessions.get db.sessions id ≡ some a
      → (b : Session) × (o.sessions.get (after c db).sessions id ≡ some b) × Evolves a b
  after-Evolves c db id a e = elim (after_cases c db) [
    | inl same ↦ (a, ap (λ (d : Db o). o.sessions.get d.sessions id) same ∙ e, kept refl)
    | inr m ↦ Evolves-of_move id a m e
  ]

  pub after_all : List Control → Db o → Db o
  after_all [] db = db
  after_all (c ∷ cs) db = after_all cs (after c db)

  -- Over any sequence of stop and update requests, on any sessions, a stored session that is
  -- finished or failed keeps its row unchanged.
  pub terminal_forever :
      (cs : List Control) (db : Db o) (id : String) (a : Session)
      → o.sessions.get db.sessions id ≡ some a
      → is_terminal a.state ≡ true
      → o.sessions.get (after_all cs db).sessions id ≡ some a
  unfolding after_all
  terminal_forever [] db id a e h = e
  terminal_forever (c ∷ cs) db id a e h =
      terminal_forever cs (after c db) id a (still (after-Evolves c db id a e)) h
    where
      still :
          ((b : Session) × (o.sessions.get (after c db).sessions id ≡ some b) × Evolves a b)
          → o.sessions.get (after c db).sessions id ≡ some a
      still (b, e', kept same) = e' ∙ ap some same
      still (b, e', moved_by _ m) = absurd (not-Transition_terminal h m)

  -- Over any sequence of stop and update requests a stored session stays stored, and a path of
  -- moves of the state machine leads from its first state to its last.
  pub after_all-Path :
      (cs : List Control) (db : Db o) (id : String) (a : Session)
      → o.sessions.get db.sessions id ≡ some a
      → (b : Session) × (o.sessions.get (after_all cs db).sessions id ≡ some b)
        × Run a.state b.state
  unfolding after_all
  after_all-Path [] db id a e = (a, e, stay)
  after_all-Path (c ∷ cs) db id a e =
      let (b, e', moved) = after-Evolves c db id a e in
      let (z, ends, path) = after_all-Path cs (after c db) id b e' in (z, ends, Run-cons moved path)
