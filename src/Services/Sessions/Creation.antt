-- ===== src/Services/Sessions/Creation.antt =====
-- What `create_session` of src/mob/services/sessions.py saves and answers.
use mathlib.Core.Path.{subst}
use mob.Prelude.{◌<>◌, String, ◌≡◌, refl, sym, Option, none, some, List, [], ◌∷◌, arith}
use mob.Models.{Session, Agent, AgentSkill}
use mob.Orm.{Orm, Db}
use mob.Transaction.{
  err, Txn, open_txn, flush, run, ◌>>=◌, raise, require, commit, find, assign, sessions,
}
use mob.Transaction.Keeps.{Keeps, Keeps-bind, Keeps-of_Still, Still-pure, keeps_rules}
use mob.Services.Agents
use mob.Services.Json.{Json}
use mob.Services.Sessions.Create.{
  Creator, SessionData, new_session, save_session, load_skills, record_failure, publish_session,
  create_session,
}

module _ {o : Orm} (j : Json) (upper : String → String) (k8s : Creator) (bad_json : String)
    (fields : SessionData) (db : Db o) where
  pub create-no_agent :
      o.agents.get db.agents fields.agent_id ≡ none
      → run (create_session j upper k8s bad_json fields) db ≡ (err Agents.not_found, db)
  unfolding run create_session find require raise ◌>>=◌
  create-no_agent e = ground arith

-- The session's row, with or without an error message.
abbrev pub IsSaved : {o : Orm} → Session → Db o → Type 0
IsSaved {o} sess db =
    (message : Option String) × (o.sessions.get db.sessions sess.id
      ≡ some (record sess { error_message = message }))

abbrev BothSaved : {o : Orm} → Session → Txn o → Type 0
BothSaved sess s = IsSaved sess s.saved × IsSaved sess s.current

module _ {o : Orm} (sess : Session) where
  flush-BothSaved :
      (message : Option String) (t : Option o.sessions.Table) (s : Txn o)
      → o.sessions.update (record sess { error_message = message }) s.current.sessions ≡ t
      → BothSaved sess s
      → BothSaved sess (flush sessions t s).1
  unfolding flush
  flush-BothSaved message none s e h = h
  flush-BothSaved message (some t) s e h = (
    h.0,
    (
      message,
      o.sessions.get-update_self s.current.sessions t (record sess { error_message = message }) e,
    ),
  )

  assign-BothSaved :
      (message : Option String)
      → Keeps (BothSaved {o = o} sess) (assign sessions (record sess { error_message = message }))
  unfolding assign
  assign-BothSaved message = record {
    at = λ s h.
        flush-BothSaved message
          (o.sessions.update (record sess { error_message = message }) s.current.sessions) s refl h;
  }

  commit-BothSaved : Keeps (BothSaved {o = o} sess) commit
  unfolding commit
  commit-BothSaved = record { at = λ s h. (h.1, h.1) }

  record_failure-BothSaved :
      (text : Option String) → Keeps (BothSaved {o = o} sess) (record_failure sess text)
  unfolding record_failure
  record_failure-BothSaved none = search keeps_rules
  record_failure-BothSaved (some text) =
      Keeps-bind _ _ (assign-BothSaved (some ("CR creation failed: " <> text)))
        (λ _. Keeps-bind _ _ commit-BothSaved (λ _. Keeps-of_Still (Still-pure _)))

  load_skills-BothSaved :
      (links : List AgentSkill) → Keeps (BothSaved {o = o} sess) (load_skills links)
  unfolding load_skills
  load_skills-BothSaved [] = search keeps_rules
  load_skills-BothSaved (l ∷ links) = search keeps_rules

module _ {o : Orm} (j : Json) (upper : String → String) (k8s : Creator) (bad_json : String)
    (fields : SessionData) where
  publish-BothSaved :
      (agent : Agent) (sess : Session)
      → Keeps (BothSaved {o = o} sess) (publish_session j upper k8s bad_json fields agent sess)
  unfolding publish_session
  publish-BothSaved agent sess =
      search (keeps_rules, load_skills-BothSaved, record_failure-BothSaved) depth 8

  -- For a stored agent, if the row of the new session can be added, it is saved as it was made,
  -- whatever Kubernetes answers; only its error message may differ.
  pub create-saves :
      (db : Db o) (agent : Agent) (t : o.sessions.Table)
      → o.agents.get db.agents fields.agent_id ≡ some agent
      → o.sessions.add (new_session agent fields) db.sessions ≡ some t
      → IsSaved (new_session agent fields) (run (create_session j upper k8s bad_json fields) db).1
  unfolding run create_session new_session find require save_session
  create-saves db agent t e added =
      let sess = new_session agent fields in
      let db' : Db o = record db { sessions = t } in
      let stored = o.sessions.get-add_self db.sessions t sess added in
      let both : BothSaved sess (open_txn db') = ((none, stored), (none, stored)) in
      let kept = (publish-BothSaved agent sess).at (open_txn db') both in
      let same : (run (create_session j upper k8s bad_json fields) db).1
          ≡ (publish_session j upper k8s bad_json fields agent sess (open_txn db')).1.saved =
        ground arith in
      subst (IsSaved sess) (sym same) kept.0
