-- ===== src/Services/Cascade/Erasure.antt =====
-- What the deletion of an agent leaves in the database, through its cascades.
use mob.Services.Cascade.Purge.{Acts, fold, Acts-for_each, purge, get-purge_iff}
use mob.Prelude.{
  String, ◌==◌, ◌≡◌, ◌≢◌, refl, ap, ◌∙◌, inl, inr, false, none, some, List, [], ◌∷◌, arith,
  Option-cases, eq_iff, ne_of_==, ◌↔◌,
}
use mob.Models.{Session, AgentSkill}
use mob.Orm.{Orm, Db, link_key}
use mob.Transaction.{
  Result, ok, Txn, run, open_txn, for_each, continue, remove, select, find, require, raise, commit,
  pure, ◌>>=◌, ◌>>◌, sessions, agent_skills,
}
use mob.Services.Agents.{delete_agent}
use mob.Services.Cascade.{delete_agent_row}

not_id_iff : (a id : String) → ((a == id) ≡ false) ↔ (a ≢ id)
not_id_iff a id = (λ h. ne_of_== a id h, λ h. ground (arith, eq_iff a id))

module _ {o : Orm} where
  fold-sessions :
      (rs : List Session) (db : Db o)
      → fold (λ r d. record d { sessions = o.sessions.delete r.id d.sessions }) rs db
        ≡ record db { sessions = purge o.sessions rs db.sessions }
  unfolding fold purge
  fold-sessions [] db = refl
  fold-sessions (r ∷ rs) db =
      fold-sessions rs (record db { sessions = o.sessions.delete r.id db.sessions })

  fold-agent_skills :
      (rs : List AgentSkill) (db : Db o)
      → fold
          (λ r d. record d { agent_skills = o.agent_skills.delete (link_key r) d.agent_skills })
          rs
          db
        ≡ record db { agent_skills = purge o.agent_skills rs db.agent_skills }
  unfolding fold purge
  fold-agent_skills [] db = refl
  fold-agent_skills (r ∷ rs) db =
      fold-agent_skills rs
        (record db { agent_skills = o.agent_skills.delete (link_key r) db.agent_skills })

  -- The database without an agent, its sessions and its links to skills.
  unfoldable pub erase_agent : String → Db o → Db o
  unfolding purge
  erase_agent id db = record db {
    sessions = purge o.sessions (o.sessions.select (λ r. r.agent_id == id) db.sessions) db.sessions;
    agent_skills =
        purge o.agent_skills (o.agent_skills.select (λ r. r.agent_id == id) db.agent_skills)
          db.agent_skills;
    agents = o.agents.delete id db.agents;
  }

  for_each-sessions :
      (rs : List Session) (s : Txn o)
      → for_each rs (λ r. remove sessions r.id) s ≡ (
        ok tt,
        record s {
          current = record s.current { sessions = purge o.sessions rs s.current.sessions };
        },
      )
  unfolding remove
  for_each-sessions rs s =
      Acts-for_each (λ r. remove sessions r.id)
        (λ r d. record d { sessions = o.sessions.delete r.id d.sessions }) (λ r s. refl) rs s
      ∙ ap (λ (d : Db o). (ok tt, record s { current = d })) (fold-sessions rs s.current)

  for_each-agent_skills :
      (rs : List AgentSkill) (s : Txn o)
      → for_each rs (λ r. remove agent_skills (link_key r)) s ≡ (
        ok tt,
        record s {
          current = record s.current {
            agent_skills = purge o.agent_skills rs s.current.agent_skills;
          };
        },
      )
  unfolding remove
  for_each-agent_skills rs s =
      Acts-for_each (λ r. remove agent_skills (link_key r))
        (λ r d. record d { agent_skills = o.agent_skills.delete (link_key r) d.agent_skills })
        (λ r s. refl) rs s
      ∙ ap (λ (d : Db o). (ok tt, record s { current = d })) (fold-agent_skills rs s.current)

  pub Acts-delete_agent_row : (id : String) → Acts (delete_agent_row {o = o} id) (erase_agent id)
  unfolding delete_agent_row erase_agent select ◌>>=◌ remove
  Acts-delete_agent_row id s =
      let owned = o.sessions.select (λ r. r.agent_id == id) s.current.sessions in
      let links = o.agent_skills.select (λ r. r.agent_id == id) s.current.agent_skills in
      let s' : Txn o = record s {
        current = record s.current { sessions = purge o.sessions owned s.current.sessions };
      } in
      rw (for_each-sessions owned s, for_each-agent_skills links s') refl

  committed :
      (id : String) (db : Db o) → (run (delete_agent_row id >> commit) db).1 ≡ erase_agent id db
  unfolding run commit continue ◌>>=◌
  committed id db =
      ap (λ (x : Result (Unit {0}) × Txn o). (continue x.0 (λ _. commit) x.1).1.saved)
        (Acts-delete_agent_row id (open_txn db))

  deleted_agent :
      (db : Db o) (id : String) (u : Unit {0})
      → (run (delete_agent id) db).0 ≡ ok u
      → (run (delete_agent id) db).1 ≡ erase_agent id db
  unfolding run delete_agent find require raise commit pure ◌>>=◌
  deleted_agent db id u e = elim (Option-cases (o.agents.get db.agents id)) [
    | inl absent ↦ absurd (ground arith)
    | inr (a, found) ↦
        let same : a.id ≡ id = o.agents.get_key db.agents id a found in
        let row : run (delete_agent id) db ≡ run (delete_agent_row a.id >> commit) db =
          ground arith in
        ap (λ (x : Result (Unit {0}) × Db o). x.1) row
        ∙ committed a.id db
        ∙ ap (λ x. erase_agent x db) same
  ]

  -- A deletion of an agent that succeeds removes the agent, and of the sessions and of the links
  -- to skills exactly those of the agent.
  pub delete_agent_erases :
      (db : Db o) (id : String) (u : Unit {0}) (k : String) (r : Session) (j : String × String)
      (l : AgentSkill)
      → (run (delete_agent id) db).0 ≡ ok u
      → (o.agents.get (run (delete_agent id) db).1.agents id ≡ none)
        × ((o.sessions.get (run (delete_agent id) db).1.sessions k ≡ some r)
            ↔ ((o.sessions.get db.sessions k ≡ some r) × (r.agent_id ≢ id)))
        × ((o.agent_skills.get (run (delete_agent id) db).1.agent_skills j ≡ some l)
            ↔ ((o.agent_skills.get db.agent_skills j ≡ some l) × (l.agent_id ≢ id)))
  unfolding erase_agent
  delete_agent_erases db id u k r j l e =
      let left = get-purge_iff o.sessions (λ (s : Session). s.agent_id == id) db.sessions k r in
      let links =
        get-purge_iff o.agent_skills (λ (s : AgentSkill). s.agent_id == id) db.agent_skills j l in
      rw (deleted_agent db id u e) (
        o.agents.get-delete_self db.agents id,
        (
          λ q. let (there, other) = left.0 q in (there, (not_id_iff r.agent_id id).0 other),
          λ (there, other). left.1 (there, (not_id_iff r.agent_id id).1 other),
        ),
        (
          λ q. let (there, other) = links.0 q in (there, (not_id_iff l.agent_id id).0 other),
          λ (there, other). links.1 (there, (not_id_iff l.agent_id id).1 other),
        ),
      )
