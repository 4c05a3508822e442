-- ===== src/Services/Cascade/Orphans.antt =====
-- What the deletion of an organization leaves in the database, through its cascades.
use mathlib.Core.Path.{subst}
use mob.Prelude.{
  String, ◌==◌, ◌≡◌, ◌≢◌, ◌⊎◌, refl, sym, ap, ◌∙◌, inl, inr, some, List, [], ◌∷◌, In, arith,
  Bool-cases, Option-cases, eq_iff, eq_of_==, ne_of_==,
}
use mob.Models.{Domain, Group, Agent, Session}
use mob.Orm.{Orm, Db}
use mob.Transaction.{
  Result, ok, Txn, run, open_txn, continue, find, require, raise, commit, pure, ◌>>=◌, ◌>>◌,
}
use mob.Services.Organizations.{delete_organization}
use mob.Services.Cascade.{delete_organization_row}
use mob.Services.Cascade.Purge.{fold, get-purge_select, get-delete_some}
use mob.Services.Cascade.Erasure.{erase_agent}
use mob.Services.Cascade.Effects.{
  erase_agents, erase_domain, drop_member, erase_group, erase_domains, erase_organization,
  Acts-delete_organization_row,
}

module _ {o : Orm} where
  fold-keeps :
      {A : Type 0} (f : A → Db o → Db o) (P : Db o → Type 0)
      → ((x : A) (db : Db o) → P db → P (f x db))
      → (xs : List A) (db : Db o) → P db
      → P (fold f xs db)
  unfolding fold
  fold-keeps f P step [] db h = h
  fold-keeps f P step (x ∷ xs) db h = fold-keeps f P step xs (f x db) (step x db h)

  -- A step of the fold that makes `P` out of an invariant `J`.
  fold-makes :
      {A : Type 0} (f : A → Db o → Db o) (J P : Db o → Type 0) (x : A)
      → ((y : A) (db : Db o) → J db → J (f y db))
      → ((y : A) (db : Db o) → P db → P (f y db))
      → ((db : Db o) → J db → P (f x db))
      → (xs : List A) (db : Db o) → In x xs
      → J db
      → P (fold f xs db)
  unfolding fold
  fold-makes f J P x step keep make (y ∷ xs) db (inl same) h =
      fold-keeps f P keep xs (f y db) (subst (λ z. P (f z db)) same (make db h))
  fold-makes f J P x step keep make (y ∷ xs) db (inr m) h =
      fold-makes f J P x step keep make xs (f y db) m (step y db h)
  fold-makes f J P x step keep make [] db m h = absurd m

module _ {o : Orm} (d : Domain) (a : Agent) (s : Session) (k : String) where
  abbrev HasAgent : Db o → Type 0
  HasAgent db = o.agents.get db.agents a.id ≡ some a

  abbrev NoRun : Db o → Type 0
  NoRun db = (o.agents.get db.agents a.id ≢ some a) × (o.sessions.get db.sessions k ≢ some s)

  abbrev Tracked : Db o → Type 0
  Tracked db = HasAgent db ⊎ NoRun db

  -- None of the three rows is stored.
  abbrev pub Gone : Db o → Type 0
  Gone db = (o.domains.get db.domains d.id ≢ some d) × NoRun db

  erase_agent-NoRun : (b : Agent) (db : Db o) → NoRun db → NoRun (erase_agent b.id db)
  unfolding erase_agent
  erase_agent-NoRun b db (no_agent, no_session) = (
    λ e. no_agent (get-delete_some o.agents db.agents b.id a.id a e).1,
    λ e.
        no_session
          (get-purge_select o.sessions (λ (r : Session). r.agent_id == b.id) db.sessions k s e).1,
  )

  erase_agent-Gone : (b : Agent) (db : Db o) → Gone db → Gone (erase_agent b.id db)
  unfolding erase_agent
  erase_agent-Gone b db (no_domain, h) = (no_domain, erase_agent-NoRun b db h)

  module _ (owner : s.agent_id ≡ a.id) where
    erase_agent_self : (id : String) → id ≡ a.id → (db : Db o) → NoRun (erase_agent id db)
    unfolding erase_agent
    erase_agent_self id same db = (
      λ e. (get-delete_some o.agents db.agents id a.id a e).0 same,
      λ e.
          let kept =
            get-purge_select o.sessions (λ (r : Session). r.agent_id == id) db.sessions k s e in
          ne_of_== s.agent_id id kept.0 (owner ∙ sym same),
    )

    erase_agent-Tracked : (b : Agent) (db : Db o) → Tracked db → Tracked (erase_agent b.id db)
    unfolding erase_agent
    erase_agent-Tracked b db (inr h) = inr (erase_agent-NoRun b db h)
    erase_agent-Tracked b db (inl h) = elim (Bool-cases (b.id == a.id)) [
      | inl same ↦ inr (erase_agent_self b.id (eq_of_== _ _ same) db)
      | inr other ↦ inl (o.agents.get-delete_ne db.agents b.id a.id (λ q. ne_of_== _ _ other q) ∙ h)
    ]

    erase_domain-Tracked : (c : Domain) (db : Db o) → Tracked db → Tracked (erase_domain c.id db)
    unfolding erase_domain
    erase_domain-Tracked c db h =
        fold-keeps (λ (b : Agent). erase_agent b.id) Tracked erase_agent-Tracked
          (o.agents.select (λ r. r.domain_id == c.id) db.agents) db h

  erase_domain-Gone : (c : Domain) (db : Db o) → Gone db → Gone (erase_domain c.id db)
  unfolding erase_domain
  erase_domain-Gone c db h =
      let left = o.agents.select (λ r. r.domain_id == c.id) db.agents in
      let (no_domain, rest) =
        fold-keeps (λ (b : Agent). erase_agent b.id) Gone erase_agent-Gone left db h in
      (
        λ e. no_domain (get-delete_some o.domains (erase_agents left db).domains c.id d.id d e).1,
        rest,
      )

  erase_group-Gone : (g : Group) (db : Db o) → Gone db → Gone (erase_group g.id db)
  unfolding erase_group
  erase_group-Gone g db h =
      fold-keeps drop_member Gone (λ r e q. q)
        (o.group_members.select (λ r. r.group_id == g.id) db.group_members) db h

  module _ (owner : s.agent_id ≡ a.id) (home : a.domain_id ≡ d.id) where
    erase_agents-NoRun :
        (db : Db o)
        → Tracked db
        → NoRun (erase_agents (o.agents.select (λ r. r.domain_id == d.id) db.agents) db)
    erase_agents-NoRun db (inr h) =
        fold-keeps (λ (b : Agent). erase_agent b.id) NoRun erase_agent-NoRun
          (o.agents.select (λ r. r.domain_id == d.id) db.agents) db h
    erase_agents-NoRun db (inl h) =
        fold-makes (λ (b : Agent). erase_agent b.id) Tracked NoRun a (erase_agent-Tracked owner)
          erase_agent-NoRun (λ e q. erase_agent_self owner a.id refl e)
          (o.agents.select (λ r. r.domain_id == d.id) db.agents) db
          (o.agents.select_complete db.agents (λ (r : Agent). r.domain_id == d.id) a h
            (ground (arith, eq_iff a.domain_id d.id)))
          (inl h)

    erase_domain_self : (db : Db o) → Tracked db → Gone (erase_domain d.id db)
    unfolding erase_domain
    erase_domain_self db h =
        let left = o.agents.select (λ r. r.domain_id == d.id) db.agents in
        (
          λ e. (get-delete_some o.domains (erase_agents left db).domains d.id d.id d e).0 refl,
          erase_agents-NoRun db h,
        )

    erase_organization-Gone :
        (id : String) (db : Db o)
        → d.organization_id ≡ id
        → o.domains.get db.domains d.id ≡ some d
        → o.agents.get db.agents a.id ≡ some a
        → Gone (erase_organization id db)
    unfolding erase_organization
    erase_organization-Gone id db of_org has_domain has_agent =
        let owned = o.domains.select (λ r. r.organization_id == id) db.domains in
        let db' = erase_domains owned db in
        fold-keeps (λ (g : Group). erase_group g.id) Gone erase_group-Gone
          (o.groups.select (λ r. r.organization_id == id) db'.groups) db'
          (fold-makes (λ (c : Domain). erase_domain c.id) Tracked Gone d
            (erase_domain-Tracked owner) erase_domain-Gone erase_domain_self owned db
            (o.domains.select_complete db.domains (λ (r : Domain). r.organization_id == id) d
              has_domain (ground (arith, eq_iff d.organization_id id)))
            (inl has_agent))

module _ {o : Orm} where
  committed :
      (id : String) (db : Db o)
      → (run (delete_organization_row id >> commit) db).1 ≡ erase_organization id db
  unfolding run commit continue ◌>>=◌
  committed id db =
      ap (λ (x : Result (Unit {0}) × Txn o). (continue x.0 (λ _. commit) x.1).1.saved)
        (Acts-delete_organization_row id (open_txn db))

  deleted_organization :
      (db : Db o) (id : String) (u : Unit {0})
      → (run (delete_organization id) db).0 ≡ ok u
      → (run (delete_organization id) db).1 ≡ erase_organization id db
  unfolding run delete_organization find require raise commit pure ◌>>=◌
  deleted_organization db id u e = elim (Option-cases (o.organizations.get db.organizations id)) [
    | inl absent ↦ absurd (ground arith)
    | inr (org, found) ↦
        let same : org.id ≡ id = o.organizations.get_key db.organizations id org found in
        let row : run (delete_organization id) db
            ≡ run (delete_organization_row org.id >> commit) db =
          ground arith in
        ap (λ (x : Result (Unit {0}) × Db o). x.1) row
        ∙ committed org.id db
        ∙ ap (λ x. erase_organization x db) same
  ]

  -- A deletion of an organization that succeeds reaches down: of a stored domain of the
  -- organization, a stored agent of the domain and a row of a session of the agent none is stored
  -- after it.
  pub delete_organization_erases :
      (db : Db o) (id : String) (u : Unit {0}) (d : Domain) (a : Agent) (s : Session) (k : String)
      → d.organization_id ≡ id
      → o.domains.get db.domains d.id ≡ some d
      → a.domain_id ≡ d.id
      → o.agents.get db.agents a.id ≡ some a
      → s.agent_id ≡ a.id
      → (run (delete_organization id) db).0 ≡ ok u
      → Gone d a s k (run (delete_organization id) db).1
  delete_organization_erases db id u d a s k of_org has_domain home has_agent owner e =
      subst (Gone d a s k) (sym (deleted_organization db id u e))
        (erase_organization-Gone d a s k owner home id db of_org has_domain has_agent)
