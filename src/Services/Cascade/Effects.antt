-- ===== src/Services/Cascade/Effects.antt =====
-- The deletions of domains, groups and organizations with their cascades, as functions of the
-- database.
use mob.Prelude.{String, ◌==◌, refl, ap, ◌∙◌, List}
use mob.Models.{Domain, Group, GroupMember, Agent}
use mob.Orm.{Orm, Db}
use mob.Transaction.{
  Result, Txn, for_each, continue, remove, select, domains, groups, group_members, organizations,
  ◌>>=◌, ◌>>◌,
}
use mob.Services.Cascade.{
  delete_agent_row, delete_domain_row, delete_group_row, delete_organization_row,
}
use mob.Services.Cascade.Purge.{Acts, fold, Acts-for_each}
use mob.Services.Cascade.Erasure.{erase_agent, Acts-delete_agent_row}

module _ {o : Orm} where
  abbrev pub erase_agents : List Agent → Db o → Db o
  erase_agents = fold (λ (a : Agent). erase_agent a.id)

  -- The database without a domain and its agents.
  unfoldable pub erase_domain : String → Db o → Db o
  erase_domain id db =
      let db' = erase_agents (o.agents.select (λ r. r.domain_id == id) db.agents) db in
      record db' { domains = o.domains.delete id db'.domains }

  Acts-delete_domain_row : (id : String) → Acts (delete_domain_row {o = o} id) (erase_domain id)
  unfolding delete_domain_row erase_domain select ◌>>=◌ continue remove
  Acts-delete_domain_row id s =
      ap (λ (x : Result (Unit {0}) × Txn o). continue x.0 (λ _. remove domains id) x.1)
        (Acts-for_each (λ (a : Agent). delete_agent_row a.id) (λ a. erase_agent a.id)
          (λ a. Acts-delete_agent_row a.id)
          (o.agents.select (λ r. r.domain_id == id) s.current.agents) s)

  abbrev pub drop_member : GroupMember → Db o → Db o
  drop_member r db = record db { group_members = o.group_members.delete r.id db.group_members }

  unfoldable pub erase_group : String → Db o → Db o
  erase_group id db =
      let db' =
        fold drop_member (o.group_members.select (λ r. r.group_id == id) db.group_members) db in
      record db' { groups = o.groups.delete id db'.groups }

  Acts-delete_group_row : (id : String) → Acts (delete_group_row {o = o} id) (erase_group id)
  unfolding delete_group_row erase_group select ◌>>=◌ continue remove
  Acts-delete_group_row id s =
      ap (λ (x : Result (Unit {0}) × Txn o). continue x.0 (λ _. remove groups id) x.1)
        (Acts-for_each (λ r. remove group_members r.id) drop_member (λ r s. refl)
          (o.group_members.select (λ r. r.group_id == id) s.current.group_members) s)

  abbrev pub erase_domains : List Domain → Db o → Db o
  erase_domains = fold (λ (d : Domain). erase_domain d.id)

  abbrev pub erase_groups : List Group → Db o → Db o
  erase_groups = fold (λ (g : Group). erase_group g.id)

  -- The database without an organization, its domains and its groups.
  unfoldable pub erase_organization : String → Db o → Db o
  erase_organization id db =
      let db' = erase_domains (o.domains.select (λ r. r.organization_id == id) db.domains) db in
      let db'' = erase_groups (o.groups.select (λ r. r.organization_id == id) db'.groups) db' in
      record db'' { organizations = o.organizations.delete id db''.organizations }

  pub Acts-delete_organization_row :
      (id : String) → Acts (delete_organization_row {o = o} id) (erase_organization id)
  unfolding delete_organization_row erase_organization select ◌>>=◌ continue remove
  Acts-delete_organization_row id s =
      let owned = o.domains.select (λ r. r.organization_id == id) s.current.domains in
      let s' : Txn o = record s { current = erase_domains owned s.current } in
      let owned_groups = o.groups.select (λ r. r.organization_id == id) s'.current.groups in
      ap
        (λ (x : Result (Unit {0}) × Txn o).
          continue x.0
            (λ _. select groups (λ r. r.organization_id == id) >>= λ gs.
              for_each gs (λ (g : Group). delete_group_row g.id) >> remove organizations id)
            x.1)
        (Acts-for_each (λ (d : Domain). delete_domain_row d.id) (λ d. erase_domain d.id)
          (λ d. Acts-delete_domain_row d.id) owned s)
      ∙ ap (λ (x : Result (Unit {0}) × Txn o). continue x.0 (λ _. remove organizations id) x.1)
          (Acts-for_each (λ (g : Group). delete_group_row g.id) (λ g. erase_group g.id)
            (λ g. Acts-delete_group_row g.id) owned_groups s')
