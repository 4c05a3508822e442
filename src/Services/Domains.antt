-- ===== src/Services/Domains.antt =====
-- src/mob/services/domains.py
use mob.Prelude.{String, ◌<>◌, ◌==◌, Bool, true, Option, none, some, List, assigned}
use mob.Models.{Domain, Group}
use mob.Orm.{Orm}
use mob.Transaction.{
  Error, service_error, Service, organizations, domains, groups, pure, require, refuse_if, commit,
  find, select, insert, assign, scalar_one_or_none, is_given, when, ◌>>=◌, ◌>>◌,
}
use mob.Services.Cascade.{delete_domain_row}
use mob.Services.Organizations

abbrev pub not_found : Error
not_found = service_error "Domain not found" 404

abbrev pub identifier_taken : String → Error
identifier_taken identifier =
    service_error ("Domain with identifier '" <> (identifier <> "' already exists")) 400

-- `if organization_id: query = query.where(column == organization_id)`
abbrev pub scoped : {R : Type 0} → Option String → (R → String) → R → Bool
scoped none column r = true
scoped (some String.[]) column r = true
scoped (some (String.◌∷◌ c s)) column r = column r == String.◌∷◌ c s

abbrev pub new_domain : (id org_identifier suffix name org_id : String) → Domain
new_domain id org_identifier suffix name org_id = record {
  id = id;
  identifier = org_identifier <> ("-" <> suffix);
  name = name;
  organization_id = org_id;
}

abbrev pub domain_group : (id suffix org_id : String) → Group
domain_group id suffix org_id = record { id = id; name = suffix; organization_id = org_id }

module _ {o : Orm} where
  unfoldable pub list_domains : Option String → Service o (List Domain)
  list_domains organization_id = select domains (scoped organization_id (λ r. r.organization_id))

  unfoldable pub create_domain :
      (domain_id group_id identifier_suffix name organization_id : String) → Service o Domain
  create_domain domain_id group_id identifier_suffix name organization_id = do
    found ← find organizations organization_id
    org ← require Organizations.not_found found
    let domain = new_domain domain_id org.identifier identifier_suffix name organization_id
    same ← select domains (λ r. r.identifier == domain.identifier)
    existing ← scalar_one_or_none same
    refuse_if (is_given existing) (identifier_taken domain.identifier)
    insert domains domain
    insert groups (domain_group group_id identifier_suffix organization_id)
    commit
    pure domain

  unfoldable pub get_domain : String → Service o Domain
  get_domain domain_id = do found ← find domains domain_id; require not_found found

  unfoldable pub update_domain : String → Option String → Service o Domain
  update_domain domain_id name = do
    found ← find domains domain_id
    domain ← require not_found found
    let domain' = record domain { name = assigned name domain.name }
    when (is_given name) (assign domains domain')
    commit
    pure domain'

  unfoldable pub delete_domain : String → Service o (Unit {0})
  delete_domain domain_id = do
    found ← find domains domain_id
    domain ← require not_found found
    delete_domain_row domain.id
    commit
