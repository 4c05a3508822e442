-- ===== src/Services/Organizations.antt =====
-- src/mob/services/organizations.py. The ids that `generate_uuid` draws are arguments.
pub mod Founding
use mob.Prelude.{String, ◌<>◌, ◌==◌, true, Option, List, assigned}
use mob.Models.{Organization, Domain, Group}
use mob.Orm.{Orm}
use mob.Transaction.{
  Error, service_error, Service, organizations, domains, groups, pure, require, refuse_if, commit,
  find, select, insert, assign, scalar_one_or_none, is_given, when, ◌>>=◌, ◌>>◌,
}
use mob.Services.Cascade.{delete_organization_row}

abbrev pub not_found : Error
not_found = service_error "Organization not found" 404

abbrev pub identifier_taken : String → Error
identifier_taken identifier =
    service_error ("Organization with identifier '" <> (identifier <> "' already exists")) 400

abbrev pub new_organization : (id identifier name : String) → Organization
new_organization id identifier name = record { id = id; identifier = identifier; name = name }

abbrev pub default_domain : (id org_id identifier : String) → Domain
default_domain id org_id identifier = record {
  id = id;
  identifier = identifier <> "-default";
  name = "Default";
  organization_id = org_id;
}

abbrev pub default_group : (id org_id : String) → Group
default_group id org_id = record { id = id; name = "default"; organization_id = org_id }

module _ {o : Orm} where
  unfoldable pub list_organizations : Service o (List Organization)
  list_organizations = select organizations (λ r. true)

  unfoldable pub create_organization :
      (org_id domain_id group_id identifier name : String) → Service o Organization
  create_organization org_id domain_id group_id identifier name = do
    found ← select organizations (λ r. r.identifier == identifier)
    existing ← scalar_one_or_none found
    refuse_if (is_given existing) (identifier_taken identifier)
    insert organizations (new_organization org_id identifier name)
    insert domains (default_domain domain_id org_id identifier)
    insert groups (default_group group_id org_id)
    commit
    pure (new_organization org_id identifier name)

  unfoldable pub get_organization : String → Service o Organization
  get_organization org_id = do org ← find organizations org_id; require not_found org

  unfoldable pub update_organization : String → Option String → Service o Organization
  update_organization org_id name = do
    found ← find organizations org_id
    org ← require not_found found
    let org' = record org { name = assigned name org.name }
    when (is_given name) (assign organizations org')
    commit
    pure org'

  unfoldable pub delete_organization : String → Service o (Unit {0})
  delete_organization org_id = do
    found ← find organizations org_id
    org ← require not_found found
    delete_organization_row org.id
    commit
