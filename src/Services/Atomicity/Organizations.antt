-- ===== src/Services/Atomicity/Organizations.antt =====
-- The services of `Organizations` (src/mob/services/organizations.py) that raise, and the saved database.
use mob.Prelude.{String, Option}
use mob.Orm.{Orm}
use mob.Transaction.Atomic.{Atomic, Atomic-of_Unsaved, unsaved_rules, atomic_rules}
use mob.Services.Organizations.{
  list_organizations, create_organization, get_organization, update_organization,
  delete_organization,
}
use mob.Services.Atomicity.Cascades.{Unsaved-delete_organization_row}

module _ {o : Orm} where
  pub Atomic-list_organizations : Atomic {o = o} list_organizations
  unfolding list_organizations
  Atomic-list_organizations = Atomic-of_Unsaved (search unsaved_rules depth 12)

  pub Atomic-create_organization :
      (x0 : String) (x1 : String) (x2 : String) (x3 : String) (x4 : String)
      → Atomic {o = o} (create_organization x0 x1 x2 x3 x4)
  unfolding create_organization
  Atomic-create_organization x0 x1 x2 x3 x4 = search atomic_rules depth 12

  pub Atomic-get_organization : (x0 : String) → Atomic {o = o} (get_organization x0)
  unfolding get_organization
  Atomic-get_organization x0 = Atomic-of_Unsaved (search unsaved_rules depth 12)

  pub Atomic-update_organization :
      (x0 : String) (x1 : Option String) → Atomic {o = o} (update_organization x0 x1)
  unfolding update_organization
  Atomic-update_organization x0 x1 = search atomic_rules depth 12

  pub Atomic-delete_organization : (x0 : String) → Atomic {o = o} (delete_organization x0)
  unfolding delete_organization
  Atomic-delete_organization x0 = search (atomic_rules, Unsaved-delete_organization_row) depth 12
