-- ===== src/Services/Atomicity/Domains.antt =====
-- The services of `Domains` (src/mob/services/domains.py) that raise, and the saved database.
use mob.Prelude.{String, Option}
use mob.Orm.{Orm}
use mob.Transaction.Atomic.{Atomic, Atomic-of_Unsaved, unsaved_rules, atomic_rules}
use mob.Services.Domains.{list_domains, create_domain, get_domain, update_domain, delete_domain}
use mob.Services.Atomicity.Cascades.{Unsaved-delete_domain_row}

module _ {o : Orm} where
  pub Atomic-list_domains : (x0 : Option String) → Atomic {o = o} (list_domains x0)
  unfolding list_domains
  Atomic-list_domains x0 = Atomic-of_Unsaved (search unsaved_rules depth 12)

  pub Atomic-create_domain :
      (x0 : String) (x1 : String) (x2 : String) (x3 : String) (x4 : String)
      → Atomic {o = o} (create_domain x0 x1 x2 x3 x4)
  unfolding create_domain
  Atomic-create_domain x0 x1 x2 x3 x4 = search atomic_rules depth 12

  pub Atomic-get_domain : (x0 : String) → Atomic {o = o} (get_domain x0)
  unfolding get_domain
  Atomic-get_domain x0 = Atomic-of_Unsaved (search unsaved_rules depth 12)

  pub Atomic-update_domain :
      (x0 : String) (x1 : Option String) → Atomic {o = o} (update_domain x0 x1)
  unfolding update_domain
  Atomic-update_domain x0 x1 = search atomic_rules depth 12

  pub Atomic-delete_domain : (x0 : String) → Atomic {o = o} (delete_domain x0)
  unfolding delete_domain
  Atomic-delete_domain x0 = search (atomic_rules, Unsaved-delete_domain_row) depth 12
