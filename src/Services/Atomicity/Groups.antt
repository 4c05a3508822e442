-- ===== src/Services/Atomicity/Groups.antt =====
-- The services of `Groups` (src/mob/services/groups.py) that raise, and the saved database.
use mob.Prelude.{String, Option}
use mob.Orm.{Orm}
use mob.Transaction.Atomic.{Atomic, Atomic-of_Unsaved, unsaved_rules, atomic_rules}
use mob.Services.Groups.{
  list_groups, create_group, remove_member, add_member, get_group, update_group, delete_group,
}
use mob.Services.Atomicity.Cascades.{Unsaved-delete_group_row}

module _ {o : Orm} where
  pub Atomic-list_groups : (x0 : Option String) → Atomic {o = o} (list_groups x0)
  unfolding list_groups
  Atomic-list_groups x0 = Atomic-of_Unsaved (search unsaved_rules depth 12)

  pub Atomic-create_group :
      (x0 : String) (x1 : String) (x2 : String) → Atomic {o = o} (create_group x0 x1 x2)
  unfolding create_group
  Atomic-create_group x0 x1 x2 = search atomic_rules depth 12

  pub Atomic-remove_member : (x0 : String) (x1 : String) → Atomic {o = o} (remove_member x0 x1)
  unfolding remove_member
  Atomic-remove_member x0 x1 = search atomic_rules depth 12

  pub Atomic-add_member :
      (x0 : String) (x1 : String) (x2 : String) → Atomic {o = o} (add_member x0 x1 x2)
  unfolding add_member
  Atomic-add_member x0 x1 x2 = search atomic_rules depth 12

  pub Atomic-get_group : (x0 : String) → Atomic {o = o} (get_group x0)
  unfolding get_group
  Atomic-get_group x0 = Atomic-of_Unsaved (search unsaved_rules depth 12)

  pub Atomic-update_group : (x0 : String) (x1 : Option String) → Atomic {o = o} (update_group x0 x1)
  unfolding update_group
  Atomic-update_group x0 x1 = search atomic_rules depth 12

  pub Atomic-delete_group : (x0 : String) → Atomic {o = o} (delete_group x0)
  unfolding delete_group
  Atomic-delete_group x0 = search (atomic_rules, Unsaved-delete_group_row) depth 12
