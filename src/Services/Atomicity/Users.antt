-- ===== src/Services/Atomicity/Users.antt =====
-- The services of `Users` (src/mob/services/users.py) that raise, and the saved database.
use mob.Prelude.{String, Option}
use mob.Orm.{Orm}
use mob.Transaction.Atomic.{Atomic, Atomic-of_Unsaved, unsaved_rules, atomic_rules}
use mob.Services.Users.{list_users, create_user, get_user, update_user, delete_user}
use mob.Services.Atomicity.Cascades.{Unsaved-delete_user_row}

module _ {o : Orm} where
  pub Atomic-list_users : Atomic {o = o} list_users
  unfolding list_users
  Atomic-list_users = Atomic-of_Unsaved (search unsaved_rules depth 12)

  pub Atomic-create_user :
      (x0 : String) (x1 : String) (x2 : String) → Atomic {o = o} (create_user x0 x1 x2)
  unfolding create_user
  Atomic-create_user x0 x1 x2 = search atomic_rules depth 12

  pub Atomic-get_user : (x0 : String) → Atomic {o = o} (get_user x0)
  unfolding get_user
  Atomic-get_user x0 = Atomic-of_Unsaved (search unsaved_rules depth 12)

  pub Atomic-update_user :
      (x0 : String) (x1 : Option String) (x2 : Option String)
      → Atomic {o = o} (update_user x0 x1 x2)
  unfolding update_user
  Atomic-update_user x0 x1 x2 = search atomic_rules depth 12

  pub Atomic-delete_user : (x0 : String) → Atomic {o = o} (delete_user x0)
  unfolding delete_user
  Atomic-delete_user x0 = search (atomic_rules, Unsaved-delete_user_row) depth 12
