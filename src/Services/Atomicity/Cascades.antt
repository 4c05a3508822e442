-- ===== src/Services/Atomicity/Cascades.antt =====
-- The cascades of src/mob/models and the saved database.
use mob.Prelude.{String}
use mob.Orm.{Orm}
use mob.Transaction.Atomic.{Unsaved, unsaved_rules}
use mob.Services.Cascade.{
  delete_agent_row, delete_domain_row, delete_group_row, delete_user_row, delete_organization_row,
}

module _ {o : Orm} where
  pub Unsaved-delete_agent_row : (id : String) → Unsaved {o = o} (delete_agent_row id)
  unfolding delete_agent_row
  Unsaved-delete_agent_row id = search unsaved_rules depth 12

  pub Unsaved-delete_domain_row : (id : String) → Unsaved {o = o} (delete_domain_row id)
  unfolding delete_domain_row
  Unsaved-delete_domain_row id = search (unsaved_rules, Unsaved-delete_agent_row) depth 12

  pub Unsaved-delete_group_row : (id : String) → Unsaved {o = o} (delete_group_row id)
  unfolding delete_group_row
  Unsaved-delete_group_row id = search unsaved_rules depth 12

  pub Unsaved-delete_user_row : (id : String) → Unsaved {o = o} (delete_user_row id)
  unfolding delete_user_row
  Unsaved-delete_user_row id = search unsaved_rules depth 12

  pub Unsaved-delete_organization_row : (id : String) → Unsaved {o = o} (delete_organization_row id)
  unfolding delete_organization_row
  Unsaved-delete_organization_row id =
      search (unsaved_rules, Unsaved-delete_domain_row, Unsaved-delete_group_row) depth 12
