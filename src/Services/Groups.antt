-- ===== src/Services/Groups.antt =====
-- src/mob/services/groups.py
use mob.Prelude.{String, ◌==◌, ◌&&◌, Option, List, assigned}
use mob.Models.{Group, GroupMember}
use mob.Orm.{Orm}
use mob.Transaction.{
  Error, service_error, Service, users, groups, group_members, pure, require, refuse_if, commit,
  find, select, insert, assign, remove, scalar_one_or_none, is_given, when, ◌>>=◌, ◌>>◌,
}
use mob.Services.Cascade.{delete_group_row}
use mob.Services.Domains.{scoped}
use mob.Services.Users

abbrev pub not_found : Error
not_found = service_error "Group not found" 404

abbrev pub already_member : Error
already_member = service_error "User is already a member of this group" 400

abbrev pub membership_not_found : Error
membership_not_found = service_error "Membership not found" 404

abbrev pub new_group : (id name organization_id : String) → Group
new_group id name organization_id = record {
  id = id;
  name = name;
  organization_id = organization_id;
}

abbrev pub new_member : (id group_id user_id : String) → GroupMember
new_member id group_id user_id = record { id = id; group_id = group_id; user_id = user_id }

module _ {o : Orm} where
  unfoldable pub list_groups : Option String → Service o (List Group)
  list_groups organization_id = select groups (scoped organization_id (λ r. r.organization_id))

  unfoldable pub create_group : (id name organization_id : String) → Service o Group
  create_group id name organization_id = do
    insert groups (new_group id name organization_id)
    commit
    pure (new_group id name organization_id)

  unfoldable pub get_group : String → Service o Group
  get_group group_id = do found ← find groups group_id; require not_found found

  unfoldable pub update_group : String → Option String → Service o Group
  update_group group_id name = do
    found ← find groups group_id
    group ← require not_found found
    let group' = record group { name = assigned name group.name }
    when (is_given name) (assign groups group')
    commit
    pure group'

  unfoldable pub delete_group : String → Service o (Unit {0})
  delete_group group_id = do
    found ← find groups group_id
    group ← require not_found found
    delete_group_row group.id
    commit

  -- Answers `{"status": "added"}`.
  unfoldable pub add_member : (member_id group_id user_id : String) → Service o (Unit {0})
  add_member member_id group_id user_id = do
    found ← find groups group_id
    group ← require not_found found
    found_user ← find users user_id
    user ← require Users.not_found found_user
    same ← select group_members (λ r. r.group_id == group_id && r.user_id == user_id)
    existing ← scalar_one_or_none same
    refuse_if (is_given existing) already_member
    insert group_members (new_member member_id group_id user_id)
    commit

  unfoldable pub remove_member : (group_id user_id : String) → Service o (Unit {0})
  remove_member group_id user_id = do
    same ← select group_members (λ r. r.group_id == group_id && r.user_id == user_id)
    existing ← scalar_one_or_none same
    member ← require membership_not_found existing
    remove group_members member.id
    commit
