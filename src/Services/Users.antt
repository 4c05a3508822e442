-- ===== src/Services/Users.antt =====
-- src/mob/services/users.py
use mob.Prelude.{String, ◌<>◌, ◌==◌, true, ◌||◌, Option, none, List, assigned}
use mob.Models.{User}
use mob.Orm.{Orm}
use mob.Transaction.{
  Error, service_error, Service, users, pure, require, refuse_if, commit, find, select, insert,
  assign, scalar_one_or_none, is_given, when, ◌>>=◌, ◌>>◌,
}
use mob.Services.Cascade.{delete_user_row}

abbrev pub not_found : Error
not_found = service_error "User not found" 404

abbrev pub email_taken : String → Error
email_taken email = service_error ("User with email '" <> (email <> "' already exists")) 400

abbrev pub new_user : (id email name : String) → User
new_user id email name = record { id = id; email = email; name = name; keycloak_id = none }

module _ {o : Orm} where
  unfoldable pub list_users : Service o (List User)
  list_users = select users (λ r. true)

  unfoldable pub create_user : (id email name : String) → Service o User
  create_user id email name = do
    found ← select users (λ r. r.email == email)
    existing ← scalar_one_or_none found
    refuse_if (is_given existing) (email_taken email)
    insert users (new_user id email name)
    commit
    pure (new_user id email name)

  unfoldable pub get_user : String → Service o User
  get_user user_id = do found ← find users user_id; require not_found found

  unfoldable pub update_user : String → (name email : Option String) → Service o User
  update_user user_id name email = do
    found ← find users user_id
    user ← require not_found found
    let user' = record user { email = assigned email user.email; name = assigned name user.name }
    when (is_given name || is_given email) (assign users user')
    commit
    pure user'

  unfoldable pub delete_user : String → Service o (Unit {0})
  delete_user user_id = do
    found ← find users user_id
    user ← require not_found found
    delete_user_row user.id
    commit
