-- ===== src/Cli/Commands/Resources.antt =====
-- src/mob/cli/commands/org.py, user.py, domain.py and group.py. The flags are click's: `None` where
-- the user gave none, and a deletion is confirmed.
use mob.Prelude.{String, ◌<>◌, Option, [], ◌∷◌}
use mob.Backend.Routes.Values.{text}
use mob.Cli.Commands.{Command, Resolve, with_id, given, filter_of, request}

abbrev pub orgs : Command
orgs = request "GET" "/organizations" [] []

unfoldable pub org_create : (identifier name : String) → Command
org_create identifier name =
    request "POST" "/organizations" (("identifier", text identifier) ∷ ("name", text name) ∷ []) []

abbrev pub users : Command
users = request "GET" "/users" [] []

unfoldable pub user_create : (email name : String) → Command
user_create email name =
    request "POST" "/users" (("email", text email) ∷ ("name", text name) ∷ []) []

unfoldable pub domains : (organization_id : Option String) → Command
unfolding given
domains organization_id = request "GET" "/domains" [] (given "organization_id" organization_id [])

unfoldable pub domain_create : (identifier name organization_id : String) → Command
domain_create identifier name organization_id =
    request "POST" "/domains"
      (("identifier_suffix", text identifier)
        ∷ ("name", text name)
        ∷ ("organization_id", text organization_id)
        ∷ [])
      []

unfoldable pub groups : (organization_id : Option String) → Command
unfolding given
groups organization_id = request "GET" "/groups" [] (given "organization_id" organization_id [])

unfoldable pub group_create : (name organization_id : String) → Command
group_create name organization_id =
    request "POST" "/groups" (("name", text name) ∷ ("organization_id", text organization_id) ∷ [])
      []

module _ (resolve_ref : Resolve) (ref : String) where
  unfoldable pub org_edit : (name : Option String) → Command
  unfolding with_id given
  org_edit name =
      with_id (resolve_ref "organization" ref [])
        (λ org_id. request "PUT" ("/organizations/" <> org_id) (given "name" name []) [])

  unfoldable pub org_delete : Command
  unfolding with_id
  org_delete =
      with_id (resolve_ref "organization" ref [])
        (λ org_id. request "DELETE" ("/organizations/" <> org_id) [] [])

  unfoldable pub org_show : Command
  unfolding with_id
  org_show =
      with_id (resolve_ref "organization" ref [])
        (λ org_id. request "GET" ("/organizations/" <> org_id) [] [])

  unfoldable pub user_edit : (name email : Option String) → Command
  unfolding with_id given
  user_edit name email = with_id (resolve_ref "user" ref []) (λ user_id.
      request "PUT" ("/users/" <> user_id) (given "email" email (given "name" name [])) [])

  unfoldable pub user_delete : Command
  unfolding with_id
  user_delete =
      with_id (resolve_ref "user" ref []) (λ user_id. request "DELETE" ("/users/" <> user_id) [] [])

  unfoldable pub user_show : Command
  unfolding with_id
  user_show =
      with_id (resolve_ref "user" ref []) (λ user_id. request "GET" ("/users/" <> user_id) [] [])

  unfoldable pub user_grant : (group_id : String) → Command
  unfolding with_id
  user_grant group_id = with_id (resolve_ref "user" ref []) (λ user_id.
      request "POST" ("/groups/" <> group_id <> "/members") (("user_id", text user_id) ∷ []) [])

  unfoldable pub user_revoke : (group_id : String) → Command
  unfolding with_id
  user_revoke group_id =
      with_id (resolve_ref "user" ref [])
        (λ user_id. request "DELETE" ("/groups/" <> group_id <> "/members/" <> user_id) [] [])

  module _ (organization_id : Option String) where
    unfoldable pub domain_edit : (name : Option String) → Command
    unfolding with_id given filter_of
    domain_edit name =
        with_id (resolve_ref "domain" ref (filter_of "organization_id" organization_id))
          (λ domain_id. request "PUT" ("/domains/" <> domain_id) (given "name" name []) [])

    unfoldable pub domain_delete : Command
    unfolding with_id filter_of
    domain_delete =
        with_id (resolve_ref "domain" ref (filter_of "organization_id" organization_id))
          (λ domain_id. request "DELETE" ("/domains/" <> domain_id) [] [])

    unfoldable pub domain_show : Command
    unfolding with_id filter_of
    domain_show =
        with_id (resolve_ref "domain" ref (filter_of "organization_id" organization_id))
          (λ domain_id. request "GET" ("/domains/" <> domain_id) [] [])

    unfoldable pub group_edit : (name : Option String) → Command
    unfolding with_id given filter_of
    group_edit name =
        with_id (resolve_ref "group" ref (filter_of "organization_id" organization_id))
          (λ group_id. request "PUT" ("/groups/" <> group_id) (given "name" name []) [])

    unfoldable pub group_delete : Command
    unfolding with_id filter_of
    group_delete =
        with_id (resolve_ref "group" ref (filter_of "organization_id" organization_id))
          (λ group_id. request "DELETE" ("/groups/" <> group_id) [] [])

    unfoldable pub group_show : Command
    unfolding with_id filter_of
    group_show =
        with_id (resolve_ref "group" ref (filter_of "organization_id" organization_id))
          (λ group_id. request "GET" ("/groups/" <> group_id) [] [])
