-- ===== src/Cli/Client.antt =====
-- src/mob/cli/client.py, the requests of the command line, and `local_request` of
-- src/mob/cli/local_backend.py. Both modes end with a value, with an error and exit status 1, or with
-- an exception that nothing catches; what becomes of a local request with a value of another type than the service
-- declares is not followed. The URL of a remote request is made and read by the HTTP client
-- and the server, which are a parameter; the answers they hand on as they are.
pub mod Modes
use mob.Prelude.{ℕ, String, leb, nat_eq, Option, none, some, Bool, true, false, if◌then◌else◌}
use mob.Orm.{Orm, Db}
use mob.Transaction.{service_error, Result, ok, err, run}
use mob.Backend.{Response, nothing, World, perform}
use mob.Backend.Routes.{route}
use mob.Backend.Routes.Values.{Data, Route, unmatched, raised, untyped, call}
use mob.Api.Serving.{Body, model, detail, plain, HttpResponse, serve}

pub data Outcome : Type 0 where
  value : Response → Outcome
  failed : (status_code : ℕ) (message : String) → Outcome
  crashed : Outcome
  unfollowed : Outcome

-- `resp.json().get("detail", resp.text)`; a body without a detail is shown as its text.
unfoldable pub error_text : Body → String
error_text (detail message) = message
error_text (plain message) = message
error_text (model v) = ""

-- `resp.json()`
unfoldable pub json_body : Body → Outcome
json_body (model v) = value v
json_body _ = crashed

-- `_handle_response`; `nothing` is `None`.
unfoldable pub handle_response : HttpResponse → Outcome
unfolding error_text json_body
handle_response resp =
    if nat_eq resp.status_code 204
    then value nothing
    else if leb 400 resp.status_code
    then failed resp.status_code (error_text resp.body)
    else json_body resp.body

unfoldable pub outcome : Result Response → Outcome
outcome (ok v) = value v
outcome (err (service_error message status_code)) = failed status_code message
outcome (err _) = crashed

-- `_execute` and `_route`
unfoldable pub execute : {o : Orm} → World → Route → Db o → Outcome × Db o
unfolding outcome
execute w unmatched db = (crashed, db)
execute w raised db = (crashed, db)
execute w untyped db = (unfollowed, db)
execute w (call r) db = let (result, db') = run (perform w r) db in (outcome result, db')

-- What the server reads of the path, the parameters and the tail of a request after the client has
-- made a URL of them: nothing, if the client refuses the URL; a path with `?` or `#` ends there.
abbrev pub Url : Type 0
Url = (path : String) → Data → (tail : ℕ) → Option (String × Data × ℕ)

unfoldable pub serve_url :
    {o : Orm}
    → World
    → (method : String) → Data
    → Option (String × Data × ℕ)
    → Db o
    → Outcome × Db o
unfolding handle_response serve
serve_url w method data_ none db = (crashed, db)
serve_url w method data_ (some (path, params, tail)) db =
    let (resp, db') = serve w method path data_ params tail db in (handle_response resp, db')

module _ {o : Orm} (w : World) (method path : String) (data_ params : Data) (tail : ℕ) where
  unfoldable pub local_request : Db o → Outcome × Db o
  unfolding execute route
  local_request db = execute w (route method data_ params tail path) db

  unfoldable pub remote_request : Url → Db o → Outcome × Db o
  unfolding serve_url
  remote_request url db = serve_url w method data_ (url path params tail) db

  -- `api_get`, `api_post`, `api_put` and `api_delete`, one for each method
  unfoldable pub api_request : Url → (is_local_mode : Bool) → Db o → Outcome × Db o
  unfolding local_request remote_request
  api_request url is_local_mode db =
      if is_local_mode then local_request db else remote_request url db
