-- ===== src/Api/Serving.antt =====
-- The answers of src/mob/api/routes: the status of a success, the statuses of errors, and the database
-- that a request leaves. What FastAPI answers without a handler (404, 405, 422) and to an exception
-- that no handler catches (500) is its documented behaviour.
use mob.Prelude.{ℕ, String}
use mob.Orm.{Orm, Db}
use mob.Transaction.{service_error, Result, ok, err, run}
use mob.Backend.{Request, Response, World, perform}
use mob.Backend.Routes.Values.{Data}
use mob.Api.Schemas.{Endpoint, not_found, method_not_allowed, invalid, call}
use mob.Api.Routes.{endpoint}

-- The body of an HTTP response: what a service answers, the `detail` of an error, or another text.
pub data Body : Type 0 where
  model : Response → Body
  detail : String → Body
  plain : String → Body

pub record HttpResponse : Type 0 where
  pub status_code : ℕ
  pub body : Body

-- `status_code=...` of the decorators
unfoldable pub success_status : Request → ℕ
success_status (Request.create_organization _ _) = 201
success_status (Request.create_domain _ _ _) = 201
success_status (Request.create_user _ _) = 201
success_status (Request.create_group _ _) = 201
success_status (Request.add_member _ _) = 201
success_status (Request.create_agent _ _ _ _) = 201
success_status (Request.create_session _ _ _ _) = 201
success_status (Request.create_task _ _ _) = 201
success_status (Request.create_skill _ _ _) = 201
success_status (Request.delete_organization _) = 204
success_status (Request.delete_domain _) = 204
success_status (Request.delete_user _) = 204
success_status (Request.delete_group _) = 204
success_status (Request.remove_member _ _) = 204
success_status (Request.delete_agent _) = 204
success_status (Request.delete_skill _) = 204
success_status _ = 200

-- `except ServiceError as e: raise HTTPException(e.status_code, e.message)`
unfoldable pub respond : (success : ℕ) → Result Response → HttpResponse
respond success (ok v) = record { status_code = success; body = model v }
respond success (err (service_error message status)) = record {
  status_code = status;
  body = detail message;
}
respond success (err _) = record { status_code = 500; body = plain "Internal Server Error" }

unfoldable pub serve_endpoint : {o : Orm} → World → Endpoint → Db o → HttpResponse × Db o
unfolding respond success_status
serve_endpoint w not_found db = (record { status_code = 404; body = detail "Not Found" }, db)
serve_endpoint w method_not_allowed db =
    (record { status_code = 405; body = detail "Method Not Allowed" }, db)
serve_endpoint w invalid db = (record { status_code = 422; body = plain "" }, db)
serve_endpoint w (call r) db =
    let (result, db') = run (perform w r) db in (respond (success_status r) result, db')

unfoldable pub serve :
    {o : Orm}
    → World
    → (method path : String) (body query : Data) (tail : ℕ) → Db o
    → HttpResponse × Db o
unfolding serve_endpoint endpoint
serve w method path body query tail db = serve_endpoint w (endpoint method body query tail path) db
