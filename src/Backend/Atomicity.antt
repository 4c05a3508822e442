-- ===== src/Backend/Atomicity.antt =====
-- Local requests (src/mob/cli/local_backend.py) that raise, and the saved database.
use mob.Prelude.{String, ◌≡◌, refl, ◌⊎◌, inl, inr, Bool, true, false, if◌then◌else◌}
use mob.Orm.{Orm, Db}
use mob.Transaction.{
  Error, uncaught, Result, ok, err, run, open_txn, Txn, Service, continue, ◌>>=◌, pure, raise,
}
use mob.Transaction.Atomic.{Unsaved, Atomic, Atomic-of_Unsaved, unsaved_rules}
use mob.Services.Atomicity.Organizations
use mob.Services.Atomicity.Domains
use mob.Services.Atomicity.Users
use mob.Services.Atomicity.Groups
use mob.Services.Atomicity.Agents
use mob.Services.Atomicity.Skills
use mob.Services.Atomicity.Tasks
use mob.Services.Atomicity.Sessions
use mob.Backend.{World, Request, Response, convert, answering, send, perform}

-- Every request but the creation of a session, which saves the row before it meets Kubernetes.
abbrev pub IsOneStep : Request → Type 0
IsOneStep (Request.create_session _ _ _ _) = ⊥
IsOneStep _ = Unit

-- A unit of work that raises leaves the saved database as it was, or it raises because the schemas
-- refuse its answer.
abbrev pub Unchanged : {o : Orm} → World → Error → (before after : Db o) → Type 0
Unchanged w e before after =
    (after ≡ before) ⊎ (e ≡ uncaught) × ((v : Response) × (w.converts v ≡ false))

module _ (w : World) {o : Orm} where
  record IsAtomic (m : Service o Response) : Type 0 where
    pub at : (s : Txn o) (e : Error) → (m s).0 ≡ err e → Unchanged w e s.saved (m s).1.saved

  IsAtomic-of_Unsaved : {m : Service o Response} → Unsaved m → IsAtomic m
  IsAtomic-of_Unsaved u = record { at = λ s e h. inl (u.at s) }

  refuse-err :
      (b : Bool) (r : Response) (s : Txn o) (e : Error)
      → ((if b then pure r else raise uncaught) s).0 ≡ err e
      → (e ≡ uncaught) × (b ≡ false)
  unfolding pure raise
  refuse-err true r s e h = cc
  refuse-err false r s e h = (cc, refl)

  convert-err :
      (r : Response) (s : Txn o) (e : Error)
      → (convert w r s).0 ≡ err e
      → (e ≡ uncaught) × ((v : Response) × (w.converts v ≡ false))
  unfolding convert pure
  convert-err Response.nothing s e h = cc
  convert-err Response.added s e h = cc
  convert-err (Response.answer reply) s e h = cc
  convert-err (Response.logs lines status) s e h = cc
  convert-err r s e h =
      let (raised, refused) = refuse-err (w.converts r) r s e h in (raised, (r, refused))

  IsAtomic-continue :
      {A : Type 0} (r : Result A) (f : A → Response) (s : Txn o) (e : Error) (before : Db o)
      → (continue r (λ a. convert w (f a)) s).0 ≡ err e
      → (r ≡ err e → s.saved ≡ before)
      → Unchanged w e before (continue r (λ a. convert w (f a)) s).1.saved
  unfolding continue
  IsAtomic-continue (ok a) f s e before h same = inr (convert-err (f a) s e h)
  IsAtomic-continue (err e') f s e before h same = inl (same cc)

  IsAtomic-answering :
      {A : Type 0} (m : Service o A) (f : A → Response) → Atomic m → IsAtomic (answering w m f)
  unfolding ◌>>=◌
  IsAtomic-answering m f h = record {
    at = λ s e p. let (r, s') = m s in IsAtomic-continue r f s' e s.saved p (h.at s e);
  }

module _ {o : Orm} where
  Atomic-send : (w : World) (id message : String) → Atomic {o = o} (send w id message)
  unfolding send
  Atomic-send w id message = Atomic-of_Unsaved (record { at = λ s. refl })

  IsAtomic-perform : (w : World) (r : Request) → IsOneStep r → IsAtomic w {o = o} (perform w r)
  unfolding perform
  IsAtomic-perform w Request.list_organizations h =
      IsAtomic-answering w _ _ Organizations.Atomic-list_organizations
  IsAtomic-perform w (Request.create_organization x0 x1) h =
      IsAtomic-answering w _ _ (Organizations.Atomic-create_organization _ _ _ _ _)
  IsAtomic-perform w (Request.get_organization x0) h =
      IsAtomic-answering w _ _ (Organizations.Atomic-get_organization _)
  IsAtomic-perform w (Request.update_organization x0 x1) h =
      IsAtomic-answering w _ _ (Organizations.Atomic-update_organization _ _)
  IsAtomic-perform w (Request.delete_organization x0) h =
      IsAtomic-answering w _ _ (Organizations.Atomic-delete_organization _)
  IsAtomic-perform w (Request.list_domains x0) h =
      IsAtomic-answering w _ _ (Domains.Atomic-list_domains _)
  IsAtomic-perform w (Request.create_domain x0 x1 x2) h =
      IsAtomic-answering w _ _ (Domains.Atomic-create_domain _ _ _ _ _)
  IsAtomic-perform w (Request.get_domain x0) h =
      IsAtomic-answering w _ _ (Domains.Atomic-get_domain _)
  IsAtomic-perform w (Request.update_domain x0 x1) h =
      IsAtomic-answering w _ _ (Domains.Atomic-update_domain _ _)
  IsAtomic-perform w (Request.delete_domain x0) h =
      IsAtomic-answering w _ _ (Domains.Atomic-delete_domain _)
  IsAtomic-perform w Request.list_users h = IsAtomic-answering w _ _ Users.Atomic-list_users
  IsAtomic-perform w (Request.create_user x0 x1) h =
      IsAtomic-answering w _ _ (Users.Atomic-create_user _ _ _)
  IsAtomic-perform w (Request.get_user x0) h = IsAtomic-answering w _ _ (Users.Atomic-get_user _)
  IsAtomic-perform w (Request.update_user x0 x1 x2) h =
      IsAtomic-answering w _ _ (Users.Atomic-update_user _ _ _)
  IsAtomic-perform w (Request.delete_user x0) h =
      IsAtomic-answering w _ _ (Users.Atomic-delete_user _)
  IsAtomic-perform w (Request.list_groups x0) h =
      IsAtomic-answering w _ _ (Groups.Atomic-list_groups _)
  IsAtomic-perform w (Request.create_group x0 x1) h =
      IsAtomic-answering w _ _ (Groups.Atomic-create_group _ _ _)
  IsAtomic-perform w (Request.remove_member x0 x1) h =
      IsAtomic-answering w _ _ (Groups.Atomic-remove_member _ _)
  IsAtomic-perform w (Request.add_member x0 x1) h =
      IsAtomic-answering w _ _ (Groups.Atomic-add_member _ _ _)
  IsAtomic-perform w (Request.get_group x0) h = IsAtomic-answering w _ _ (Groups.Atomic-get_group _)
  IsAtomic-perform w (Request.update_group x0 x1) h =
      IsAtomic-answering w _ _ (Groups.Atomic-update_group _ _)
  IsAtomic-perform w (Request.delete_group x0) h =
      IsAtomic-answering w _ _ (Groups.Atomic-delete_group _)
  IsAtomic-perform w (Request.list_agents x0) h =
      IsAtomic-answering w _ _ (Agents.Atomic-list_agents _)
  IsAtomic-perform w (Request.create_agent x0 x1 x2 x3) h =
      IsAtomic-answering w _ _ (Agents.Atomic-create_agent _ _ _ _ _ _)
  IsAtomic-perform w (Request.get_agent x0) h = IsAtomic-answering w _ _ (Agents.Atomic-get_agent _)
  IsAtomic-perform w (Request.update_agent x0 x1 x2 x3) h =
      IsAtomic-answering w _ _ (Agents.Atomic-update_agent _ _ _ _ _)
  IsAtomic-perform w (Request.delete_agent x0) h =
      IsAtomic-answering w _ _ (Agents.Atomic-delete_agent _)
  IsAtomic-perform w (Request.list_sessions x0 x1) h =
      IsAtomic-answering w _ _ (Sessions.Atomic-list_sessions _ _ _)
  IsAtomic-perform w (Request.create_session x0 x1 x2 x3) h = elim h [ ]
  IsAtomic-perform w (Request.send_message x0 x1) h = IsAtomic-answering w _ _ (Atomic-send w x0 x1)
  IsAtomic-perform w (Request.session_logs x0 x1) h = IsAtomic-of_Unsaved w (search unsaved_rules)
  IsAtomic-perform w (Request.stop_session x0) h =
      IsAtomic-answering w _ _ (Sessions.Atomic-stop_session _)
  IsAtomic-perform w (Request.update_session_state x0 x1) h =
      IsAtomic-answering w _ _ (Sessions.Atomic-update_session_state _ _)
  IsAtomic-perform w (Request.get_session x0) h =
      IsAtomic-answering w _ _ (Sessions.Atomic-get_session _ _)
  IsAtomic-perform w (Request.list_tasks x0) h =
      IsAtomic-answering w _ _ (Tasks.Atomic-list_tasks _)
  IsAtomic-perform w (Request.create_task x0 x1 x2) h =
      IsAtomic-answering w _ _ (Tasks.Atomic-create_task _ _ _ _)
  IsAtomic-perform w (Request.get_task x0) h = IsAtomic-answering w _ _ (Tasks.Atomic-get_task _)
  IsAtomic-perform w Request.list_skills h = IsAtomic-answering w _ _ Skills.Atomic-list_skills
  IsAtomic-perform w (Request.create_skill x0 x1 x2) h =
      IsAtomic-answering w _ _ (Skills.Atomic-create_skill _ _ _ _ _)
  IsAtomic-perform w (Request.get_skill x0) h = IsAtomic-answering w _ _ (Skills.Atomic-get_skill _)
  IsAtomic-perform w (Request.update_skill x0 x1 x2 x3) h =
      IsAtomic-answering w _ _ (Skills.Atomic-update_skill _ _ _ _ _)
  IsAtomic-perform w (Request.delete_skill x0) h =
      IsAtomic-answering w _ _ (Skills.Atomic-delete_skill _)

  -- A request other than the creation of a session that ends in an error leaves the saved
  -- database as it was, unless the error is an uncaught exception and the response schemas refuse
  -- some answer.
  pub perform_atomic :
      (w : World) (r : Request) (db : Db o) (e : Error)
      → IsOneStep r
      → (run (perform w r) db).0 ≡ err e
      → ((run (perform w r) db).1 ≡ db) ⊎ (e ≡ uncaught) × ((v : Response) × (w.converts v ≡ false))
  unfolding run
  perform_atomic w r db e h failed = (IsAtomic-perform w r h).at (open_txn db) e failed
