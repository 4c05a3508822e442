-- ===== src/Transaction.antt =====
-- A request's unit of work: the code of src/mob/services runs in one `AsyncSession`, raises
-- `ServiceError` (services/__init__.py), and makes its changes durable by `commit`. What is not
-- committed when the session closes (database.py, `get_session`) is dropped.
pub mod Atomic
pub mod Keeps
use mob.Prelude.{ℕ, String, Option, none, some, List, [], ◌∷◌, ◌≡◌, Bool, true, false}
use mob.Models.{
  Organization, Domain, User, Group, GroupMember, Agent, AgentSkill, Skill, Task, Session,
}
use mob.Orm.{Orm, Db}
use mob.Orm.Mapped.{Rows}

-- `service_error` is the repository's own exception; the next two are SQLAlchemy's, which no service
-- but `create_session` catches; `uncaught` is any other exception that leaves a service.
pub data Error : Type 0 where
  service_error : (message : String) (status_code : ℕ) → Error
  integrity_error : Error
  multiple_results : Error
  uncaught : Error

pub data Result (A : Type 0) : Type 0 where
  ok : A → Result A
  err : Error → Result A

-- `saved` is the last committed state, `current` what the session sees.
pub record Txn (o : Orm) : Type 0 where
  pub saved : Db o
  pub current : Db o

abbrev pub open_txn : {o : Orm} → Db o → Txn o
open_txn db = record { saved = db; current = db }

abbrev pub Service : Orm → Type 0 → Type 0
Service o A = Txn o → Result A × Txn o

-- The place of one mapped class in the database.
pub record Slot (o : Orm) {R K : Type 0} {key : R → K} {clash : R → R → Bool}
    (rows : Rows R K key clash) : Type 0 where
  pub read : Db o → rows.Table
  pub write : rows.Table → Db o → Db o

module _ {o : Orm} where
  abbrev pub organizations : Slot o o.organizations
  organizations = record {
    read = λ db. db.organizations;
    write = λ t db. record db { organizations = t };
  }

  abbrev pub domains : Slot o o.domains
  domains = record { read = λ db. db.domains; write = λ t db. record db { domains = t } }

  abbrev pub users : Slot o o.users
  users = record { read = λ db. db.users; write = λ t db. record db { users = t } }

  abbrev pub groups : Slot o o.groups
  groups = record { read = λ db. db.groups; write = λ t db. record db { groups = t } }

  abbrev pub group_members : Slot o o.group_members
  group_members = record {
    read = λ db. db.group_members;
    write = λ t db. record db { group_members = t };
  }

  abbrev pub agents : Slot o o.agents
  agents = record { read = λ db. db.agents; write = λ t db. record db { agents = t } }

  abbrev pub agent_skills : Slot o o.agent_skills
  agent_skills = record {
    read = λ db. db.agent_skills;
    write = λ t db. record db { agent_skills = t };
  }

  abbrev pub skills : Slot o o.skills
  skills = record { read = λ db. db.skills; write = λ t db. record db { skills = t } }

  abbrev pub tasks : Slot o o.tasks
  tasks = record { read = λ db. db.tasks; write = λ t db. record db { tasks = t } }

  abbrev pub sessions : Slot o o.sessions
  sessions = record { read = λ db. db.sessions; write = λ t db. record db { sessions = t } }

module _ {o : Orm} {A B : Type 0} where
  unfoldable pub continue : Result A → (A → Service o B) → Service o B
  continue (ok a) f s = f a s
  continue (err e) f s = (err e, s)

  infixl 5 ◌>>=◌
  unfoldable pub ◌>>=◌ : Service o A → (A → Service o B) → Service o B
  unfolding continue
  ◌>>=◌ m f s = let (r, s') = m s in continue r f s'

module _ {o : Orm} {A B : Type 0} where
  infixl 5 ◌>>◌
  abbrev pub ◌>>◌ : Service o A → Service o B → Service o B
  m >> n = m >>= λ _. n

module _ {o : Orm} {A : Type 0} where
  unfoldable pub pure : A → Service o A
  pure a s = (ok a, s)

  unfoldable pub raise : Error → Service o A
  raise e s = (err e, s)

  -- `if not x: raise error`
  unfoldable pub require : Error → Option A → Service o A
  unfolding pure raise
  require e none = raise e
  require e (some a) = pure a

-- `if b: raise error`
unfoldable pub refuse_if : {o : Orm} → Bool → Error → Service o (Unit {0})
unfolding pure raise
refuse_if true e = raise e
refuse_if false e = pure tt

-- `session.commit()`. The flush that goes with it has been made by `insert` and `assign`.
unfoldable pub commit : {o : Orm} → Service o (Unit {0})
commit s = (ok tt, record s { saved = s.current })

-- `session.rollback()`
unfoldable pub rollback : {o : Orm} → Service o (Unit {0})
rollback s = (ok tt, record s { current = s.saved })

module _ {o : Orm} {R K : Type 0} {key : R → K} {clash : R → R → Bool} {rows : Rows R K key clash}
    (slot : Slot o rows) where
  -- `session.get(R, k)`
  unfoldable pub find : K → Service o (Option R)
  find k s = (ok (rows.get (slot.read s.current) k), s)

  -- `session.execute(select(R).where(p)).scalars().all()`
  unfoldable pub select : (R → Bool) → Service o (List R)
  select p s = (ok (rows.select p (slot.read s.current)), s)

  unfoldable pub flush : Option rows.Table → Service o (Unit {0})
  flush none s = (err integrity_error, s)
  flush (some t) s = (ok tt, record s { current = slot.write t s.current })

  -- `session.add(r)`, with its flush
  unfoldable pub insert : R → Service o (Unit {0})
  unfolding flush
  insert r s = flush (rows.add r (slot.read s.current)) s

  -- attributes assigned to a persistent row, with their flush
  unfoldable pub assign : R → Service o (Unit {0})
  unfolding flush
  assign r s = flush (rows.update r (slot.read s.current)) s

  -- `session.delete` of one row
  unfoldable pub remove : K → Service o (Unit {0})
  remove k s =
      (ok tt, record s { current = slot.write (rows.delete k (slot.read s.current)) s.current })

-- `result.scalar_one_or_none()`
unfoldable pub scalar_one_or_none : {o : Orm} {R : Type 0} → List R → Service o (Option R)
unfolding pure raise
scalar_one_or_none [] = pure none
scalar_one_or_none (r ∷ []) = pure (some r)
scalar_one_or_none (r ∷ r' ∷ rs) = raise multiple_results

-- The request as a whole: what it answers, and the database that it leaves.
unfoldable pub run : {o : Orm} {A : Type 0} → Service o A → Db o → Result A × Db o
run m db = let (r, s) = m (open_txn db) in (r, s.saved)

abbrev pub is_given {ℓ} : {A : Type ℓ} → Option A → Bool
is_given none = false
is_given (some a) = true

-- The UPDATE of a flush, which is sent only if an attribute was assigned.
unfoldable pub when : {o : Orm} → Bool → Service o (Unit {0}) → Service o (Unit {0})
unfolding pure
when true m = m
when false m = pure tt

-- `for a in xs: body(a)`
unfoldable pub for_each :
    {o : Orm} {A : Type 0} → List A → (A → Service o (Unit {0})) → Service o (Unit {0})
unfolding pure ◌>>=◌
for_each [] body = pure tt
for_each (a ∷ xs) body = body a >> for_each xs body
