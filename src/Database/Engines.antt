-- ===== src/Database/Engines.antt =====
-- src/mob/database.py: `_engine` and `_session_factory`, the process's globals. An engine is the
-- URL it was created for and its place among the engines created.
use mob.Prelude.{
  ℕ, suc, String, ◌≡◌, refl, Option, none, some, List, [], ◌∷◌, arith, is_empty, if◌then◌else◌,
}

pub record Engine : Type 0 where
  pub url : String
  pub serial : ℕ

pub record Process : Type 0 where
  pub engine : Option Engine
  pub session_factory : Option Engine
  pub created : ℕ
  pub disposed : List Engine

abbrev pub started : Process
started = record { engine = none; session_factory = none; created = 0; disposed = [] }

-- `database_url or get_settings().database_url`
unfoldable pub url_of : (settings_url : String) → Option String → String
url_of settings_url none = settings_url
url_of settings_url (some url) = if is_empty url then settings_url else url

-- `create_async_engine`
unfoldable pub create : String → Process → Process × Engine
create url p =
    let e : Engine = record { url = url; serial = p.created } in
    (record p { engine = some e; created = suc p.created }, e)

unfoldable pub engine_or_create :
    (settings_url : String) → Option String → Option Engine → Process → Process × Engine
unfolding create url_of
engine_or_create settings_url none (some e) p = (p, e)
engine_or_create settings_url url e p = create (url_of settings_url url) p

unfoldable pub get_engine : (settings_url : String) → Option String → Process → Process × Engine
unfolding engine_or_create
get_engine settings_url database_url p = engine_or_create settings_url database_url p.engine p

unfoldable pub factory_or_create :
    (settings_url : String) → Option String → Option Engine → Process → Process × Engine
unfolding get_engine
factory_or_create settings_url none (some e) p = (p, e)
factory_or_create settings_url url e p =
    let (p', e') = get_engine settings_url url p in (record p' { session_factory = some e' }, e')

-- The factory is the engine that its sessions speak to.
unfoldable pub get_session_factory :
    (settings_url : String) → Option String → Process → Process × Engine
unfolding factory_or_create
get_session_factory settings_url database_url p =
    factory_or_create settings_url database_url p.session_factory p

unfoldable pub close_engine : Option Engine → Process → Process
close_engine none p = p
close_engine (some e) p = record p {
  engine = none;
  session_factory = none;
  disposed = e ∷ p.disposed;
}

unfoldable pub close_db : Process → Process
unfolding close_engine
close_db p = close_engine p.engine p

-- What the program calls; `init_db` and `migrate_db` call `get_engine`, `get_session` the factory.
pub data Call : Type 0 where
  engine_call : (database_url : Option String) → Call
  factory_call : (database_url : Option String) → Call
  close_call : Call

unfoldable pub after_calls : (settings_url : String) → List Call → Process → Process
unfolding get_engine get_session_factory close_db
after_calls settings_url [] p = p
after_calls settings_url (engine_call url ∷ calls) p =
    after_calls settings_url calls (get_engine settings_url url p).0
after_calls settings_url (factory_call url ∷ calls) p =
    after_calls settings_url calls (get_session_factory settings_url url p).0
after_calls settings_url (close_call ∷ calls) p = after_calls settings_url calls (close_db p)

-- Without an engine there is no factory.
unfoldable IsBound : Process → Type 0
IsBound p = p.engine ≡ none → p.session_factory ≡ none

engine_or_create-engine :
    (settings_url : String) (url : Option String) (o : Option Engine) (p : Process)
    → p.engine ≡ o
    → (e : Engine) × ((engine_or_create settings_url url o p).0.engine ≡ some e)
unfolding engine_or_create create
engine_or_create-engine settings_url none none p h = (_, refl)
engine_or_create-engine settings_url none (some e) p h = (e, h)
engine_or_create-engine settings_url (some url) o p h = (_, refl)

IsBound-engine : (p : Process) → ((e : Engine) × (p.engine ≡ some e)) → IsBound p
unfolding IsBound
IsBound-engine p (e, h) missing = ground arith

get_engine-IsBound :
    (settings_url : String) (url : Option String) (p : Process)
    → IsBound (get_engine settings_url url p).0
unfolding get_engine
get_engine-IsBound settings_url url p =
    IsBound-engine _ (engine_or_create-engine settings_url url p.engine p refl)

factory_or_create-IsBound :
    (settings_url : String) (url : Option String) (o : Option Engine) (p : Process)
    → IsBound p
    → IsBound (factory_or_create settings_url url o p).0
unfolding factory_or_create get_engine
factory_or_create-IsBound settings_url none (some e) p h = h
factory_or_create-IsBound settings_url none none p h =
    IsBound-engine _ (engine_or_create-engine settings_url none p.engine p refl)
factory_or_create-IsBound settings_url (some url) o p h =
    IsBound-engine _ (engine_or_create-engine settings_url (some url) p.engine p refl)

close_engine-closed :
    (o : Option Engine) (p : Process)
    → p.engine ≡ o
    → (o ≡ none → p.session_factory ≡ none)
    → ((close_engine o p).engine ≡ none) × ((close_engine o p).session_factory ≡ none)
unfolding close_engine
close_engine-closed none p h bound = (h, bound refl)
close_engine-closed (some e) p h bound = (refl, refl)

close_db-closed :
    (p : Process) → IsBound p → ((close_db p).engine ≡ none) × ((close_db p).session_factory ≡ none)
unfolding close_db IsBound
close_db-closed p bound = close_engine-closed p.engine p refl bound

after_calls-IsBound :
    (settings_url : String) (calls : List Call) (p : Process)
    → IsBound p
    → IsBound (after_calls settings_url calls p)
unfolding after_calls get_session_factory
after_calls-IsBound settings_url [] p h = h
after_calls-IsBound settings_url (engine_call url ∷ calls) p h =
    after_calls-IsBound settings_url calls _ (get_engine-IsBound settings_url url p)
after_calls-IsBound settings_url (factory_call url ∷ calls) p h =
    after_calls-IsBound settings_url calls _
      (factory_or_create-IsBound settings_url url p.session_factory p h)
after_calls-IsBound settings_url (close_call ∷ calls) p h =
    after_calls-IsBound settings_url calls _ (unfold IsBound in λ e. (close_db-closed p h).1)

-- After any calls of get_engine, get_session_factory and close_db, a close_db leaves neither an
-- engine nor a session factory.
pub close_db-after_calls :
    (settings_url : String) (calls : List Call)
    → ((close_db (after_calls settings_url calls started)).engine ≡ none)
      × ((close_db (after_calls settings_url calls started)).session_factory ≡ none)
unfolding IsBound
close_db-after_calls settings_url calls =
    close_db-closed _ (after_calls-IsBound settings_url calls started (λ e. refl))
