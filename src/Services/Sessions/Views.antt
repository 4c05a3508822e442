-- ===== src/Services/Sessions/Views.antt =====
-- What a reader of sessions sees: the enrichment of rows with the live state of the cluster.
use mob.Prelude.{String, ◌≡◌, refl, true, Option, none, some, [], ◌∷◌, arith, Assoc, lookup}
use mob.Models.{Session}
use mob.Services.Sessions.Live.{
  Status, Cluster, cr_name, merge_status, apply_status, enrich_session, live_view,
  get_single_cr_status, apply_probe,
}

merge_status-id : (status : Status) (a : Session) → (merge_status status a).id ≡ a.id
unfolding merge_status
merge_status-id status a = refl

apply_status-id : (st : Option Status) (a : Session) → (apply_status st a).id ≡ a.id
unfolding apply_status
apply_status-id none a = refl
apply_status-id (some []) a = refl
apply_status-id (some (kv ∷ st)) a = merge_status-id (kv ∷ st) a

pub enrich_session-id :
    (statuses : Assoc Status) (a : Session) → (enrich_session statuses a).id ≡ a.id
unfolding enrich_session
enrich_session-id statuses a = ground (arith, apply_status-id (lookup (cr_name a.id) statuses) a)

-- The listing and the single read show the same session, if a client can be built and both get
-- the same status, which is not empty.
pub enrich_session-eq-live_view :
    (k8s : Cluster) (statuses : Assoc Status) (a : Session) (kv : String × Option String)
    (st : Status)
    → k8s.client ≡ true
    → lookup (cr_name a.id) statuses ≡ some (kv ∷ st)
    → k8s.get_resource (cr_name a.id) ≡ some (some (kv ∷ st))
    → enrich_session statuses a ≡ live_view k8s a
unfolding enrich_session live_view apply_status apply_probe get_single_cr_status
enrich_session-eq-live_view k8s statuses a kv st up listed got = ground arith
