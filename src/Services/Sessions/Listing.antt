-- ===== src/Services/Sessions/Listing.antt =====
-- What `list_sessions` answers, against the rows of the database.
use mathlib.Core.Path.{subst}
use mob.Prelude.{
  String, ◌≡◌, ◌≢◌, refl, sym, ◌↔◌, true, Option, none, some, List, In, Assoc, In-map, In-map_of,
  In-filter, In-filter_of,
}
use mob.Models.{Session}
use mob.Orm.{Orm, Db}
use mob.Transaction.{ok, run, ◌>>=◌, pure, raise, select}
use mob.Services.Domains.{scoped}
use mob.Services.Sessions.States.{same_state}
use mob.Services.Sessions.States.Codec.{same_state_iff}
use mob.Services.Sessions.Live.{
  Cluster, Status, Filter, everything, only, invalid, state_filter, apply_filter, enrich_session,
  enrich_sessions, list_cr_statuses, list_filtered, list_sessions,
}

-- One row as the listing shows it.
abbrev pub shown : Option (Assoc Status) → Session → Session
shown none a = a
shown (some statuses) a = enrich_session statuses a

abbrev pub Passes : Filter → Session → Type 0
Passes everything b = Unit
Passes (only state) b = b.state ≡ state
Passes (invalid state) b = ⊥

In-enrich :
    (rows : List Session) (st : Option (Assoc Status)) (b : Session)
    → In b (enrich_sessions rows st)
    → (a : Session) × In a rows × (b ≡ shown st a)
unfolding enrich_sessions
In-enrich rows none b m = (b, m, refl)
In-enrich rows (some statuses) b m = In-map (enrich_session statuses) rows b m

In-enrich_of :
    (rows : List Session) (st : Option (Assoc Status)) (a : Session)
    → In a rows
    → In (shown st a) (enrich_sessions rows st)
unfolding enrich_sessions
In-enrich_of rows none a m = m
In-enrich_of rows (some statuses) a m = In-map_of (enrich_session statuses) rows a m

module _ {o : Orm} (k8s : Cluster) (db : Db o) (agent_id : Option String) where
  -- `b` is a stored session of the agent, as its row is shown, and passes the filter.
  pub record Listed (f : Filter) (b : Session) : Type 0 where
    pub row : Session
    pub stored : o.sessions.get db.sessions row.id ≡ some row
    pub in_scope : scoped agent_id (λ (r : Session). r.agent_id) row ≡ true
    pub same : b ≡ shown (list_cr_statuses k8s) row
    pub passes : Passes f b

  abbrev all_rows : List Session
  all_rows =
      enrich_sessions
        (o.sessions.select (scoped agent_id (λ (r : Session). r.agent_id)) db.sessions)
        (list_cr_statuses k8s)

  In-all_rows : (b : Session) → In b all_rows → Listed everything b
  In-all_rows b m =
      let (a, n, e) = In-enrich _ (list_cr_statuses k8s) b m in
      let (scope, stored) = o.sessions.select_sound db.sessions _ a n in
      record { row = a; stored = stored; in_scope = scope; same = e; passes = tt }

  In-all_rows_of : {f : Filter} (b : Session) → Listed f b → In b all_rows
  In-all_rows_of b l =
      let n = o.sessions.select_complete db.sessions _ l.row l.stored l.in_scope in
      subst (λ x. In x all_rows) (sym l.same) (In-enrich_of _ (list_cr_statuses k8s) l.row n)

  In-apply_filter :
      (f : Filter) (b : Session)
      → ((s : String) → f ≢ invalid s)
      → In b (apply_filter f all_rows) ↔ Listed f b
  unfolding apply_filter
  In-apply_filter everything b h = (In-all_rows b, In-all_rows_of b)
  In-apply_filter (invalid s) b h = absurd (h s refl)
  In-apply_filter (only state) b h = (sound, complete)
    where
      sound : In b (apply_filter (only state) all_rows) → Listed (only state) b
      sound m =
          let (n, test) = In-filter (λ (s : Session). same_state s.state state) all_rows b m in
          let l = In-all_rows b n in
          record {
            row = l.row;
            stored = l.stored;
            in_scope = l.in_scope;
            same = l.same;
            passes = (same_state_iff b.state state).0 test;
          }

      complete : Listed (only state) b → In b (apply_filter (only state) all_rows)
      complete l =
          In-filter_of (λ (s : Session). same_state s.state state) all_rows b (In-all_rows_of b l)
            ((same_state_iff b.state state).1 l.passes)

  list_filtered_ok :
      (f : Filter) (rows : List Session)
      → (run (list_filtered k8s f agent_id) db).0 ≡ ok rows
      → ((s : String) → f ≢ invalid s) × (rows ≡ apply_filter f all_rows)
  unfolding run list_filtered select raise pure ◌>>=◌
  list_filtered_ok everything rows e = (λ s. cc, cc)
  list_filtered_ok (only state) rows e = (λ s. cc, cc)
  list_filtered_ok (invalid s) rows e = cc

  -- A listing that succeeds holds exactly the stored sessions of the agent (of all agents, if
  -- none is given) whose live state passes the filter, each as its enriched row.
  pub list_sessions_iff :
      (state : Option String) (rows : List Session)
      → (run (list_sessions k8s agent_id state) db).0 ≡ ok rows
      → (b : Session) → In b rows ↔ Listed (state_filter state) b
  unfolding list_sessions
  list_sessions_iff state rows e b =
      let (valid, same) = list_filtered_ok (state_filter state) rows e in
      subst (λ xs. In b xs ↔ Listed (state_filter state) b) (sym same)
        (In-apply_filter (state_filter state) b valid)
