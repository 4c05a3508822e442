-- ===== src/Tests/Lifecycle.antt =====
-- The state machine of the sessions on the database of the examples.
use mob.Prelude.{◌≡◌, refl, some, List, [], ◌∷◌}
use mob.Models.{idle, Session}
use mob.Orm.Memory.{get}
use mob.Services.Sessions.Lifecycle.Machine.{Run}
use mob.Services.Sessions.Lifecycle.{Control, stop, after_all, terminal_forever, after_all-Path}
use mob.Tests.Database.{in_memory, stored, old_session, live_session}

abbrev requests : List Control
requests = Control.update "s1" "idle" ∷ stop "s2" ∷ stop "s1" ∷ []

terminal_forever_example :
    in_memory.sessions.get (after_all requests stored).sessions "s1" ≡ some old_session
unfolding get
terminal_forever_example = terminal_forever requests stored "s1" old_session refl refl

after_all-Path_example :
    (b : Session) × (in_memory.sessions.get (after_all requests stored).sessions "s2" ≡ some b)
    × Run idle b.state
unfolding get
after_all-Path_example = after_all-Path requests stored "s2" live_session refl
