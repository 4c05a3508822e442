-- ===== src/Cli/Client/Modes.antt =====
-- The same command in local mode and against the API.
use mob.Prelude.{ℕ, leb, nat_eq, ◌≡◌, ◌⊎◌, true, false}
use mob.Orm.{Orm}
use mob.Transaction.{Service, Txn, ok}
use mob.Backend.{Response, nothing}
use mob.Backend.Routes.Values
use mob.Cli.Client.{Outcome, value, failed, crashed, unfollowed}

-- A value, or an error whose status is one.
abbrev pub IsProper : Outcome → Type 0
IsProper (value v) = Unit
IsProper (failed status_code message) = leb 400 status_code ≡ true
IsProper crashed = ⊥
IsProper unfollowed = ⊥

-- A service whose value is not answered.
abbrev IsSilent : {o : Orm} → Service o Response → Type 0
IsSilent {o} m = (s : Txn o) (v : Response) → (m s).0 ≡ ok v → v ≡ nothing

-- A success answered with 204 has no value in local mode, and the others have a status below 400.
abbrev Fits : {o : Orm} → Service o Response → ℕ → Type 0
Fits m status = (status ≡ 204) × IsSilent m ⊎ (nat_eq status 204 ≡ false) × (leb 400 status ≡ false)
