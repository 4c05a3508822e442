-- ===== src/Tests/Migrations.antt =====
-- The migrations over a schema in memory, which meets the laws of `Connection`.
use mathlib.Core.Path.{fun_ext}
use mob.Prelude.{
  String, ◌==◌, ◌≡◌, refl, sym, Bool, true, false, not, ◌&&◌, ◌||◌, none, some, List, [], ◌∷◌, inl,
  inr, any, arith, if◌then◌else◌,
}
use mob.Database.Engines.{
  Call, close_db, after_calls, started, factory_call, engine_call, close_db-after_calls,
}
use mob.Database.Migrations.{init_db-declared, migrate_db-init_db}
use mob.Database.Preserved.{init_db-renamed}
use mob.Database.{Column, Table, is_declared, Connection, migrate_db, init_db}

-- A schema as what it answers.
abbrev Schema : Type 0
Schema = (String → Bool) × (String → String → Bool)

abbrev declared_column : List Table → String → String → Bool
declared_column ts n c = any (λ t. t.name == n && any (λ d. d.name == c) t.columns) ts

existing : (x y declared here : Bool) → here ≡ true → (if declared && not here then x else y) ≡ y
existing x y true true h = refl
existing x y false here h = refl
existing x y true false h = ground arith

covered : (here declared : Bool) → (declared ≡ true → here ≡ true) → here || declared ≡ here
covered true declared h = refl
covered false true h = sym (h refl)
covered false false h = refl

unchanged :
    (x y here declared : Bool)
    → (declared ≡ true → here ≡ true)
    → (if declared && not here then x else y) ≡ y
unchanged x y here false h = refl
unchanged x y true true h = refl
unchanged x y false true h = let contradiction = h refl in ground arith

abbrev create : List Table → Schema → Schema
create ts s = (
  λ n. s.0 n || is_declared ts n,
  λ n c. if is_declared ts n && not (s.0 n) then declared_column ts n c else s.1 n c,
)

created :
    (ts : List Table) (s : Schema)
    → ((n : String) → is_declared ts n ≡ true → s.0 n ≡ true)
    → create ts s ≡ s
created ts s h =
    let names : (λ n. s.0 n || is_declared ts n) ≡ s.0 =
      fun_ext (λ n. covered (s.0 n) (is_declared ts n) (h n)) in
    let columns : (create ts s).1 ≡ s.1 =
      fun_ext (λ n. fun_ext (λ c. unchanged _ _ (s.0 n) (is_declared ts n) (h n))) in
    λ i. (names i, columns i)

abbrev memory : Connection Schema
memory = record {
  has_table = λ n s. s.0 n;
  has_column = λ n c s. s.1 n c;
  rename_table = λ old new s. (
    λ n. if n == new then true else if n == old then false else s.0 n,
    λ n c. if n == new then s.1 old c else if n == old then false else s.1 n c,
  );
  create_all = create;
  add_column = λ t c type_name s. (s.0, λ n d. t == n && c == d || s.1 n d);
  backfill = λ t c s. s;
  rows = λ t c s. 1;
  rename-has_table = λ old new n s h k. refl;
  rename-has_column = λ old new n c s h k. refl;
  create-has_table = λ ts n s. refl;
  create-has_column = λ ts n c s h. existing _ _ (is_declared ts n) (s.0 n) h;
  create-none = λ ts s h. created ts s h;
  add-has_table = λ t c type_name n s h. refl;
  add-has_column = λ t c type_name n d s h. refl;
  backfill-has_table = λ t c n s. refl;
  backfill-has_column = λ t c n d s. refl;
}

abbrev name_column : Column
name_column = record { name = "name"; type_name = "VARCHAR(255)"; nullable = false }

abbrev sessions : Table
sessions = record {
  name = "sessions";
  columns = record { name = "id"; type_name = "VARCHAR(36)"; nullable = false } ∷ name_column ∷ [];
}

abbrev tables : List Table
tables = sessions ∷ []

-- A database of an older version
abbrev legacy : Schema
legacy = (λ n. n == "agent_runs", λ n c. n == "agent_runs" && c == "id")

init_db-declared_example :
    (memory.has_table "sessions" (init_db memory tables legacy) ≡ true)
    × (memory.has_column "sessions" "name" (init_db memory tables legacy) ≡ true)
init_db-declared_example =
    init_db-declared memory tables legacy sessions name_column (inl refl) (inr (inl refl))

migrate_db-init_db_example :
    migrate_db memory tables (init_db memory tables legacy) ≡ (init_db memory tables legacy, [])
migrate_db-init_db_example = migrate_db-init_db memory tables legacy refl

init_db-renamed_example :
    (memory.has_table "sessions" (init_db memory tables legacy) ≡ true)
    × ((c : String)
        → memory.has_column "agent_runs" c legacy ≡ true
        → memory.has_column "sessions" c (init_db memory tables legacy) ≡ true)
init_db-renamed_example = init_db-renamed memory tables "agent_runs" legacy refl

abbrev calls : List Call
calls = factory_call none ∷ engine_call (some "other") ∷ factory_call (some "third") ∷ []

close_db-after_calls_example :
    ((close_db (after_calls "sqlite" calls started)).engine ≡ none)
    × ((close_db (after_calls "sqlite" calls started)).session_factory ≡ none)
close_db-after_calls_example = close_db-after_calls "sqlite" calls
