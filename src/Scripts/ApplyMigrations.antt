-- ===== src/Scripts/ApplyMigrations.antt =====
-- backend/scripts/apply_migrations.py: the migrations in the order of their paths. The files and
-- the connection are parameters; what is printed is left out.
pub mod Order
pub mod Laws
pub mod Tests
use honest_agent.Prelude.{Bool, true, false, List, [], ◌∷◌, ◌==◌, ltb, if◌then◌else◌}
use honest_agent.Py.Str.{Str}
use honest_agent.Py.Exec.{Action, try_finally, for_each, ◌>>=◌, ◌>>◌}
use honest_agent.Core.Settings.{Settings}

-- `asyncpg.connect`, the calls of its connection, and the reading of a file as UTF-8.
pub record Database (S : Type 0) : Type 0 where
  pub connect : (dsn : Str) → Action S (Unit {0})
  pub execute : (sql : Str) → Action S (Unit {0})
  pub close : Action S (Unit {0})
  pub read_text : (path : Str) → Action S Str

-- `s <= t`, by code points.
unfoldable pub str_le : Str → Str → Bool
str_le [] t = true
str_le (c ∷ s) [] = false
str_le (c ∷ s) (d ∷ t) =
    let rest = str_le s t in if ltb c d then true else if c == d then rest else false

unfoldable pub insert : Str → List Str → List Str
unfolding str_le
insert path [] = path ∷ []
insert path (first ∷ paths) =
    let rest = insert path paths in if str_le path first then path ∷ first ∷ paths else first ∷ rest

-- `sorted(paths)`: the paths of one directory are ordered by their names.
unfoldable pub sorted : List Str → List Str
unfolding insert
sorted [] = []
sorted (path ∷ paths) = insert path (sorted paths)

module _ {S : Type 0} (database : Database S) where
  unfoldable pub apply_one : (path : Str) → Action S (Unit {0})
  apply_one path = do sql ← database.read_text path; database.execute sql

  -- `found` is what `glob` has found, in the order in which it did.
  unfoldable pub main : (found : List Str) → Settings → Action S (Unit {0})
  unfolding sorted apply_one
  main found settings = do
    database.connect settings.database_url
    try_finally (for_each (sorted found) apply_one) database.close
