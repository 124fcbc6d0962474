-- ===== src/Scripts/ApplyMigrations/Laws.antt =====
-- What a run leaves in the database.
use mathlib.Core.List.{Permᴰ}
use honest_agent.Prelude.{
  ◌≡◌, refl, ◌∙◌, ap, List, [], ◌∷◌, ◌++◌, append-nil, append_assoc, map, arith,
}
use honest_agent.Py.Str.{Str}
use honest_agent.Py.Exec.{ok, bind-ok, for_each, try_finally, try_finally_ok}
use honest_agent.Py.Exec.Returns.{Returns, bind-Returns, for_each-Returns, try_finally-Returns}
use honest_agent.Core.Settings.{Settings}
use honest_agent.Scripts.ApplyMigrations.{Database, sorted, apply_one, main}
use honest_agent.Scripts.ApplyMigrations.Order.{
  IsSorted, sorted-Permᴰ, Permᴰ-sorted, sorted-IsSorted,
}

-- The journal of the statements that have been executed: each that returns is written down, a
-- file's text does not change, and nothing else writes.
pub record Journal {S : Type 0} (database : Database S) (executed : S → List Str) (text : Str → Str)
    : Type 0 where
  pub connected :
      (dsn : Str) (s t : S) → database.connect dsn s ≡ (ok tt, t) → executed t ≡ executed s
  pub ran :
      (sql : Str) (s t : S)
      → database.execute sql s ≡ (ok tt, t)
      → executed t ≡ executed s ++ (sql ∷ [])
  pub read :
      (path sql : Str) (s t : S)
      → database.read_text path s ≡ (ok sql, t)
      → (sql ≡ text path) × (executed t ≡ executed s)
  pub closed : (s t : S) → database.close s ≡ (ok tt, t) → executed t ≡ executed s

module _ {S : Type 0} (database : Database S) where
  -- The run is the same, whatever the order in which `glob` finds the files.
  main-Permᴰ :
      (found found' : List Str) (settings : Settings) (s : S)
      → Permᴰ found found'
      → main database found settings s ≡ main database found' settings s
  unfolding main
  main-Permᴰ found found' settings s same = rw (sorted-Permᴰ same) refl

module _ {S : Type 0} (database : Database S) (executed : S → List Str) (text : Str → Str) where
  apply_one-executed :
      (path : Str) (s t : S)
      → Journal database executed text
      → apply_one database path s ≡ (ok tt, t)
      → executed t ≡ executed s ++ (text path ∷ [])
  unfolding apply_one
  apply_one-executed path s t journal h =
      let (sql, (u, got, done)) =
        bind-ok (database.read_text path) (λ q. database.execute q) s t tt h in
      let (same, kept) = journal.read path sql s u got in
      let wrote = journal.ran sql u t done in ground arith

  for_each-executed :
      (paths : List Str) (s t : S)
      → Journal database executed text
      → for_each paths (apply_one database) s ≡ (ok tt, t)
      → executed t ≡ executed s ++ map text paths
  unfolding for_each
  for_each-executed [] s t journal h = ground (arith, append-nil (executed s))
  for_each-executed (path ∷ paths) s t journal h =
      let (x, (u, first, rest)) =
        bind-ok (apply_one database path) (λ _. for_each paths (apply_one database)) s t tt h in
      let one = apply_one-executed path s u journal first in
      let more = for_each-executed paths u t journal rest in
      more
      ∙ ap (λ l. l ++ map text paths) one
      ∙ append_assoc (executed s) (text path ∷ []) (map text paths)

  -- On a database that keeps `Journal`: a run that returns has executed the text of every file that
  -- was found, each once and in the ascending order of the paths, and nothing else.
  main-executed :
      (found : List Str) (settings : Settings) (s t : S)
      → Journal database executed text
      → main database found settings s ≡ (ok tt, t)
      → (order : List Str) × Permᴰ order found
        × IsSorted order
        × (executed t ≡ executed s ++ map text order)
  unfolding main
  main-executed found settings s t journal h =
      let (x, (u, began, ended)) =
        bind-ok (database.connect settings.database_url)
          (λ _. try_finally (for_each (sorted found) (apply_one database)) database.close) s t tt
          h in
      let (v, ran, shut) =
        try_finally_ok (for_each (sorted found) (apply_one database)) database.close u t tt ended in
      let start = journal.connected settings.database_url s u began in
      let all_run = for_each-executed (sorted found) u v journal ran in
      let stop = journal.closed v t shut in
      (sorted found, Permᴰ-sorted found, sorted-IsSorted found, ground arith)

-- Each call returns, whatever the state is.
pub record Works {S : Type 0} (database : Database S) : Type 0 where
  pub connects : (dsn : Str) → Returns (database.connect dsn)
  pub executes : (sql : Str) → Returns (database.execute sql)
  pub closes : Returns database.close
  pub reads : (path : Str) → Returns (database.read_text path)

main-Returns :
    {S : Type 0} (database : Database S) (found : List Str) (settings : Settings)
    → Works database
    → Returns (main database found settings)
unfolding main apply_one
main-Returns database found settings works =
    let applies : (path : Str) → Returns (apply_one database path) = λ path.
      bind-Returns (database.read_text path) (λ sql. database.execute sql) (works.reads path)
        works.executes in
    let block = for_each (sorted found) (apply_one database) in
    bind-Returns (database.connect settings.database_url) (λ _. try_finally block database.close)
      (works.connects settings.database_url)
      (λ _.
        try_finally-Returns block database.close
          (for_each-Returns (sorted found) (apply_one database) applies) works.closes)

-- On a database that keeps `Journal` and whose calls return: the run returns, and has executed the
-- text of every file that was found, each once and in the ascending order of the paths, and nothing
-- else.
pub main_total :
    {S : Type 0} (database : Database S) (executed : S → List Str) (text : Str → Str)
    (found : List Str) (settings : Settings) (s : S)
    → Journal database executed text
    → Works database
    → (t : S) × (main database found settings s ≡ (ok tt, t))
      × ((order : List Str) × Permᴰ order found
          × IsSorted order
          × (executed t ≡ executed s ++ map text order))
main_total database executed text found settings s journal works =
    let (x, (t, ran)) = main-Returns database found settings works s in
    (t, ran, main-executed database executed text found settings s t journal ran)
