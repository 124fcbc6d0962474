-- ===== src/Scripts/ApplyMigrations/Tests.antt =====
-- Two migrations, found in the wrong order, and a database that keeps what it executes.
use mathlib.Core.List.{Permᴰ}
use honest_agent.Prelude.{◌≡◌, refl, List, [], ◌∷◌, ◌++◌, map, arith}
use honest_agent.Py.Str.{Str, codes}
use honest_agent.Py.Exec.{ok, for_each, try_finally}
use honest_agent.Core.Settings.{default_settings}
use honest_agent.Core.Settings.Sample.{sample_settings}
use honest_agent.Scripts.ApplyMigrations.{Database, str_le, insert, sorted, apply_one, main}
use honest_agent.Scripts.ApplyMigrations.Order.{IsSorted}
use honest_agent.Scripts.ApplyMigrations.Laws.{Journal, Works, main_total}

abbrev text_of : Str → Str
text_of path = codes "sql of " ++ path

-- The state is what has been executed.
abbrev database : Database (List Str)
database = record {
  connect = λ dsn done. (ok tt, done);
  execute = λ sql done. (ok tt, done ++ (sql ∷ []));
  close = λ done. (ok tt, done);
  read_text = λ path done. (ok (text_of path), done);
}

abbrev first_path : Str
first_path = codes "0001_app_role.sql"

abbrev second_path : Str
second_path = codes "0002_rls.sql"

abbrev found : List Str
found = second_path ∷ first_path ∷ []

abbrev in_order : List Str
in_order = text_of first_path ∷ text_of second_path ∷ []

journal : Journal database (λ done. done) text_of
journal = record {
  connected = λ dsn s t h. ground arith;
  ran = λ sql s t h. ground arith;
  read = λ path sql s t h. (ground arith, ground arith);
  closed = λ s t h. ground arith;
}

whole_run : main database found sample_settings [] ≡ (ok tt, in_order)
unfolding main sorted insert str_le apply_one for_each try_finally codes default_settings
whole_run = refl

works : Works database
works = record {
  connects = λ dsn s. (tt, (s, refl));
  executes = λ sql s. (tt, (s ++ (sql ∷ []), refl));
  closes = λ s. (tt, (s, refl));
  reads = λ path s. (text_of path, (s, refl));
}

main_total_example :
    (t : List Str) × (main database found sample_settings [] ≡ (ok tt, t))
    × ((order : List Str) × Permᴰ order found × IsSorted order × (t ≡ [] ++ map text_of order))
main_total_example =
    main_total database (λ done. done) text_of found sample_settings [] journal works
