-- ===== src/Scripts/SeedLocal/Listing.antt =====
-- What the search for an account finds in a list of users.
use honest_agent.Prelude.{
  [], ap, sym, ◌≡◌, refl, inl, inr, true, Option, none, some, arith, Bool-cases,
}
use honest_agent.Py.Str.{Str, codes}
use honest_agent.Py.Str.Laws.{eq_of_str_eq}
use honest_agent.Py.Value.{Value, Items, Fields, obj, arr, str, end, item, no_items, get, find}
use honest_agent.Py.Exec.{ok}
use honest_agent.Scripts.SeedLocal.{is_text, find_user, find_among, find_listed}

-- The user is an entry of the list.
pub data Listed (user : Fields) : Items → Type 0 where
  here : {users : Items} → Listed user (item (obj user) users)
  there : {v : Value} {users : Items} → Listed user users → Listed user (item v users)

is_text_sound : (expected : Str) (v : Value) → is_text expected v ≡ true → v ≡ str expected
unfolding is_text
is_text_sound expected (str s) h = ap str (eq_of_str_eq s expected h)
is_text_sound expected _ h = absurd (ground arith)

find_user_sound :
    (email : Str) (users : Items) (user : Fields)
    → find_user email users ≡ ok (some user)
    → Listed user users × (get (codes "email") user ≡ str email)
unfolding find_user
find_user_sound email no_items user h = absurd (ground arith)
find_user_sound email (item (obj first) users) user h =
    elim (Bool-cases (is_text email (get (codes "email") first))) [
      | inl found ↦
          let same : first ≡ user = ground arith in
          let named = is_text_sound email (get (codes "email") first) found in
          (rw (sym same) here, rw (sym same) named)
      | inr other ↦
          let (listed, named) = find_user_sound email users user (ground arith) in
          (there listed, named)
    ]
find_user_sound email (item _ users) user h = absurd (ground arith)

-- The search gives a user of the list who has the address.
find_among_sound :
    (email : Str) (o : Option Value) (user : Fields)
    → find_among email o ≡ ok (some user)
    → (users : Items) × (o ≡ some (arr users))
      × Listed user users
      × (get (codes "email") user ≡ str email)
unfolding find_among
find_among_sound email (some (arr users)) user h =
    let (listed, named) = find_user_sound email users user h in (users, refl, listed, named)
find_among_sound email none user h = absurd (ground arith)
find_among_sound email (some (str [])) user h = absurd (ground arith)
find_among_sound email (some (obj end)) user h = absurd (ground arith)
find_among_sound email (some _) user h = absurd (ground arith)

pub find_listed_sound :
    (email : Str) (payload : Value) (user : Fields)
    → find_listed email payload ≡ ok (some user)
    → (fields : Fields) × (users : Items) × (payload ≡ obj fields)
      × (find (codes "users") fields ≡ some (arr users))
      × Listed user users
      × (get (codes "email") user ≡ str email)
unfolding find_listed
find_listed_sound email (obj fields) user h =
    let (users, shown, listed, named) =
      find_among_sound email (find (codes "users") fields) user h in
    (fields, users, refl, shown, listed, named)
find_listed_sound email _ user h = absurd (ground arith)
