-- ===== src/Tenants/OwnerAuth/Tests.antt =====
-- An owner's token against a key set with one key, and a world that counts the fetches.
use honest_agent.Prelude.{
  ℕ, ◌+◌, String, ◌≡◌, refl, ◌≢◌, ◌↔◌, ◌⊎◌, Bool, false, ◌&&◌, none, some, List, [], ◌∷◌, arith,
  ltb, ◌==◌, if◌then◌else◌,
}
use honest_agent.Py.Str.{Str, codes, str_eq, is_empty}
use honest_agent.Py.Dict.{lookup, assign}
use honest_agent.Py.Value.{ℤ, pos, negsuc, Fields, int, str, obj, end, field, get, nonempty_str}
use honest_agent.Py.Exec.{Exception, app, py_jwt_error, external, Result, ok, raised, fail}
use honest_agent.Py.Exec.Checked.{◌>>=◌}
use honest_agent.Py.Jwt.{Jwt, Floats}
use honest_agent.Core.Errors.{authentication_error}
use honest_agent.Core.Handlers.{answered_status}
use honest_agent.Py.Unicode.{ascii_unicode, lower_ascii}
use honest_agent.Core.Bearer.{parse_bearer}
use honest_agent.Tenants.OwnerAuth.{get_owner_context}
use honest_agent.Tenants.Router.{OwnerIdentity, read_owner_identity, owner_route}
use honest_agent.Tenants.Contexts.{OwnerRequestContext}
use honest_agent.Tenants.OwnerAuth.{verify}
use honest_agent.Tenants.OwnerAuth.Keys.{Cache, KeySource, get_key, refresh, collect, add_entry}
use honest_agent.Tenants.OwnerAuth.Keys.Laws.{
  Published, first, later, get_key_sound, asks, fetches, asks-fetches,
}
use honest_agent.Tenants.OwnerAuth.Claims.{
  OwnerTokenVerifier, key_id, decode_claims, tenant_id, user_id, reject_future_iat, is_after,
}
use honest_agent.Tenants.OwnerAuth.Laws.{Verified, verify-ok_iff}
use honest_agent.Tenants.OwnerAuth.Refusals.{RaisesPyJwtError, verify-401}

running : Unit {0}
unfolding codes str_eq is_empty get nonempty_str lookup assign get_key refresh collect add_entry
    key_id decode_claims tenant_id user_id reject_future_iat is_after verify
running = tt

abbrev pub source : KeySource ℕ ℕ
source = record {
  fetch = λ n. (ok (field (codes "kid") (str (codes "k1")) end ∷ []), n + 1);
  from_dict = λ entry. ok 7;
}

-- A source whose fetch fails.
abbrev broken : KeySource ℕ ℕ
broken = record { fetch = λ n. (raised (external 1), n + 1); from_dict = λ entry. ok 7 }

abbrev claims : Fields
claims = field (codes "sub") (str (codes "u1")) (
    field (codes "app_metadata") (obj (field (codes "tenant_id") (str (codes "tenant-a")) end))
      (field (codes "iat") (int (pos 100)) end))

abbrev header : String → Fields
header kid = field (codes "kid") (str (codes kid)) end

pub read_header : Str → Result Fields
read_header token =
    if str_eq token (codes "good")
    then ok (header "k1")
    else if str_eq token (codes "other")
    then ok (header "k2")
    else raised py_jwt_error

pub read_claims : Str → ℕ → Result Fields
read_claims token key =
    if str_eq token (codes "good") && key == 7 then ok claims else raised py_jwt_error

abbrev pub jwt : Jwt ℕ
jwt = record {
  get_unverified_header = read_header;
  decode = λ at token key options. read_claims token key;
  encode = λ c k a. [];
}

pub lt_int : ℕ → ℤ → Bool
lt_int x (pos n) = ltb x n
lt_int x (negsuc n) = false

-- Times that are whole numbers.
abbrev pub floats : Floats
floats = record { add_int = λ x n. x + n; lt = ltb; lt_int = lt_int; truncate = λ x. x }

abbrev pub verifier : OwnerTokenVerifier
verifier = record { issuer = codes "iss"; audience = codes "authenticated" }

abbrev pub cold : Cache ℕ ℕ
cold = record { keys = []; world = 0 }

abbrev pub warm : Cache ℕ ℕ
warm = record { keys = (codes "k1", 7) ∷ []; world = 1 }

abbrev owner : OwnerRequestContext
owner = record { tenant_id = codes "tenant-a"; user_id = codes "u1" }

pub verify_good : verify source jwt floats verifier 100 100 (codes "good") cold ≡ (ok owner, warm)
unfolding running read_header read_claims lt_int
verify_good = refl

pub junk_header : jwt.get_unverified_header (codes "not-a-jwt") ≡ raised py_jwt_error
unfolding running read_header
junk_header = refl

verify-ok_iff_example :
    (verify source jwt floats verifier 100 100 (codes "good") cold ≡ (ok owner, warm))
    ↔ Verified source jwt floats verifier 100 100 (codes "good") cold warm owner
verify-ok_iff_example =
    verify-ok_iff source jwt floats verifier 100 100 (codes "good") cold warm owner

abbrev me : OwnerIdentity
me = record { tenant_id = codes "tenant-a"; user_id = codes "u1" }

owner_route_good :
    owner_route source jwt floats ascii_unicode verifier 100 100 (some (codes "Bearer good")) cold
    ≡ (ok me, warm)
unfolding running read_header read_claims lt_int owner_route read_owner_identity get_owner_context
    parse_bearer lower_ascii
owner_route_good = refl

get_key_good : get_key source (codes "k1") cold ≡ (ok 7, warm)
unfolding running
get_key_good = refl

get_key_sound_example :
    (lookup (codes "k1") warm.keys ≡ some 7)
    × ((warm ≡ cold)
        ⊎ ((entries : List Fields) × (source.fetch cold.world ≡ (ok entries, warm.world))
            × Published source (codes "k1") 7 entries))
get_key_sound_example = get_key_sound source (codes "k1") 7 cold warm get_key_good

broken_fetch : ((broken.fetch warm.world).0 >>= collect broken []) ≡ raised (external 1)
broken_fetch = refl

absent_k2 : lookup (codes "k2") warm.keys ≡ none
unfolding running
absent_k2 = refl

k1_named : nonempty_str (get (codes "kid") (header "k1")) ≡ some (codes "k1")
unfolding running
k1_named = refl

k1-ne-k2 : codes "k1" ≢ codes "k2"
unfolding running
k1-ne-k2 h = ground arith

only_k1 :
    (key : ℕ) {entries : List Fields}
    → entries ≡ header "k1" ∷ []
    → ¬ Published source (codes "k2") key entries
only_k1 key e (first {entry} named made) = ground (arith, k1_named, k1-ne-k2)
only_k1 key e (later (first named made)) = cc
only_k1 key e (later (later p)) = cc

k2_unpublished :
    (world : ℕ) (entries : List Fields) (key : ℕ)
    → (source.fetch world).0 ≡ ok entries
    → ¬ Published source (codes "k2") key entries
k2_unpublished world entries key fetched published = only_k1 key (ground arith) published

asks-fetches_example : (asks source 3 (codes "k2") warm).world ≡ fetches source 3 warm.world
asks-fetches_example = asks-fetches source 3 (codes "k2") warm k2_unpublished absent_k2

three_fetches : fetches source 3 warm.world ≡ 4
three_fetches = refl

jwt_raises : RaisesPyJwtError jwt
unfolding read_header read_claims
jwt_raises = record {
  by_header = λ token e h. ground arith;
  by_decode = λ at token key options e h. ground arith;
}

published : (e : Exception) → ((source.fetch cold.world).0 >>= collect source []) ≢ raised e
unfolding running
published e h = ground arith

verify_other :
    verify source jwt floats verifier 100 100 (codes "other") cold
    ≡ (fail authentication_error (codes "unknown token signing key"), warm)
unfolding running read_header read_claims lt_int
verify_other = refl

abbrev unknown_key : Exception
unknown_key =
    app (record { kind = authentication_error; detail = codes "unknown token signing key" })

verify-401_example : answered_status unknown_key ≡ 401
verify-401_example =
    verify-401 source jwt floats jwt_raises verifier 100 100 (codes "other") cold warm unknown_key
      published verify_other
