-- ===== src/OAuth.antt =====
-- src/infrastructure/auth/oauth-tokens.ts: the validation of access tokens, through a cache in the
-- process, a cache in Redis, and the table of tokens. Redis is a parameter (OAuth/Redis.antt), and so
-- are the hash of a token, what the table answers at a time, and the tenant of a user. Times
-- are milliseconds.
pub mod Redis
pub mod Local
pub mod Histories
pub mod Freshness
mod Scopes
mod Tests
use Prim.Native.Char.{Char, code}
use tallei_ai.Common.{
  map, ltb, length, not, select_where, ◌||◌, some, leb, none, str_eq, true, false, [], ◌&&◌, ◌∷◌,
  ◌==◌, ◌/◌, if◌then◌else◌, Bool, Option, List, ℕ, String,
}

pub record OAuthTokenContext : Type 0 where
  pub access_token : String
  pub client_id : String
  pub user_id : String
  pub tenant_id : String
  pub scopes : List String
  pub resource : Option String
  pub expires_at : ℕ

pub record OAuthTokenRow : Type 0 where
  pub access_token : String
  pub client_id : String
  pub tenant_id : Option String
  pub user_id : String
  pub scope : Option String
  pub resource : Option String
  pub access_expires_at : ℕ
  pub revoked_at : Option ℕ

pub record LocalEntry : Type 0 where
  pub key : String
  pub token : OAuthTokenContext
  pub exp : ℕ

pub record Validator (R : Type 0) : Type 0 where
  pub local : List LocalEntry
  pub redis : R

abbrev pub oauth_access_cache_ttl_seconds : ℕ
oauth_access_cache_ttl_seconds = 120

abbrev pub local_oauth_cache_ttl_ms : ℕ
local_oauth_cache_ttl_ms = 30_000

abbrev pub local_oauth_cache_max : ℕ
local_oauth_cache_max = 256

abbrev is_blank : ℕ → Bool
is_blank c = c == 32 || leb 9 c && leb c 13

abbrev into : Bool → Char → List String → List String
into _ c [] = []
into true c (w ∷ ws) = "" ∷ w ∷ ws
into false c (w ∷ ws) = String.◌∷◌ c w ∷ ws

-- the pieces between spaces
abbrev split_at_spaces : String → List String
split_at_spaces String.[] = "" ∷ []
split_at_spaces (String.◌∷◌ c s) = into (code c == 32) c (split_at_spaces s)

trim_start : String → String
trim_start String.[] = ""
trim_start (String.◌∷◌ c s) =
    let rest = trim_start s in if is_blank (code c) then rest else String.◌∷◌ c s

trim_end : String → String
trim_end String.[] = ""
trim_end (String.◌∷◌ c s) =
    let rest = trim_end s in if is_blank (code c) && str_eq rest "" then "" else String.◌∷◌ c rest

-- white space is that of ASCII
unfoldable pub parse_scopes : Option String → List String
unfolding trim_start trim_end
parse_scopes none = []
parse_scopes (some scope) =
    select_where (λ s. not (str_eq s ""))
      (map (λ s. trim_end (trim_start s)) (split_at_spaces scope))

unfoldable pub has : List String → String → Bool
has [] s = false
has (g ∷ gs) s = str_eq g s || has gs s

unfoldable pub has_required_scopes : List String → List String → Bool
unfolding has
has_required_scopes granted [] = true
has_required_scopes granted (s ∷ ss) = has granted s && has_required_scopes granted ss

abbrev falsy : String → Bool
falsy s = str_eq s ""

-- `expectedResource && resource && resource !== expectedResource`
abbrev pub other_resource : Option String → Option String → Bool
other_resource none _ = false
other_resource (some e) none = false
other_resource (some e) (some r) = not (falsy e) && (not (falsy r) && not (str_eq r e))

unfoldable pub accepted : ℕ → Option String → OAuthTokenContext → Option OAuthTokenContext
accepted now expected t =
    if other_resource expected t.resource
    then none
    else if leb t.expires_at (now / 1_000)
    then none
    else some t

-- `Map.set`: an entry that is there keeps its place
abbrev pub map_set : LocalEntry → List LocalEntry → List LocalEntry
map_set e [] = e ∷ []
map_set e (x ∷ xs) = if str_eq x.key e.key then e ∷ xs else x ∷ map_set e xs

abbrev pub without_first : List LocalEntry → List LocalEntry
without_first [] = []
without_first (x ∷ xs) = xs

unfoldable pub remember : LocalEntry → List LocalEntry → List LocalEntry
remember e local =
    map_set e (if leb local_oauth_cache_max (length local) then without_first local else local)

-- `localHit && localHit.exp > Date.now()`
abbrev pub live : ℕ → Option LocalEntry → Option OAuthTokenContext
live now none = none
live now (some e) = if ltb now e.exp then some e.token else none

abbrev hydrate_tenant_id : (String → String) → String → Option String → String
hydrate_tenant_id tenant_of user none = tenant_of user
hydrate_tenant_id tenant_of user (some t) = if falsy t then tenant_of user else t

unfoldable pub context_of : (String → String) → OAuthTokenRow → OAuthTokenContext
unfolding parse_scopes
context_of tenant_of r = record {
  access_token = r.access_token;
  client_id = r.client_id;
  user_id = r.user_id;
  tenant_id = hydrate_tenant_id tenant_of r.user_id r.tenant_id;
  scopes = parse_scopes r.scope;
  resource = r.resource;
  expires_at = r.access_expires_at / 1_000;
}

abbrev pub is_revoked : Option ℕ → Bool
is_revoked none = false
is_revoked (some t) = true
