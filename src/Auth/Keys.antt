-- ===== src/Auth/Keys.antt =====
-- The verification keys of issuers, src/api_manager/auth/certs.h, and the uris that they are fetched
-- from, `GetJwksUri` and `SetJwksUri` of src/api_manager/config.cc.
use esp.Base.{
  ◌≡◌, arith, ℕ, Bool, true, false, not, Option, none, some, List, [], ◌∷◌, ◌++◌, Str, bytes,
  is_empty, ◌==◌, if◌then◌else◌,
}
use esp.MethodInfo.{map_find, map_update}
use esp.UrlUtil.{https_prefix, get_url_content, is_http_request}

-- Certs: a key and the time at which it expires, by issuer.
abbrev pub Certs : Type 0
Certs = List (Str × (Str × ℕ))

-- `Update` and `GetCert`.
abbrev pub update_cert : Str → Str → ℕ → Certs → Certs
update_cert issuer cert expiration certs =
    map_update issuer (cert, expiration) (λ old. (cert, expiration)) certs

abbrev pub get_cert : Str → Certs → Option (Str × ℕ)
get_cert issuer certs = map_find issuer certs

-- `issuer_jwks_uri_map_`: a uri, and whether OpenID discovery may be tried.
abbrev pub JwksUris : Type 0
JwksUris = List (Str × (Str × Bool))

abbrev pub openid_config_path : Str
openid_config_path = bytes ".well-known/openid-configuration"

unfoldable pub last_is : ℕ → Str → Bool
last_is c [] = false
last_is c (x ∷ []) = x == c
last_is c (x ∷ y ∷ s) = last_is c (y ∷ s)

abbrev pub with_scheme : Str → Str
with_scheme issuer = if is_http_request issuer then issuer else https_prefix ++ issuer

abbrev pub with_slash : Str → Str
with_slash url = if last_is b'/' url then url else url ++ (b'/' ∷ [])

unfoldable pub discovery_url : Str → Str
discovery_url issuer = with_slash (with_scheme issuer) ++ openid_config_path

-- The uri for an entry of the map, and whether it is one for discovery.
unfoldable pub jwks_uri_of : Str → Option (Str × Bool) → Str × Bool
jwks_uri_of issuer none = ([], false)
jwks_uri_of issuer (some (uri, openid_valid)) =
    if not (is_empty uri)
    then (uri, false)
    else if openid_valid
    then (discovery_url issuer, true)
    else ([], false)

-- `GetJwksUri`; `none` is the last byte of an empty issuer, which is not defined.
unfoldable pub get_jwks_uri : Str → JwksUris → Option (Str × Bool)
get_jwks_uri issuer uris = elim (get_url_content issuer) [
  | none ↦ none
  | some iss ↦ some (jwks_uri_of issuer (map_find iss uris))
]

-- `SetJwksUri`.
unfoldable pub set_jwks_uri : Str → Str → Bool → JwksUris → Option JwksUris
set_jwks_uri issuer jwks_uri openid_valid uris = elim (get_url_content issuer) [
  | none ↦ none
  | some iss ↦ some (
      if is_empty iss
      then uris
      else map_update iss (jwks_uri, openid_valid) (λ old. (jwks_uri, openid_valid)) uris)
]

pub get_jwks_uri-none :
    (issuer : Str) (uris : JwksUris)
    → get_jwks_uri issuer uris ≡ none
    → get_url_content issuer ≡ none
unfolding get_jwks_uri
get_jwks_uri-none issuer uris e = ground (arith, e)

pub set_jwks_uri-none :
    (issuer jwks_uri : Str) (uris : JwksUris)
    → set_jwks_uri issuer jwks_uri false uris ≡ none
    → get_url_content issuer ≡ none
unfolding set_jwks_uri
set_jwks_uri-none issuer jwks_uri uris e = ground (arith, e)
