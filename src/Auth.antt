-- ===== src/Auth.antt =====
-- internal/auth/auth.go: API keys as bearer tokens, and their scopes. golang.org/x/crypto/argon2 and
-- the two encodings of encoding/base64 are the parameter `Crypto`; the bytes that crypto/rand gives
-- are arguments, none where it fails. The clock is read once in a call. A context is its three values.
pub mod Tokens
mod Tests
use g_lm.Prelude.{
  ℕ, Bool, true, false, ◌&&◌, ◌||◌, not, Option, none, some, List, [], ◌∷◌, ◌++◌, any, length, ltb,
  if◌then◌else◌,
}
use g_lm.Prelude.Texts.{
  Text, lit, text_eq, trim_space, trim_prefix, trim_suffix, has_prefix, has_suffix, split, is_empty,
}
use g_lm.Model.Records.{Time, ApiKeyRecord}

pub record Crypto : Type 0 where
  -- argon2.IDKey: password, salt, time, memory, threads, length of the key
  pub id_key : Text → Text → ℕ → ℕ → ℕ → ℕ → Text
  pub std_encode : Text → Text
  pub std_decode : Text → Option Text
  pub url_encode : Text → Text

-- The methods of internal/store/store.go that the service calls; none for an error.
pub record KeyStore (S : Type 0) : Type 0 where
  pub create_api_key : ApiKeyRecord → S → S × Option ApiKeyRecord
  pub get_api_keys_by_prefix : Text → S → Option (List ApiKeyRecord)

pub record Identity : Type 0 where
  pub tenant_id : Text
  pub scopes : List Text
  pub key_id : Text

unfoldable pub hash_secret : Crypto → Text → Text → Text
hash_secret crypto salt secret =
    crypto.std_encode salt ++ (b':' ∷ crypto.std_encode (crypto.id_key secret salt 3 65536 2 32))

unfoldable pub verify_parts : Crypto → Text → List Text → Option Bool
unfolding text_eq
verify_parts crypto secret (a ∷ b ∷ []) = elim (crypto.std_decode a) [
  | none ↦ none
  | some salt ↦ elim (crypto.std_decode b) [
    | none ↦ none
    | some expected ↦
        some (text_eq (crypto.id_key secret salt 3 65536 2 (length expected)) expected)
  ]
]
verify_parts crypto secret _ = none

-- The answer, or none for an error.
unfoldable pub verify_secret : Crypto → Text → Text → Option Bool
unfolding verify_parts split
verify_secret crypto secret encoded = verify_parts crypto secret (split encoded b':')

abbrev pub is_true : Option Bool → Bool
is_true none = false
is_true (some b) = b

abbrev pub expired : Option Time → Time → Bool
expired none now = false
expired (some t) now = ltb t now

-- Whether the loop of Authenticate returns at a key.
unfoldable pub accepts : Crypto → Time → Text → ApiKeyRecord → Bool
unfolding text_eq verify_secret
accepts crypto now token k =
    text_eq k.status (lit "active")
    && not (expired k.expires_at now)
    && is_true (verify_secret crypto token k.hash)

unfoldable pub first_accepted : Crypto → Time → Text → List ApiKeyRecord → Option Identity
unfolding accepts
first_accepted crypto now token [] = none
first_accepted crypto now token (k ∷ ks) =
    if accepts crypto now token k
    then some (record { tenant_id = k.tenant_id; scopes = k.scopes; key_id = k.id })
    else first_accepted crypto now token ks

unfoldable pub prefix_of : List Text → Option Text
unfolding text_eq
prefix_of (kind ∷ prefix ∷ secret ∷ []) = if text_eq kind (lit "glm") then some prefix else none
prefix_of _ = none

unfoldable pub token_of : Text → Text
unfolding trim_space trim_prefix
token_of raw = trim_space (trim_prefix raw (lit "Bearer "))

-- The keys that a token may belong to: those of its prefix, if it is of the right form.
unfoldable pub candidate_keys : {S : Type 0} → KeyStore S → Text → S → List ApiKeyRecord
unfolding prefix_of split
candidate_keys store token s = elim (prefix_of (split token b'.')) [
  | none ↦ []
  | some prefix ↦ elim (store.get_api_keys_by_prefix prefix s) [ none ↦ [] | some ks ↦ ks ]
]

unfoldable pub authenticate : {S : Type 0} → KeyStore S → Crypto → Time → Text → S → Option Identity
unfolding token_of candidate_keys first_accepted
authenticate store crypto now raw s =
    first_accepted crypto now (token_of raw) (candidate_keys store (token_of raw) s)

unfoldable pub grants : Text → Text → Bool
unfolding text_eq has_prefix has_suffix trim_suffix
grants required s =
    text_eq s required
    || text_eq s (lit "*")
    || (has_suffix s (lit ":*") && has_prefix required (trim_suffix s (lit "*")))

unfoldable pub require_scope : Identity → Text → Bool
unfolding any grants
require_scope i required = any (grants required) i.scopes

abbrev pub raw_token : Crypto → Text → Text → Text
raw_token crypto prefix_bytes secret_bytes =
    lit "glm." ++ (crypto.url_encode prefix_bytes ++ (b'.' ∷ crypto.url_encode secret_bytes))

-- The token and the key that the store returned, with the new store.
unfoldable pub generate_api_key :
    {S : Type 0}
    → KeyStore S
    → Crypto
    → Text
    → List Text
    → Option Time
    → Option Text
    → Option Text
    → Option Text
    → S
    → S × Option (Text × ApiKeyRecord)
unfolding hash_secret
generate_api_key store crypto tenant scopes expires (some prefix) (some secret) (some salt) s =
    let raw = raw_token crypto prefix secret in
    let made =
      store.create_api_key
        (record {
          id = [];
          tenant_id = tenant;
          prefix = crypto.url_encode prefix;
          hash = hash_secret crypto salt raw;
          scopes = scopes;
          status = lit "active";
          expires_at = expires;
          created_at = 0;
        })
        s in
    (made.0, elim made.1 [ none ↦ none | some rec ↦ some (raw, rec) ])
generate_api_key store crypto tenant scopes expires _ _ _ s = (s, none)
