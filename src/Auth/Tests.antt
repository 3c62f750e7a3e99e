-- ===== src/Auth/Tests.antt =====
-- The service at concrete inputs, with a store of one key and a hash that keeps the secret.
use g_lm.Prelude.{
  ℕ, zero, suc, ◌≡◌, refl, inl, inr, true, false, none, some, List, [], ◌∷◌, length, any, ◌==◌, ◌+◌,
  ◌-◌, arith, ap, Elem,
}
use g_lm.Prelude.Texts.{Text, lit, has_suffix, trim_suffix, has_prefix, drop_prefix}
use g_lm.Model.Records.{ApiKeyRecord}
use g_lm.Auth.{
  Crypto, KeyStore, Identity, hash_secret, verify_secret, authenticate, require_scope, expired,
  candidate_keys, token_of,
}
use g_lm.Auth.Tokens.{IsCrypto, verify-hash_secret, authenticate_lem, require_scope_iff}

-- A code that shifts past the separators.
abbrev shift : Text → Text
shift [] = []
shift (c ∷ s) = (c + 64) ∷ shift s

abbrev unshift : Text → Text
unshift [] = []
unshift (c ∷ s) = (c - 64) ∷ unshift s

-- A key of the length that is asked for, from the secret.
abbrev key_of : ℕ → Text → Text
key_of zero s = []
key_of (suc n) [] = 0 ∷ key_of n []
key_of (suc n) (c ∷ s) = c ∷ key_of n s

abbrev plain : Crypto
plain = record {
  id_key = λ secret salt time memory threads n. key_of n secret;
  std_encode = shift;
  std_decode = λ t. some (unshift t);
  url_encode = λ t. t;
}

unshift-shift : (t : Text) → unshift (shift t) ≡ t
unshift-shift [] = refl
unshift-shift (c ∷ s) = ground (arith, unshift-shift s)

no_colon-shift : (t : Text) → any (λ c. c == b':') (shift t) ≡ false
unfolding any
no_colon-shift [] = refl
no_colon-shift (c ∷ s) = ground (arith, no_colon-shift s)

length-key_of : (n : ℕ) (s : Text) → length (key_of n s) ≡ n
length-key_of zero s = refl
length-key_of (suc n) [] = omega (arith, length-key_of n [])
length-key_of (suc n) (c ∷ s) = omega (arith, length-key_of n s)

plain-IsCrypto : IsCrypto plain
plain-IsCrypto = record {
  decode_encode = λ t. ap some (unshift-shift t);
  no_colon = no_colon-shift;
  length_key = λ secret salt time memory threads n. length-key_of n secret;
}

verify-hash_secret_example :
    verify_secret plain (lit "glm.p1.s") (hash_secret plain (lit "salt") (lit "glm.p1.s"))
    ≡ some true
verify-hash_secret_example = verify-hash_secret plain (lit "glm.p1.s") (lit "salt") plain-IsCrypto

abbrev key : ApiKeyRecord
key = record {
  id = lit "k1";
  tenant_id = lit "acme";
  prefix = lit "p1";
  hash = hash_secret plain (lit "salt") (lit "glm.p1.s");
  scopes = lit "runtime:*" ∷ [];
  status = lit "active";
  expires_at = some 90;
  created_at = 7;
}

abbrev one_key : KeyStore (List ApiKeyRecord)
one_key = record {
  create_api_key = λ k ks. (k ∷ ks, some k);
  get_api_keys_by_prefix = λ prefix ks. some ks;
}

abbrev acme : Identity
acme = record { tenant_id = lit "acme"; scopes = lit "runtime:*" ∷ []; key_id = lit "k1" }

authenticate_test : authenticate one_key plain 50 (lit "Bearer glm.p1.s ") (key ∷ []) ≡ some acme
unfolding authenticate hash_secret
authenticate_test = refl

authenticate_late_test : authenticate one_key plain 91 (lit "Bearer glm.p1.s ") (key ∷ []) ≡ none
unfolding authenticate hash_secret
authenticate_late_test = refl

authenticate_lem_example :
    (k : ApiKeyRecord) × Elem k
      (candidate_keys one_key (token_of (lit "Bearer glm.p1.s ")) (key ∷ []))
    × (k.status ≡ lit "active")
    × (expired k.expires_at 50 ≡ false)
    × (verify_secret plain (token_of (lit "Bearer glm.p1.s ")) k.hash ≡ some true)
    × (acme ≡ record { tenant_id = k.tenant_id; scopes = k.scopes; key_id = k.id })
authenticate_lem_example =
    (authenticate_lem one_key plain 50 (lit "Bearer glm.p1.s ") (key ∷ [])).0 acme authenticate_test

require_scope_iff_example : require_scope acme (lit "runtime:chat") ≡ true
unfolding has_suffix trim_suffix has_prefix drop_prefix
require_scope_iff_example =
    (require_scope_iff acme (lit "runtime:chat")).1
      (lit "runtime:*", inl refl, inr (inr (refl, lit "chat", refl)))
