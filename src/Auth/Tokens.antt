-- ===== src/Auth/Tokens.antt =====
-- internal/auth/auth.go: which tokens and scopes are accepted.
use g_lm.Prelude.{
  ℕ, ◌≡◌, ◌⊎◌, ◌↔◌, refl, sym, inl, inr, true, false, ◌≢◌, Bool, Option, none, some, List, [], ◌∷◌,
  ◌++◌, arith, Elem, any, any_of_Elem, Elem-of_any, ◌==◌, length, Bool-cases,
}
use g_lm.Prelude.Texts.{
  Text, lit, text_eq_iff, text_eq_refl, has_prefix, has_suffix, trim_suffix, has_prefix-append,
  append-drop_prefix, drop_prefix, split_none, split-append,
}
use g_lm.Model.Records.{Time, ApiKeyRecord}
use g_lm.Auth.{
  Crypto, KeyStore, Identity, hash_secret, verify_parts, verify_secret, accepts, first_accepted,
  token_of, candidate_keys, authenticate, grants, require_scope, expired, is_true,
}

-- What the documentation of the two packages says: encoding has an inverse and an alphabet without
-- colon, and a key has the length that is asked for.
pub record IsCrypto (crypto : Crypto) : Type 0 where
  pub decode_encode : (t : Text) → crypto.std_decode (crypto.std_encode t) ≡ some t
  pub no_colon : (t : Text) → any (λ c. c == b':') (crypto.std_encode t) ≡ false
  pub length_key :
      (secret salt : Text) (time memory threads n : ℕ)
      → length (crypto.id_key secret salt time memory threads n) ≡ n

-- A secret is verified against its own hash, under every salt.
pub verify-hash_secret :
    (crypto : Crypto) (secret salt : Text)
    → IsCrypto crypto
    → verify_secret crypto secret (hash_secret crypto salt secret) ≡ some true
unfolding verify_secret verify_parts hash_secret
verify-hash_secret crypto secret salt c =
    let key = crypto.id_key secret salt 3 65536 2 32 in
    rw
      (
        split-append (crypto.std_encode salt) (crypto.std_encode key) b':' (c.no_colon salt),
        split_none (crypto.std_encode key) b':' (c.no_colon key),
        verify_parts,
        c.decode_encode salt,
        c.decode_encode key,
        c.length_key secret salt 3 65536 2 32,
        text_eq_refl key,
      )
      refl

verified : (o : Option Bool) → is_true o ≡ true → o ≡ some true
verified none e = absurd (cc e)
verified (some b) e = cc e

accepts_lem :
    (crypto : Crypto) (now : Time) (token : Text) (k : ApiKeyRecord)
    → (accepts crypto now token k ≡ true) ↔ (
        (k.status ≡ lit "active")
        × (expired k.expires_at now ≡ false)
        × (verify_secret crypto token k.hash ≡ some true))
unfolding accepts
accepts_lem crypto now token k =
    ground
      (arith, text_eq_iff k.status (lit "active"), verified (verify_secret crypto token k.hash))

first_accepted_lem :
    (crypto : Crypto) (now : Time) (token : Text) (ks : List ApiKeyRecord)
    → ((i : Identity)
        → first_accepted crypto now token ks ≡ some i
        → (k : ApiKeyRecord) × Elem k ks
          × (accepts crypto now token k ≡ true)
          × (i ≡ record { tenant_id = k.tenant_id; scopes = k.scopes; key_id = k.id }))
      × (first_accepted crypto now token ks ≡ none
          → (k : ApiKeyRecord) → Elem k ks
          → accepts crypto now token k ≡ false)
unfolding first_accepted
first_accepted_lem crypto now token [] = (λ i e. absurd (cc e), λ e k m. absurd m)
first_accepted_lem crypto now token (k ∷ ks) =
    let (sound, complete) = first_accepted_lem crypto now token ks in
    elim (Bool-cases (accepts crypto now token k)) [
      | inl e ↦ rw (e, first_accepted) (λ i p. (k, inl refl, e, ground arith), λ p. absurd (cc p))
      | inr e ↦
          rw (e, first_accepted)
            (
              λ i p. let (k', m, a, q) = sound i p in (k', inr m, a, q),
              λ p k' m. ground (arith, complete p k'),
            )
    ]

module _ {S : Type 0} (store : KeyStore S) (crypto : Crypto) (now : Time) (raw : Text) (s : S) where
  -- An authentication that succeeds gives the tenant, the scopes and the identifier of a key that the
  -- store returned for the token's prefix, which is active, has not expired, and whose hash verifies
  -- the token; one that fails leaves no such key.
  pub authenticate_lem :
      ((i : Identity)
        → authenticate store crypto now raw s ≡ some i
        → (k : ApiKeyRecord) × Elem k (candidate_keys store (token_of raw) s)
          × (k.status ≡ lit "active")
          × (expired k.expires_at now ≡ false)
          × (verify_secret crypto (token_of raw) k.hash ≡ some true)
          × (i ≡ record { tenant_id = k.tenant_id; scopes = k.scopes; key_id = k.id }))
      × (authenticate store crypto now raw s ≡ none
          → (k : ApiKeyRecord) → Elem k (candidate_keys store (token_of raw) s)
          → (k.status ≡ lit "active")
          → (expired k.expires_at now ≡ false)
          → verify_secret crypto (token_of raw) k.hash ≢ some true)
  unfolding authenticate
  authenticate_lem =
      let (sound, complete) =
        first_accepted_lem crypto now (token_of raw) (candidate_keys store (token_of raw) s) in
      (
        λ i e.
            let (k, m, a, p) = sound i e in
            let (x, y, z) = (accepts_lem crypto now (token_of raw) k).0 a in (k, m, x, y, z, p),
        λ e k m a x v.
            absurd (cc (complete e k m, (accepts_lem crypto now (token_of raw) k).1 (a, x, v))),
      )

has_prefix_cases : (s p : Text) → (has_prefix s p ≡ true) ↔ ((rest : Text) × (s ≡ p ++ rest))
has_prefix_cases s p =
    (λ h. (drop_prefix s p, sym (append-drop_prefix s p h)), λ h. rw h.1 (has_prefix-append p h.0))

grants_iff :
    (required s : Text)
    → (grants required s ≡ true) ↔ (
        (s ≡ required)
        ⊎ (s ≡ lit "*")
        ⊎ ((has_suffix s (lit ":*") ≡ true)
            × (rest : Text) × (required ≡ trim_suffix s (lit "*") ++ rest)))
unfolding grants
grants_iff required s = ground (
  arith,
  text_eq_iff s required,
  text_eq_iff s (lit "*"),
  has_prefix_cases required (trim_suffix s (lit "*")),
)

-- A scope is granted exactly if the identity holds it, holds the scope of everything, or holds a
-- pattern that ends in ":*" and, without the star, begins it.
pub require_scope_iff :
    (i : Identity) (required : Text)
    → (require_scope i required ≡ true) ↔ (
        (s : Text) × Elem s i.scopes
        × ((s ≡ required)
            ⊎ (s ≡ lit "*")
            ⊎ ((has_suffix s (lit ":*") ≡ true)
                × (rest : Text) × (required ≡ trim_suffix s (lit "*") ++ rest))))
unfolding require_scope
require_scope_iff i required = (
  λ h.
      let (s, m, g) = Elem-of_any (grants required) i.scopes h in
      (s, m, (grants_iff required s).0 g),
  λ h. any_of_Elem (grants required) h.0 i.scopes h.1 ((grants_iff required h.0).1 h.2),
)
