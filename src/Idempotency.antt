-- ===== src/Idempotency.antt =====
-- internal/idempotency/idempotency.go: the cache of responses by tenant and key, over the records of
-- the store. json.Marshal and sha256.Sum256 are the parameter `Digest`; the clock is read once in a
-- call.
pub mod Caching
mod Tests
use g_lm.Prelude.{
  ℕ, ◌+◌, ◌-◌, ◌/◌, ◌%◌, Bool, Option, none, some, List, [], ◌∷◌, ◌++◌, ltb, if◌then◌else◌,
}
use g_lm.Prelude.Texts.{Text, lit}
use g_lm.Prelude.Maps.{Map, lookup, insert}
use g_lm.Model.Records.{Time, IdempotencyRecord}
use g_lm.Model.Chat.{ChatCompletionResponse}

pub record Digest : Type 0 where
  pub marshal : ChatCompletionResponse → Text
  pub sha256 : Text → Text

-- The methods of internal/store/store.go that the service calls; none for an error.
pub record RecordStore (S : Type 0) : Type 0 where
  pub create_idempotency_record : IdempotencyRecord → S → S × Option IdempotencyRecord
  pub get_idempotency_record : Text → Text → S → Option IdempotencyRecord

pub record CacheItem : Type 0 where
  pub response : ChatCompletionResponse
  pub hash : Text
  pub expires : Time

pub record Service (S : Type 0) : Type 0 where
  pub store : S
  pub cache : Map CacheItem
  pub ttl : ℕ

abbrev pub hex_digit : ℕ → ℕ
hex_digit n = if ltb n 10 then b'0' + n else b'a' + (n - 10)

-- hex.EncodeToString
unfoldable pub hex : Text → Text
hex [] = []
hex (c ∷ s) = hex_digit (c / 16) ∷ (hex_digit (c % 16) ∷ hex s)

unfoldable pub request_hash : Digest → ChatCompletionResponse → Text
unfolding hex
request_hash digest v = hex (digest.sha256 (digest.marshal v))

unfoldable pub cache_key : Text → Text → Text
cache_key tenant_id key = tenant_id ++ (b':' ∷ key)

abbrev pub fresh : Time → Option CacheItem → Option (ChatCompletionResponse × Text)
fresh now none = none
fresh now (some item) = if ltb item.expires now then none else some (item.response, item.hash)

module _ {S : Type 0} where
  unfoldable pub new_service : S → ℕ → Service S
  new_service store ttl = record { store = store; cache = []; ttl = ttl }

  unfoldable pub get : Time → Text → Text → Service S → Option (ChatCompletionResponse × Text)
  unfolding cache_key lookup
  get now tenant_id key s = fresh now (lookup (cache_key tenant_id key) s.cache)

  module _ (rs : RecordStore S) where
    -- The service after the call, and what the store answered.
    unfoldable pub save :
        Digest
        → Time
        → Text
        → Text
        → Text
        → ChatCompletionResponse
        → Service S
        → Service S × Option IdempotencyRecord
    unfolding request_hash cache_key insert
    save digest now tenant_id key req_hash resp s =
        let item : CacheItem = record { response = resp; hash = req_hash; expires = now + s.ttl } in
        let made =
          rs.create_idempotency_record
            (record {
              id = [];
              tenant_id = tenant_id;
              idempotency_key = key;
              request_hash = req_hash;
              response_hash = request_hash digest resp;
              status = lit "completed";
              created_at = 0;
              expires_at = now + s.ttl;
            })
            s.store in
        (record s { store = made.0; cache = insert (cache_key tenant_id key) item s.cache }, made.1)

    unfoldable pub get_durable : Text → Text → Service S → Option IdempotencyRecord
    get_durable tenant_id key s = rs.get_idempotency_record tenant_id key s.store
