-- ===== src/Idempotency/Caching.antt =====
-- internal/idempotency/idempotency.go: a read after a save.
use g_lm.Prelude.{◌≡◌, false, ◌&&◌, none, some, ◌+◌, ltb, arith, if◌then◌else◌}
use g_lm.Prelude.Texts.{Text, text_eq, text_eq_iff}
use g_lm.Prelude.Maps.{lookup-insert}
use g_lm.Model.Records.{Time}
use g_lm.Model.Chat.{ChatCompletionResponse}
use g_lm.Store.Memory.State.{id_key}
use g_lm.Store.Memory.Idempotency.{has_colon, id_key-injective}
use g_lm.Idempotency.{Digest, RecordStore, Service, cache_key, get, save}

cache_key-injective :
    (t t' k k' : Text)
    → has_colon t ≡ false
    → has_colon t' ≡ false
    → cache_key t k ≡ cache_key t' k'
    → (t ≡ t') × (k ≡ k')
unfolding cache_key id_key
cache_key-injective t t' k k' h h' e = id_key-injective t t' k k' h h' e

module _ {S : Type 0} (rs : RecordStore S) (digest : Digest) where
  -- For tenants without a colon in their name, and whatever the store answers: after a save a read of
  -- the same tenant and key gives the saved response and the hash of its request until the time to
  -- live is over, and then nothing; a read of another tenant or key gives what it gave before.
  pub get-save :
      (now later : Time) (tenant key hash t k : Text) (resp : ChatCompletionResponse)
      (s : Service S)
      → has_colon tenant ≡ false
      → has_colon t ≡ false
      → get later t k (save rs digest now tenant key hash resp s).0 ≡ (
          if text_eq tenant t && text_eq key k
          then (if ltb (now + s.ttl) later then none else some (resp, hash))
          else get later t k s)
  unfolding get save
  get-save now later tenant key hash t k resp s h h' = rw lookup-insert (
      ground (
        arith,
        text_eq_iff tenant t,
        text_eq_iff key k,
        text_eq_iff (cache_key tenant key) (cache_key t k),
        cache_key-injective tenant t key k h h',
      ))
