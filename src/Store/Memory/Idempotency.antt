-- ===== src/Store/Memory/Idempotency.antt =====
-- internal/store/memory/memory.go: the idempotency records, their composite keys and their expiry.
use g_lm.Prelude.{
  ◌≡◌, refl, inl, inr, Bool, false, ◌&&◌, Option, none, some, [], ◌∷◌, arith, any, ltb, ◌==◌,
  if◌then◌else◌, Bool-cases, ◌∙◌,
}
use g_lm.Prelude.Texts.{Text, text_eq, text_eq_iff}
use g_lm.Prelude.Maps.{Map, lookup, lookup-insert, lookup-erase, IsMap}
use g_lm.Model.Records.{Time, IdempotencyRecord}
use g_lm.Store.Memory.State.{MemoryStore, id_key, cleanup_from}
use g_lm.Store.Memory.{create_idempotency_record, get_idempotency_record, cleanup_expired}

abbrev pub has_colon : Text → Bool
has_colon = any (λ c. c == b':')

-- Tenants without a colon in their name have keys of their own.
pub id_key-injective :
    (t t' k k' : Text)
    → has_colon t ≡ false
    → has_colon t' ≡ false
    → id_key t k ≡ id_key t' k'
    → (t ≡ t') × (k ≡ k')
unfolding id_key any
id_key-injective [] [] k k' h h' e = ground arith
id_key-injective [] (c ∷ t') k k' h h' e = ground arith
id_key-injective (c ∷ t) [] k k' h h' e = ground arith
id_key-injective (c ∷ t) (d ∷ t') k k' h h' e = ground (arith, id_key-injective t t' k k')

abbrev expires : Time → Text → Map IdempotencyRecord → Bool
expires now k = any (λ e. text_eq e.0 k && ltb e.1.expires_at now)

lookup-cleanup_from :
    (now : Time) (k : Text) (es m : Map IdempotencyRecord)
    → lookup k (cleanup_from now es m) ≡ (if expires now k es then none else lookup k m)
unfolding cleanup_from any
lookup-cleanup_from now k [] m = refl
lookup-cleanup_from now k ((j, v) ∷ es) m = elim (Bool-cases (ltb v.expires_at now)) [
  | inl e ↦ rw (e, lookup-cleanup_from now k es, lookup-erase) (ground arith)
  | inr e ↦ rw (e, lookup-cleanup_from now k es) (ground arith)
]

-- What is left of an entry at the time `now`.
abbrev pub live : Time → Option IdempotencyRecord → Option IdempotencyRecord
live now none = none
live now (some r) = if ltb r.expires_at now then none else some r

not_expires_of_none :
    (now : Time) (k : Text) (m : Map IdempotencyRecord)
    → lookup k m ≡ none
    → expires now k m ≡ false
unfolding any lookup
not_expires_of_none now k [] h = refl
not_expires_of_none now k ((j, v) ∷ m) h = ground (arith, not_expires_of_none now k m)

-- With distinct keys the entry that is ranged over is the entry that is found.
expires-lookup :
    (now : Time) (k : Text) (m : Map IdempotencyRecord)
    → IsMap m
    → (if expires now k m then none else lookup k m) ≡ live now (lookup k m)
unfolding any lookup
expires-lookup now k [] h = refl
expires-lookup now k ((j, v) ∷ m) h =
    ground (arith, text_eq_iff j k, expires-lookup now k m h.1, not_expires_of_none now k m)

module _ {F : Type 0} where
  -- For tenants without a colon: a read finds a new record if it names the record's tenant and key,
  -- and otherwise what it found before.
  pub get-create_idempotency_record :
      (uuid : Text) (now : Time) (r : IdempotencyRecord) (t k : Text) (s : MemoryStore F)
      → has_colon r.tenant_id ≡ false
      → has_colon t ≡ false
      → get_idempotency_record t k (create_idempotency_record uuid now r s).0 ≡ (
          if text_eq r.tenant_id t && text_eq r.idempotency_key k
          then some (create_idempotency_record uuid now r s).1
          else get_idempotency_record t k s)
  unfolding get_idempotency_record create_idempotency_record
  get-create_idempotency_record uuid now r t k s h h' = rw lookup-insert (
      ground (
        arith,
        text_eq_iff r.tenant_id t,
        text_eq_iff r.idempotency_key k,
        text_eq_iff (id_key r.tenant_id r.idempotency_key) (id_key t k),
        id_key-injective r.tenant_id t r.idempotency_key k h h',
      ))

  -- After a cleanup at `now` a read finds the records that do not expire before `now`, and no other.
  pub get-cleanup_expired :
      (now : Time) (t k : Text) (s : MemoryStore F)
      → IsMap s.idempotency
      → get_idempotency_record t k (cleanup_expired now s) ≡ live now (get_idempotency_record t k s)
  unfolding get_idempotency_record cleanup_expired
  get-cleanup_expired now t k s h =
      lookup-cleanup_from now (id_key t k) s.idempotency s.idempotency
      ∙ expires-lookup now (id_key t k) s.idempotency h
