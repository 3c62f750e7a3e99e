-- ===== src/Store/Memory/ApiKeys.antt =====
-- internal/store/memory/memory.go: the API keys and their index by prefix.
use g_lm.Prelude.{
  ◌≡◌, refl, ◌⊎◌, inl, inr, none, some, List, [], ◌∷◌, ◌++◌, map, arith, Elem, Elem-append,
  Elem-map, Elem-append_right, if◌then◌else◌, Bool-cases, sym, subst, ap,
}
use g_lm.Prelude.Texts.{Text, text_eq, text_eq_iff, text_eq_refl}
use g_lm.Prelude.Maps.{lookup, lookup-insert, insert}
use g_lm.Model.Records.{Time, ApiKeyRecord}
use g_lm.Store.Memory.State.{MemoryStore, list_at, or_zero_key}
use g_lm.Store.Memory.{create_api_key, get_api_keys_by_prefix}

Elem-map_of : {A B : Type 0} (f : A → B) (a : A) (xs : List A) → Elem a xs → Elem (f a) (map f xs)
Elem-map_of f a [] h = absurd h
Elem-map_of f a (x ∷ xs) (inl e) = inl (ap f e)
Elem-map_of f a (x ∷ xs) (inr m) = inr (Elem-map_of f a xs m)

module _ {F : Type 0} where
  -- Each identifier that the index lists under a prefix belongs to a stored key with that prefix.
  pub record IsIndexed (s : MemoryStore F) : Type 0 where
    pub stored :
        (prefix id : Text)
        → Elem id (list_at (lookup prefix s.api_by_prefix))
        → (r : ApiKeyRecord) × (lookup id s.api_keys ≡ some r) × (r.prefix ≡ prefix) × (r.id ≡ id)

  indexed_before :
      (rec : ApiKeyRecord) (s : MemoryStore F) (uuid prefix id : Text)
      → Elem id (
          list_at (
            if text_eq rec.prefix prefix
            then some (list_at (lookup rec.prefix s.api_by_prefix) ++ uuid ∷ [])
            else lookup prefix s.api_by_prefix))
      → Elem id (list_at (lookup prefix s.api_by_prefix)) ⊎ ((id ≡ uuid) × (rec.prefix ≡ prefix))
  indexed_before rec s uuid prefix id m = elim (Bool-cases (text_eq rec.prefix prefix)) [
    | inl e ↦
        let p = (text_eq_iff rec.prefix prefix).0 e in
        elim (Elem-append id (list_at (lookup rec.prefix s.api_by_prefix)) (uuid ∷ [])
          (rw e at m)) [ inl old ↦ inl (rw p at old) | inr new ↦ inr (ground arith, p) ]
    | inr e ↦ inl (rw e at m)
  ]

  -- Creating a key under an identifier that no stored key has keeps the index sound.
  pub create_api_key-IsIndexed :
      (uuid : Text) (now : Time) (rec : ApiKeyRecord) (s : MemoryStore F)
      → lookup uuid s.api_keys ≡ none
      → IsIndexed s
      → IsIndexed (create_api_key uuid now rec s).0
  unfolding create_api_key
  create_api_key-IsIndexed uuid now rec s fresh v = record {
    stored = λ prefix id m.
        rw (lookup-insert uuid id)
          (elim (indexed_before rec s uuid prefix id (rw lookup-insert at m)) [
            | inl old ↦
                let (r, found, p, i) = v.stored prefix id old in
                (r, ground (arith, text_eq_iff uuid id), p, i)
            | inr (e, p) ↦ (
              record rec { id = uuid; created_at = now },
              ground (arith, text_eq_iff uuid id),
              p,
              sym e,
            )
          ]);
  }

  -- With a sound index the keys returned for a prefix all have that prefix.
  pub get_api_keys_by_prefix_sound :
      (prefix : Text) (s : MemoryStore F) (r : ApiKeyRecord)
      → IsIndexed s
      → Elem r (get_api_keys_by_prefix prefix s)
      → (r.prefix ≡ prefix) × (lookup r.id s.api_keys ≡ some r)
  unfolding get_api_keys_by_prefix
  get_api_keys_by_prefix_sound prefix s r v m =
      let (id, here, e) = Elem-map _ r _ m in
      let (r', found, p, i) = v.stored prefix id here in
      let e' : r' ≡ r = ground arith in (ground arith, ground arith)

  -- A created key is among the keys of its prefix.
  pub get-create_api_key :
      (uuid : Text) (now : Time) (rec : ApiKeyRecord) (s : MemoryStore F)
      → Elem
          (create_api_key uuid now rec s).1
          (get_api_keys_by_prefix rec.prefix (create_api_key uuid now rec s).0)
  unfolding create_api_key get_api_keys_by_prefix
  get-create_api_key uuid now rec s =
      let rec' : ApiKeyRecord = record rec { id = uuid; created_at = now } in
      let keys = insert uuid rec' s.api_keys in
      let ids = list_at (lookup rec.prefix s.api_by_prefix) ++ uuid ∷ [] in
      rw (lookup-insert rec.prefix rec.prefix, text_eq_refl rec.prefix)
        (subst (λ r. Elem r (map (λ id. or_zero_key (lookup id keys)) ids))
          (rw (lookup-insert uuid uuid rec' s.api_keys, text_eq_refl uuid))
          (Elem-map_of (λ id. or_zero_key (lookup id keys)) uuid ids
            (Elem-append_right uuid (list_at (lookup rec.prefix s.api_by_prefix)) (uuid ∷ [])
              (inl refl))))
