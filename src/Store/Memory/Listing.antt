-- ===== src/Store/Memory/Listing.antt =====
-- internal/store/memory/memory.go: the sorted and limited lists.
use g_lm.Prelude.{
  ℕ, zero, suc, ◌≤◌, ◌≡◌, ◌⊎◌, inl, inr, Bool, true, false, List, [], ◌∷◌, arith, Elem, All,
  Elem-take, Elem-keep, Elem-keep_of, length, take, length-take-le, ltb, ap, refl, ◌&&◌,
  All_of_Elem, Bool-cases,
}
use g_lm.Prelude.Int.{ℤ, pos, pos_part, ltb_ℤ}
use g_lm.Prelude.Texts.{Text, text_eq_iff}
use g_lm.Prelude.Maps.{values}
use g_lm.Prelude.Sorting.{
  sort_slice, IsSorted, sort_slice-IsSorted, Elem-sort_slice, Elem-sort_slice_of,
}
use g_lm.Model.Records.{Time, MemoryNode}
use g_lm.Store.Memory.State.{MemoryStore, limited}
use g_lm.Store.Memory.{list_memory_nodes, in_session}

module _ {A : Type 0} where
  pub Elem-limited : (limit : ℤ) (a : A) (xs : List A) → Elem a (limited limit xs) → Elem a xs
  Elem-limited limit a xs h = ground (arith, Elem-take (pos_part limit) a xs)

  pub length-limited : (n : ℕ) (xs : List A) → length (limited (pos (suc n)) xs) ≤ suc n
  length-limited n xs = ground (arith, length-take-le (suc n) xs)

  All-take {κ} : (P : A → Type κ) (n : ℕ) (xs : List A) → All P xs → All P (take n xs)
  All-take P zero xs h = tt
  All-take P (suc n) [] h = tt
  All-take P (suc n) (x ∷ xs) h = (h.0, All-take P n xs h.1)

  IsSorted-take :
      (less : A → A → Bool) (n : ℕ) (xs : List A) → IsSorted less xs → IsSorted less (take n xs)
  IsSorted-take less zero xs h = tt
  IsSorted-take less (suc n) [] h = tt
  IsSorted-take less (suc n) (x ∷ xs) h =
      (All-take (λ y. less y x ≡ false) n xs h.0, IsSorted-take less n xs h.1)

  -- Newest first by the time that `at` reads, for every limit.
  pub limited-IsSorted :
      (at : A → Time) (limit : ℤ) (xs : List A)
      → IsSorted
          (λ a b. ltb (at b) (at a))
          (limited limit (sort_slice (λ a b. ltb (at b) (at a)) xs))
  limited-IsSorted at limit xs =
      let less : A → A → Bool = λ a b. ltb (at b) (at a) in
      let sorted =
        sort_slice-IsSorted less (λ x y h. ground arith) (λ x y z h k. ground arith) xs in
      ground (arith, sorted, IsSorted-take less (pos_part limit) (sort_slice less xs) sorted)

  -- What a list cut after `n` leaves out comes with a full one, of elements at least as new.
  Elem-or_newer :
      (at : A → Time) (n : ℕ) (a : A) (xs : List A)
      → IsSorted (λ x y. ltb (at y) (at x)) xs
      → Elem a xs
      → Elem a (take n xs) ⊎ ((length (take n xs) ≡ n) × All (λ x. at a ≤ at x) (take n xs))
  Elem-or_newer at zero a xs s m = inr (refl, tt)
  Elem-or_newer at (suc n) a [] s m = absurd m
  Elem-or_newer at (suc n) a (x ∷ xs) s (inl e) = inl (inl e)
  Elem-or_newer at (suc n) a (x ∷ xs) s (inr m) = elim (Elem-or_newer at n a xs s.1 m) [
    | inl k ↦ inl (inr k)
    | inr (full, newer) ↦ inr (
      ap suc full,
      (ground (arith, All_of_Elem (λ y. ltb (at x) (at y) ≡ false) xs s.0 m), newer),
    )
  ]

  -- A positive limit cuts or leaves the list as it is.
  limited_cases {κ} :
      (n : ℕ) (xs : List A) (P : List A → Type κ)
      → P (take (suc n) xs)
      → P xs
      → P (limited (pos (suc n)) xs)
  limited_cases n xs P cut whole =
      elim (Bool-cases (ltb_ℤ (pos 0) (pos (suc n)) && ltb_ℤ (pos (suc n)) (pos (length xs)))) [
        | inl e ↦ rw e cut
        | inr e ↦ rw e whole
      ]

  pub Elem-limited_or_newer :
      (at : A → Time) (n : ℕ) (a : A) (xs : List A)
      → let less = λ (x y : A). ltb (at y) (at x) in
        let out = limited (pos (suc n)) (sort_slice less xs) in
        Elem a xs → Elem a out ⊎ ((length out ≡ suc n) × All (λ x. at a ≤ at x) out)
  Elem-limited_or_newer at n a xs m =
      let less : A → A → Bool = λ x y. ltb (at y) (at x) in
      let sorted =
        sort_slice-IsSorted less (λ x y h. ground arith) (λ x y z h k. ground arith) xs in
      let here = Elem-sort_slice_of less a xs m in
      let cut = Elem-or_newer at (suc n) a (sort_slice less xs) sorted here in
      limited_cases n (sort_slice less xs)
        (λ (out : List A). Elem a out ⊎ ((length out ≡ suc n) × All (λ x. at a ≤ at x) out)) cut
        (inl here)

module _ {F : Type 0} where
  in_session_sound :
      (t sid : Text) (n : MemoryNode F)
      → in_session t sid n ≡ true
      → (n.tenant_id ≡ t) × ((sid ≡ []) ⊎ (n.session_id ≡ sid))
  in_session_sound t [] n e = ground (arith, text_eq_iff n.tenant_id t)
  in_session_sound t (c ∷ sid) n e =
      ground (arith, text_eq_iff n.tenant_id t, text_eq_iff n.session_id (c ∷ sid))

  pub list_memory_nodes_lem :
      (t sid : Text) (s : MemoryStore F)
      → ((limit : ℤ) (n : MemoryNode F)
          → Elem n (list_memory_nodes t sid limit s)
          → Elem n (values s.memory_nodes)
            × (n.tenant_id ≡ t)
            × ((sid ≡ []) ⊎ (n.session_id ≡ sid)))
        × ((limit : ℤ)
            → IsSorted (λ a b. ltb b.updated_at a.updated_at) (list_memory_nodes t sid limit s))
        × ((k : ℕ) → length (list_memory_nodes t sid (pos (suc k)) s) ≤ suc k)
        × ((n : MemoryNode F)
            → Elem n (values s.memory_nodes)
            → in_session t sid n ≡ true
            → Elem n (list_memory_nodes t sid (pos 0) s))
  unfolding list_memory_nodes
  list_memory_nodes_lem t sid s = (
    λ limit n m.
        let k =
          Elem-keep (in_session t sid) n (values s.memory_nodes)
            (Elem-sort_slice _ n _ (Elem-limited limit n _ m)) in
        let (tenant, session) = in_session_sound t sid n k.1 in (k.0, tenant, session),
    λ limit. limited-IsSorted (λ n. n.updated_at) limit _,
    λ k. length-limited k _,
    λ n m e. Elem-sort_slice_of _ n _ (Elem-keep_of (in_session t sid) n _ m e),
  )
