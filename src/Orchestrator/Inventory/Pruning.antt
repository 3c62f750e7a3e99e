-- ===== src/Orchestrator/Inventory/Pruning.antt =====
-- internal/orchestrator/router.go: what pruning may delete.
use g_lm.Prelude.{
  ℕ, ◌+◌, ◌≤◌, Bool, true, false, none, List, [], ◌∷◌, not, ltb, length, Elem, Elem-keep, Elem-map,
  All, ◌≡◌, ◌≢◌, ◌⊎◌, inl, inr, refl, arith, Bool-cases, subst,
}
use g_lm.Prelude.Int.{pos}
use g_lm.Prelude.Texts.{Text, text_eq, text_eq_iff, is_empty, to_lower, trim_space}
use g_lm.Prelude.Maps.{
  Map, values, lookup, IsMap, lookup_of_Elem, Elem-erase, Elem-erase_ne, length-le-erase,
  erase-IsMap, Elem-values,
}
use g_lm.Prelude.Floats.{Float64}
use g_lm.Prelude.Sorting.{IsSorted, sort_slice-IsSorted, Elem-sort_slice}
use g_lm.Model.Records.{Time}
use g_lm.Orchestrator.Router.{Router, RouterConfig}
use g_lm.Orchestrator.Candidates.{is_some}
use g_lm.Orchestrator.Lookup.{Order, IsRange, to_available_map}
use g_lm.Orchestrator.Lookup.Facts.{to_available_map_lem}
use g_lm.Orchestrator.Inventory.{
  Control, Pruned, is_protected, used_at, prunable_models, prune_loop, stop_test, delete_candidate,
  clean_inventory_if_needed, usable_stats, set_snapshot,
}

-- An inventory's entries stand under their names in lower case, and no name is blank.
abbrev pub IsInventory : Map Text → Type 0
IsInventory m =
    (e : Text × Text) → Elem e m → (e.0 ≡ to_lower e.1) × (is_empty (trim_space e.1) ≡ false)

module _ {F : Type 0} where
  pub prunable_models_lem :
      (order : Order)
      → IsRange order
      → (r : Router F) (m : Map Text)
      → ((id : Text)
          → Elem id (prunable_models order r m)
          → ((k : Text) × Elem (k, id) m) × (is_protected r id ≡ false))
        × IsSorted (λ a b. ltb (used_at r a) (used_at r b)) (prunable_models order r m)
  unfolding prunable_models
  prunable_models_lem order range r m = (
    λ id h.
        let less : Text → Text → Bool = λ a b. ltb (used_at r a) (used_at r b) in
        let (here, t) =
          Elem-keep (λ i. not (is_protected r i)) id (values (order [] m))
            (Elem-sort_slice less id _ h) in
        let (e, found, same) = Elem-map (λ (x : Text × Text). x.1) id (order [] m) here in
        ((e.0, subst (λ v. Elem (e.0, v) m) same ((range [] m e).0 found)), ground arith),
    sort_slice-IsSorted _ (λ x y h. ground arith) (λ x y z h k. ground arith) _,
  )

  protected_cong :
      (r : Router F) (a b : Text) → to_lower a ≡ to_lower b → is_protected r a ≡ is_protected r b
  protected_cong r a b e = rw e

module _ (fl : Float64) {H : Type 0} (control : Control H) where
  open fl use {F}

  delete-keeps :
      (r : Router F) (id v : Text) (p : Pruned H)
      → is_protected r id ≡ false
      → is_protected r v ≡ true
      → Elem (to_lower v, v) p.available
      → Elem (to_lower v, v) (delete_candidate fl control id p).available
  unfolding delete_candidate
  delete-keeps r id v p un pr h =
      let other : text_eq (to_lower v) (to_lower id) ≡ false =
        ground (arith, text_eq_iff (to_lower v) (to_lower id), protected_cong r v id) in
      ground (arith, Elem-erase_ne (to_lower id) (to_lower v) v p.available other h)

  delete_sound :
      (id : Text) (p : Pruned H) (e : Text × Text)
      → Elem e (delete_candidate fl control id p).available
      → Elem e p.available
  unfolding delete_candidate
  delete_sound id p (k, v) h = ground (arith, Elem-erase (to_lower id) k v p.available)

  delete-length :
      (id : Text) (p : Pruned H)
      → IsMap p.available
      → IsMap (delete_candidate fl control id p).available
        × (length p.available ≤ length (delete_candidate fl control id p).available + 1)
  unfolding delete_candidate
  delete-length id p v =
      ground (
        arith,
        erase-IsMap (to_lower id) p.available v,
        length-le-erase (to_lower id) p.available v,
      )

  prune_loop-keeps :
      (r : Router F) (stats : Bool) (ids : List Text) (p : Pruned H) (v : Text)
      → All (λ id. is_protected r id ≡ false) ids
      → is_protected r v ≡ true
      → Elem (to_lower v, v) p.available
      → Elem (to_lower v, v) (prune_loop fl control r.cfg stats ids p).available
  unfolding prune_loop
  prune_loop-keeps r stats [] p v un pr h = h
  prune_loop-keeps r stats (id ∷ ids) p v un pr h =
      elim (Bool-cases (stop_test fl control r.cfg stats p).0) [
        | inl e' ↦ rw (e', prune_loop) h
        | inr e' ↦
            rw (e', prune_loop)
              (prune_loop-keeps r stats ids _ v un.1 pr (delete-keeps r id v _ un.0 pr h))
      ]

  prune_loop_sound :
      (cfg : RouterConfig F) (stats : Bool) (ids : List Text) (p : Pruned H) (e : Text × Text)
      → Elem e (prune_loop fl control cfg stats ids p).available
      → Elem e p.available
  unfolding prune_loop
  prune_loop_sound cfg stats [] p e h = h
  prune_loop_sound cfg stats (id ∷ ids) p e h =
      elim (Bool-cases (stop_test fl control cfg stats p).0) [
        | inl e' ↦ rw (e', prune_loop) at h
        | inr e' ↦
            delete_sound id _ e (prune_loop_sound cfg stats ids _ e (rw (e', prune_loop) at h))
      ]

  more_than_max :
      (cfg : RouterConfig F) (n : ℕ) (p : Pruned H) (k : ℕ)
      → cfg.max_models ≡ pos n
      → (stop_test fl control cfg false p).0 ≡ false
      → length p.available ≤ k + 1
      → n ≤ k
  unfolding stop_test
  more_than_max cfg n p k e t one = ground arith

  -- Without figures from the host, pruning leaves at least as many models as the configured maximum.
  pub prune_loop-bound :
      (cfg : RouterConfig F) (n : ℕ) (ids : List Text) (p : Pruned H)
      → cfg.max_models ≡ pos n
      → IsMap p.available
      → n ≤ length p.available
      → n ≤ length (prune_loop fl control cfg false ids p).available
  unfolding prune_loop
  prune_loop-bound cfg n [] p e v h = h
  prune_loop-bound cfg n (id ∷ ids) p e v h =
      elim (Bool-cases (stop_test fl control cfg false p).0) [
        | inl t ↦ rw (t, prune_loop) h
        | inr t ↦
            let asked : Pruned H = record p { host = (stop_test fl control cfg false p).1 } in
            let (kept, one) = delete-length id asked v in
            rw (t, prune_loop)
              (prune_loop-bound cfg n ids _ e kept (more_than_max cfg n p _ e t one))
      ]

  after_sound :
      (order : Order)
      → IsRange order
      → (m : Map Text) (e : Text × Text) → Elem e (to_available_map (values (order [] m)))
      → (k : Text) × Elem (k, e.1) m
  after_sound order range m (k, v) h =
      let (here, _, _) = (to_available_map_lem (values (order [] m))).0 k v h in
      let (x, found, same) = Elem-map (λ (x : Text × Text). x.1) v (order [] m) here in
      (x.0, subst (λ w. Elem (x.0, w) m) same ((range [] m x).0 found))

  after-keeps :
      (order : Order)
      → IsRange order
      → (m : Map Text) (k v : Text) → is_empty (trim_space v) ≡ false
      → Elem (k, v) m
      → lookup (to_lower v) (to_available_map (values (order [] m))) ≢ none
  after-keeps order range m k v b h =
      (to_available_map_lem (values (order [] m))).1 v
        (Elem-values (k, v) (order [] m) ((range [] m (k, v)).1 h)) b

  -- What pruning does to the map of a router's inventory.
  abbrev Survives : Router F → Map Text → Type 0
  Survives r m' =
      ((e : Text × Text) → Elem e m' → (k : Text) × Elem (k, e.1) r.inventory.available)
      × ((e : Text × Text)
          → Elem e r.inventory.available
          → is_protected r e.1 ≡ true
          → lookup (to_lower e.1) m' ≢ none)

  left_after : Order → Router F → H → Map Text
  left_after order r h =
      let q = control.host_stats h in
      let p : Pruned H = record {
        available = r.inventory.available;
        last_used = r.last_used;
        host = q.1;
      } in
      to_available_map (
        values (
          order []
            (prune_loop fl control r.cfg (is_some (usable_stats q.0))
              (prunable_models order r r.inventory.available) p).available))

  clean_cases :
      (order : Order) (now : Time) (r : Router F) (h : H)
      → let m' = (clean_inventory_if_needed fl control order now r h).0.inventory.available in
        (r.inventory.available ≡ m') ⊎ (left_after order r h ≡ m')
  unfolding clean_inventory_if_needed set_snapshot left_after
  clean_cases order now r h = ground arith

  All-of_forall :
      (P : Text → Type 0) (ids : List Text) → ((id : Text) → Elem id ids → P id) → All P ids
  All-of_forall P [] h = tt
  All-of_forall P (id ∷ ids) h = (h id (inl refl), All-of_forall P ids (λ i m. h i (inr m)))

  left_after-Survives :
      (order : Order)
      → IsRange order
      → (r : Router F) (h : H) → IsInventory r.inventory.available
      → Survives r (left_after order r h)
  unfolding left_after
  left_after-Survives order range r h inv =
      let m = r.inventory.available in
      let q = control.host_stats h in
      let ids = prunable_models order r m in
      let stats = is_some (usable_stats q.0) in
      let p : Pruned H = record { available = m; last_used = r.last_used; host = q.1 } in
      let kept = (prune_loop fl control r.cfg stats ids p).available in
      let un =
        All-of_forall (λ id. is_protected r id ≡ false) ids
          (λ id here. ((prunable_models_lem order range r m).0 id here).1) in
      (
        λ e here.
            let (k, found) = after_sound order range kept e here in
            (k, prune_loop_sound r.cfg stats ids p (k, e.1) found),
        λ e here pr. after-keeps order range kept (to_lower e.1) e.1 (inv e here).1 (
            prune_loop-keeps r stats ids p e.1 un pr
              (subst (λ k. Elem (k, e.1) m) (inv e here).0 here)),
      )

  -- Pruning a sound inventory: every model that is left was there before, and each default, fallback
  -- or ideal model that was there before is still found under its name.
  pub clean_inventory_if_needed_lem :
      (order : Order)
      → IsRange order
      → (now : Time) (r : Router F) (h : H) → IsInventory r.inventory.available
      → let m' = (clean_inventory_if_needed fl control order now r h).0.inventory.available in
        ((e : Text × Text) → Elem e m' → (k : Text) × Elem (k, e.1) r.inventory.available)
        × ((e : Text × Text)
            → Elem e r.inventory.available
            → is_protected r e.1 ≡ true
            → lookup (to_lower e.1) m' ≢ none)
  clean_inventory_if_needed_lem order range now r h inv = elim (clean_cases order now r h) [
    | inl same ↦ subst (Survives r) same (
      λ e here. (e.0, here),
      λ e here _.
          lookup_of_Elem (to_lower e.1) e.1 r.inventory.available
            (subst (λ k. Elem (k, e.1) r.inventory.available) (inv e here).0 here),
    )
    | inr less ↦ subst (Survives r) less (left_after-Survives order range r h inv)
  ]
