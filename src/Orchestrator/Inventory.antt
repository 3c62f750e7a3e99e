-- ===== src/Orchestrator/Inventory.antt =====
-- internal/orchestrator/router.go: the reconciliation of the inventory, its pruning, and the end of a
-- background pull. The client of the model host (interface InventoryControlClient) is the parameter
-- `Control`, over a state of the host that its calls change.
pub mod Pruning
pub mod Pulls
use g_lm.Prelude.{
  ℕ, Bool, true, false, ◌||◌, ◌&&◌, Option, none, some, List, [], ◌∷◌, ◌++◌, any, keep, map, not,
  if◌then◌else◌, ltb, leb, length,
}
use g_lm.Prelude.Int.{ℤ, pos, leb_ℤ}
use g_lm.Prelude.Texts.{Text, lit, text_eq, is_empty, to_lower, trim_space}
use g_lm.Prelude.Maps.{Map, values, lookup, insert, erase}
use g_lm.Prelude.Floats.{Float64}
use g_lm.Prelude.Sorting.{sort_slice}
use g_lm.Model.Records.{Time}
use g_lm.Orchestrator.Classifier.{general, coding_reasoning, light_qa, extraction_classification}
use g_lm.Orchestrator.Router.{Router, RouterConfig, Snapshot, ideal_models}
use g_lm.Orchestrator.Lookup.{Order, to_available_map}
use g_lm.Orchestrator.Candidates.{is_some}

-- What HostStats returns without an error.
pub record HostStats : Type 0 where
  pub disk_used_bytes : ℕ
  pub disk_total_bytes : ℕ
  pub available : Bool

pub record Control (H : Type 0) : Type 0 where
  pub list_models : H → Option (List Text) × H
  pub host_stats : H → Option HostStats × H
  pub delete_model : Text → H → Bool × H

-- err == nil && available && total > 0
abbrev pub usable_stats : Option HostStats → Option HostStats
usable_stats none = none
usable_stats (some st) = if st.available && ltb 0 st.disk_total_bytes then some st else none

name_if_any : Text → List Text → List Text
name_if_any m rest = if is_empty (trim_space m) then rest else to_lower (trim_space m) ∷ rest

abbrev pub time_or_zero : Option Time → Time
time_or_zero none = 0
time_or_zero (some t) = t

-- What the loop changes: the snapshot's map, the times of use, and the host.
pub record Pruned (H : Type 0) : Type 0 where
  pub available : Map Text
  pub last_used : Map Time
  pub host : H

module _ {F : Type 0} where
  unfoldable pub set_snapshot : List Text → Bool → Time → Router F → Router F
  set_snapshot models stale now r = record r {
    inventory = record { available = to_available_map models; updated_at = now; stale = stale };
  }

  unfoldable pub protected_models : Router F → List Text
  unfolding name_if_any ideal_models
  protected_models r = name_if_any r.default_model (
      name_if_any r.fallback_default (
        name_if_any (ideal_models r coding_reasoning) (
          name_if_any (ideal_models r extraction_classification)
            (name_if_any (ideal_models r light_qa) (name_if_any (ideal_models r general) [])))))

  abbrev pub is_protected : Router F → Text → Bool
  is_protected r id = any (text_eq (to_lower id)) (protected_models r)

  abbrev pub used_at : Router F → Text → Time
  used_at r id = time_or_zero (lookup (to_lower id) r.last_used)

  -- Least recently used first.
  unfoldable pub prunable_models : Order → Router F → Map Text → List Text
  prunable_models order r available =
      sort_slice (λ a b. ltb (used_at r a) (used_at r b))
        (keep (λ id. not (is_protected r id)) (values (order [] available)))

  unfoldable pub clear_resolved_in_flight : List Text → Router F → Router F
  clear_resolved_in_flight models r =
      let current = map (λ m. to_lower (trim_space m)) models in
      if is_empty models
      then r
      else record r { pull_in_flight = keep (λ k. not (any (text_eq k) current)) r.pull_in_flight }

module _ (fl : Float64) {H : Type 0} (control : Control H) where
  open fl use {F, le, of_int, div}

  abbrev pub usage_at_most : HostStats → F → Bool
  usage_at_most st mark = le (div (of_int st.disk_used_bytes) (of_int st.disk_total_bytes)) mark

  -- Whether the loop breaks before a candidate.
  pub enough : RouterConfig F → Option HostStats → Bool
  enough cfg none = false
  enough cfg (some st) = usage_at_most st cfg.storage_target_watermark

  -- The question of the loop before a candidate, with the host after it.
  pub stop_test : RouterConfig F → Bool → Pruned H → Bool × H
  unfolding enough
  stop_test cfg true p = let q = control.host_stats p.host in (enough cfg (usable_stats q.0), q.1)
  stop_test cfg false p = (leb_ℤ (pos (length p.available)) cfg.max_models, p.host)

  pub delete_candidate : Text → Pruned H → Pruned H
  delete_candidate id p =
      let q = control.delete_model id p.host in
      if q.0
      then record {
        available = erase (to_lower id) p.available;
        last_used = erase (to_lower id) p.last_used;
        host = q.1;
      }
      else record p { host = q.1 }

  unfoldable pub prune_loop : RouterConfig F → Bool → List Text → Pruned H → Pruned H
  prune_loop cfg stats [] p = p
  prune_loop cfg stats (id ∷ ids) p =
      let test = stop_test cfg stats p in
      let asked = record p { host = test.1 } in
      let rest = prune_loop cfg stats ids (delete_candidate id asked) in
      if test.0 then asked else rest

  -- Whether the inventory is within its bounds: by the disk, or by the number of models.
  within_bounds : RouterConfig F → Option HostStats → Map Text → Bool
  within_bounds cfg (some st) m = usage_at_most st cfg.storage_high_watermark
  within_bounds cfg none m = leb_ℤ (pos (length m)) cfg.max_models

  unfoldable pub clean_inventory_if_needed : Order → Time → Router F → H → Router F × H
  unfolding within_bounds
  clean_inventory_if_needed order now r h =
      let m = r.inventory.available in
      let q = control.host_stats h in
      let stats = usable_stats q.0 in
      let p =
        prune_loop r.cfg (is_some stats) (prunable_models order r m)
          (record { available = m; last_used = r.last_used; host = q.1 }) in
      if not r.cfg.jit_inventory_enabled || (not r.cfg.prune_enabled || not r.has_control)
      then (r, h)
      else if is_empty m
      then (r, h)
      else if within_bounds r.cfg stats m
      then (r, q.1)
      else (
        set_snapshot (values (order [] p.available)) false now
            (record r { last_used = p.last_used }),
        p.host,
      )

  reconciled : Order → Time → Router F → Option (List Text) × H → Router F × H
  reconciled order now r (none, h) =
      (record r { inventory = record (r.inventory) { stale = true } }, h)
  reconciled order now r (some models, h) =
      clean_inventory_if_needed order now
        (clear_resolved_in_flight models (set_snapshot models false now r)) h

  unfoldable pub reconcile_once : Order → Time → Router F → H → Router F × H
  unfolding reconciled
  reconcile_once order now r h =
      if r.has_control then reconciled order now r (control.list_models h) else (r, h)

  -- The goroutine of triggerBackgroundPull, from the answer of PullModel on: a pull that succeeded is
  -- followed by a reconciliation, and the key leaves the set in flight at the end.
  unfoldable pub finish_pull : Order → Text → Bool → Time → Router F → H → Router F × H
  finish_pull order key pulled now r h =
      let s = if pulled then reconcile_once order now r h else (r, h) in
      (record (s.0) { pull_in_flight = keep (λ k. not (text_eq k key)) s.0.pull_in_flight }, s.1)
