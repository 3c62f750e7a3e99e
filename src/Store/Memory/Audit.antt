-- ===== src/Store/Memory/Audit.antt =====
-- internal/store/memory/memory.go: the audit events, as CreateAuditEvent files them and ListAuditEvents
-- lists them.
use mathlib.Core.List.{append_assoc, append-nil}
use g_lm.Prelude.{
  ℕ, suc, ◌≤◌, ◌≡◌, ◌⊎◌, ◌∙◌, subst, refl, sym, inl, inr, Bool, List, [], ◌∷◌, ◌++◌, Elem, All,
  Elem-keep, Elem-keep_of, Elem-append_right, Elem-append_left, length, keep, ltb, Bool-cases,
}
use g_lm.Prelude.Int.{pos}
use g_lm.Prelude.Texts.{Text, text_eq, text_eq_iff, text_eq_refl}
use g_lm.Prelude.Maps.{lookup, lookup-insert}
use g_lm.Prelude.Sorting.{IsSorted, Elem-sort_slice, Elem-sort_slice_of}
use g_lm.Model.Records.{Time, AuditEvent}
use g_lm.Store.Memory.State.{MemoryStore, list_at, stamped_at}
use g_lm.Store.Memory.{new, create_audit_event, list_audit_events}
use g_lm.Store.Memory.Listing.{
  Elem-limited, length-limited, limited-IsSorted, Elem-limited_or_newer,
}

-- The events that a history of calls of CreateAuditEvent returns, each call with its identifier and time.
abbrev pub recorded : List (Text × Time × AuditEvent) → List AuditEvent
recorded [] = []
recorded ((uuid, now, ev) ∷ calls) =
    record ev { id = uuid; timestamp = stamped_at now ev.timestamp } ∷ recorded calls

abbrev of_tenant : Text → AuditEvent → Bool
of_tenant t e = text_eq e.tenant_id t

module _ {F : Type 0} where
  -- The store after such a history.
  abbrev pub record_all : List (Text × Time × AuditEvent) → MemoryStore F → MemoryStore F
  record_all [] s = s
  record_all ((uuid, now, ev) ∷ calls) s = record_all calls (create_audit_event uuid now ev s).0

  events_recorded :
      (t : Text) (calls : List (Text × Time × AuditEvent)) (s : MemoryStore F)
      → list_at (lookup t (record_all calls s).audit_by_tenant)
        ≡ list_at (lookup t s.audit_by_tenant) ++ keep (of_tenant t) (recorded calls)
  unfolding keep create_audit_event
  events_recorded t [] s = sym (append-nil (list_at (lookup t s.audit_by_tenant)))
  events_recorded t ((uuid, now, ev) ∷ calls) s =
      let later = events_recorded t calls (create_audit_event uuid now ev s).0 in
      elim (Bool-cases (text_eq ev.tenant_id t)) [
        | inl same ↦
            let p = (text_eq_iff ev.tenant_id t).0 same in
            let filed : AuditEvent = record ev {
              id = uuid;
              tenant_id = t;
              timestamp = stamped_at now ev.timestamp;
            } in
            let old = list_at (lookup t s.audit_by_tenant) in
            later
            ∙ rw (lookup-insert, same, p)
                (append_assoc old (filed ∷ []) (keep (of_tenant t) (recorded calls)))
        | inr other ↦ later ∙ rw (lookup-insert, other) refl
      ]

  -- An unlimited listing after a new event has that event, and all events that it had before.
  pub list-create_audit_event :
      (uuid : Text) (now : Time) (ev e : AuditEvent) (s : MemoryStore F)
      → ((create_audit_event uuid now ev s).1 ≡ e)
        ⊎ Elem e (list_audit_events ev.tenant_id (pos 0) s)
      → Elem e (list_audit_events ev.tenant_id (pos 0) (create_audit_event uuid now ev s).0)
  unfolding list_audit_events create_audit_event
  list-create_audit_event uuid now ev e s m = Elem-sort_slice_of _ e _ (
      rw (lookup-insert ev.tenant_id ev.tenant_id, text_eq_refl ev.tenant_id)
        (elim m [
          | inl new ↦
              Elem-append_right e (list_at (lookup ev.tenant_id s.audit_by_tenant)) _ (inl new)
          | inr old ↦
              Elem-append_left e (list_at (lookup ev.tenant_id s.audit_by_tenant)) _
                (Elem-sort_slice _ e _ old)
        ]))

-- After any history of calls of CreateAuditEvent from the new store, a listing with a positive limit
-- holds recorded events of its tenant alone, newest first, and at most as many as the limit; and
-- a recorded event of the tenant that it leaves out finds the limit reached, by events all of
-- which are at least as new.
pub list_audit_events_lem :
    (F : Type 0) (t : Text) (n : ℕ) (calls : List (Text × Time × AuditEvent))
    → let listed = list_audit_events t (pos (suc n)) (record_all calls (new {F = F})) in
      ((e : AuditEvent) → Elem e listed → Elem e (recorded calls) × (e.tenant_id ≡ t))
      × IsSorted (λ a b. ltb b.timestamp a.timestamp) listed
      × (length listed ≤ suc n)
      × ((e : AuditEvent)
          → Elem e (recorded calls)
          → e.tenant_id ≡ t
          → Elem e listed ⊎ ((length listed ≡ suc n) × All (λ x. e.timestamp ≤ x.timestamp) listed))
unfolding list_audit_events new lookup
list_audit_events_lem F t n calls =
    let filed = events_recorded t calls (new {F = F}) in
    let events = list_at (lookup t (record_all calls (new {F = F})).audit_by_tenant) in
    (
      λ e m.
          let (own, here) = Elem-keep (of_tenant t) e (recorded calls) (
            subst (λ es. Elem e es) filed
              (Elem-sort_slice _ e _ (Elem-limited (pos (suc n)) e _ m))) in
          (own, (text_eq_iff e.tenant_id t).0 here),
      limited-IsSorted (λ (e : AuditEvent). e.timestamp) (pos (suc n)) events,
      length-limited n _,
      λ e m own.
          Elem-limited_or_newer (λ (x : AuditEvent). x.timestamp) n e events
            (subst (λ es. Elem e es) (sym filed)
              (Elem-keep_of (of_tenant t) e (recorded calls) m
                ((text_eq_iff e.tenant_id t).1 own))),
    )
