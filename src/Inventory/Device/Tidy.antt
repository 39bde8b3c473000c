-- ===== src/Inventory/Device/Tidy.antt =====
-- What holds of every device that the program builds up.
pub mod Kept
use otscout.Asset.Addresses.{Asset, Evidence, Service, Time}
use otscout.Asset.Identity.{merge, merge_string}
use otscout.Inventory.Device.{
  same_slot, fold_service, place_service, add_service, touch, add_sorted, add_source, add_tag,
  add_evidence, add_services, add_all_evidence, add_tags, add_sources, fill_in, merge_asset,
  evidence_id,
}
use otscout.Match.Attach.Distinct.{
  Ascending, Apart, Away, Away-nothing, sort_onto-Ascending, text_eq_swap,
}
use otscout.Match.Candidate.{stable_sort, text_lt}
use otscout.Match.Fields.{has_key}
use otscout.Normalize.Version.Order.{text_compare-eq}
use otscout.Prelude.{
  List, Text, ℕ, [], ◌∷◌, ◌++◌, ◌≡◌, ◌≤◌, ◌<◌, ◌⊎◌, false, All, All-map, All-append, Bool-cases,
  inl, inr, refl, sym, is_empty, length, if◌then◌else◌, arith, text_eq, text_eq_iff, ◌||◌,
}

-- No two of the services have the same port and transport.
abbrev pub OneEach : List Service → Type 0
OneEach [] = Unit
OneEach (svc ∷ services) =
    All (λ (other : Service). same_slot svc other ≡ false) services × OneEach services

-- An observation with a time lies in the window.
abbrev pub Within : Time → Time → Evidence → Type 0
Within first last ev =
    (ev.timestamp ≡ 0) ⊎ ((0 < first) × (first ≤ ev.timestamp) × (ev.timestamp ≤ last))

-- The services, the tags and the sources are without repeats, the last two in order, the time
-- window of the device is not inside out, and every observation with a time lies in it.
pub record IsTidy (a : Asset) : Type 0 where
  pub one_each : OneEach a.services
  pub tags_ascend : Ascending a.tags
  pub sources_ascend : Ascending a.sources
  pub window : a.first_seen ≤ a.last_seen
  pub spanned : All (Within a.first_seen a.last_seen) a.evidence

slot_swap : (s t : Service) → same_slot s t ≡ false → same_slot t s ≡ false
unfolding same_slot
slot_swap s t h =
    ground (arith, h, text_eq_iff s.transport t.transport, text_eq_iff t.transport s.transport)

-- A change that keeps the slot of an entry keeps it apart from the others.
slot_fold :
    (e svc other : Service)
    → same_slot e other ≡ false
    → same_slot (fold_service e svc) other ≡ false
unfolding same_slot fold_service
slot_fold e svc other h = h

place_service-All :
    (svc e : Service) (services : List Service)
    → same_slot e svc ≡ false
    → All (λ (other : Service). same_slot e other ≡ false) services
    → All (λ (other : Service). same_slot e other ≡ false) (place_service svc services)
unfolding place_service
place_service-All svc e [] h k = (h, tt)
place_service-All svc e (x ∷ xs) h k = elim (Bool-cases (same_slot x svc)) [
  | inl here ↦
      rw (All, here) (slot_swap (fold_service x svc) e (slot_fold x svc e (slot_swap e x k.0)), k.1)
  | inr there ↦ rw (All, there) (k.0, place_service-All svc e xs h k.1)
]

pub place_service-OneEach :
    (svc : Service) (services : List Service)
    → OneEach services
    → OneEach (place_service svc services)
unfolding place_service
place_service-OneEach svc [] h = (tt, tt)
place_service-OneEach svc (x ∷ xs) h = elim (Bool-cases (same_slot x svc)) [
  | inl here ↦ rw (OneEach, here) (All-map _ _ (λ other q. slot_fold x svc other q) xs h.0, h.1)
  | inr there ↦
      rw (OneEach, there) (place_service-All svc x xs there h.0, place_service-OneEach svc xs h.1)
]

fresh_last :
    (s : Text) (kept : List Text) → has_key s kept ≡ false → Ascending kept → Apart (kept ++ s ∷ [])
unfolding has_key
fresh_last s [] h k = (tt, tt)
fresh_last s (t ∷ kept) h k = (
  All-append _ kept (s ∷ [])
      (All-map _ _ (λ u q. ground (arith, q, text_compare-eq t u, text_eq_iff t u)) kept k.0)
      (ground (arith, h), tt),
  fresh_last s kept (ground (arith, h)) k.1,
)

pub add_sorted-Ascending :
    (s : Text) (kept : List Text) → Ascending kept → Ascending (add_sorted s kept)
unfolding add_sorted stable_sort
add_sorted-Ascending s kept h = elim (Bool-cases (is_empty s || has_key s kept)) [
  | inl old ↦ rw (Ascending, old) h
  | inr new ↦
      rw (Ascending, new)
        (sort_onto-Ascending [] (kept ++ s ∷ []) tt (fresh_last s kept (ground (arith, new)) h)
          (Away-nothing (kept ++ s ∷ [])))
]
