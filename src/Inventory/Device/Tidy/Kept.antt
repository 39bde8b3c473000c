-- ===== src/Inventory/Device/Tidy/Kept.antt =====
-- Every operation on a device keeps it tidy (Asset.Merge of internal/asset/asset.go).
use otscout.Asset.Addresses.{Asset, Evidence, Service, Time}
use otscout.Inventory.Device.{
  add_service, touch, add_source, add_tag, add_evidence, add_services, add_all_evidence, add_tags,
  add_sources, fill_in, merge_asset,
}
use otscout.Inventory.Device.Tidy.{
  IsTidy, OneEach, Within, place_service-OneEach, add_sorted-Ascending,
}
use otscout.Match.Attach.Distinct.{Ascending}
use otscout.Prelude.{
  List, Text, ℕ, [], ◌∷◌, ◌≡◌, ◌≤◌, ◌⊎◌, All, All-map, All-append, inl, inr, refl, arith,
}

add_service-IsTidy : (svc : Service) (a : Asset) → IsTidy a → IsTidy (add_service svc a)
unfolding add_service
add_service-IsTidy svc a h = record {
  one_each = place_service-OneEach svc a.services h.one_each;
  tags_ascend = h.tags_ascend;
  sources_ascend = h.sources_ascend;
  window = h.window;
  spanned = h.spanned;
}

add_source-IsTidy : (src : Text) (a : Asset) → IsTidy a → IsTidy (add_source src a)
unfolding add_source
add_source-IsTidy src a h = record {
  one_each = h.one_each;
  tags_ascend = h.tags_ascend;
  sources_ascend = add_sorted-Ascending src a.sources h.sources_ascend;
  window = h.window;
  spanned = h.spanned;
}

add_tag-IsTidy : (tag : Text) (a : Asset) → IsTidy a → IsTidy (add_tag tag a)
unfolding add_tag
add_tag-IsTidy tag a h = record {
  one_each = h.one_each;
  tags_ascend = add_sorted-Ascending tag a.tags h.tags_ascend;
  sources_ascend = h.sources_ascend;
  window = h.window;
  spanned = h.spanned;
}

touch-Within :
    (ts : Time) (a : Asset) (ev : Evidence)
    → Within a.first_seen a.last_seen ev ⊎ (ev.timestamp ≡ ts)
    → Within (touch ts a).first_seen (touch ts a).last_seen ev
unfolding touch
touch-Within ts a ev h = ground arith

touch-window :
    (ts : Time) (a : Asset)
    → a.first_seen ≤ a.last_seen
    → (touch ts a).first_seen ≤ (touch ts a).last_seen
unfolding touch
touch-window ts a h = ground arith

touch_fields :
    (ts : Time) (a : Asset)
    → ((touch ts a).services ≡ a.services)
      × ((touch ts a).tags ≡ a.tags)
      × ((touch ts a).sources ≡ a.sources)
      × ((touch ts a).evidence ≡ a.evidence)
unfolding touch
touch_fields ts a = ground arith

-- An observation made at the time itself may lie outside the window so far.
touch_observed :
    (ts : Time) (a : Asset)
    → OneEach a.services
    → Ascending a.tags
    → Ascending a.sources
    → a.first_seen ≤ a.last_seen
    → All (λ (ev : Evidence). Within a.first_seen a.last_seen ev ⊎ (ev.timestamp ≡ ts)) a.evidence
    → IsTidy (touch ts a)
touch_observed ts a o t s w e = record {
  one_each = rw (touch_fields ts a).0 o;
  tags_ascend = rw (touch_fields ts a).1 t;
  sources_ascend = rw (touch_fields ts a).2 s;
  window = touch-window ts a w;
  spanned = rw (touch_fields ts a).3 (All-map _ _ (touch-Within ts a) a.evidence e);
}

touch-IsTidy : (ts : Time) (a : Asset) → IsTidy a → IsTidy (touch ts a)
touch-IsTidy ts a h =
    touch_observed ts a h.one_each h.tags_ascend h.sources_ascend h.window
      (All-map _ _ (λ ev q. inl q) a.evidence h.spanned)

fill_in-IsTidy : (a other : Asset) → IsTidy a → IsTidy (fill_in a other)
unfolding fill_in
fill_in-IsTidy a other h = record {
  one_each = h.one_each;
  tags_ascend = h.tags_ascend;
  sources_ascend = h.sources_ascend;
  window = h.window;
  spanned = h.spanned;
}

add_services-IsTidy :
    (services : List Service) (a : Asset) → IsTidy a → IsTidy (add_services services a)
unfolding add_services
add_services-IsTidy [] a h = h
add_services-IsTidy (svc ∷ services) a h =
    add_services-IsTidy services (add_service svc a) (add_service-IsTidy svc a h)

add_tags-IsTidy : (tags : List Text) (a : Asset) → IsTidy a → IsTidy (add_tags tags a)
unfolding add_tags
add_tags-IsTidy [] a h = h
add_tags-IsTidy (tag ∷ tags) a h = add_tags-IsTidy tags (add_tag tag a) (add_tag-IsTidy tag a h)

add_sources-IsTidy : (sources : List Text) (a : Asset) → IsTidy a → IsTidy (add_sources sources a)
unfolding add_sources
add_sources-IsTidy [] a h = h
add_sources-IsTidy (src ∷ sources) a h =
    add_sources-IsTidy sources (add_source src a) (add_source-IsTidy src a h)

module _ (sum256 : List ℕ → List ℕ) where
  add_evidence-IsTidy : (ev : Evidence) (a : Asset) → IsTidy a → IsTidy (add_evidence sum256 ev a)
  unfolding add_evidence
  add_evidence-IsTidy ev a h = add_source-IsTidy _ _ (
      touch_observed _ _ h.one_each h.tags_ascend h.sources_ascend h.window (
        All-append _ a.evidence _ (All-map _ _ (λ x q. inl q) a.evidence h.spanned) (inr refl, tt)))

  add_all_evidence-IsTidy :
      (evs : List Evidence) (a : Asset) → IsTidy a → IsTidy (add_all_evidence sum256 evs a)
  unfolding add_all_evidence
  add_all_evidence-IsTidy [] a h = h
  add_all_evidence-IsTidy (ev ∷ evs) a h =
      add_all_evidence-IsTidy evs (add_evidence sum256 ev a) (add_evidence-IsTidy ev a h)

  -- A device stays tidy when another observation of it is folded in, whatever that brings along:
  -- no two of its services have the same port and transport, its tags and its sources are in
  -- strictly ascending order, its first time is not behind its last, and every observation that it
  -- holds has no time or lies between the two.
  pub merge_asset-IsTidy : (a other : Asset) → IsTidy a → IsTidy (merge_asset sum256 a other)
  unfolding merge_asset
  merge_asset-IsTidy a other h =
      let h1 = add_services-IsTidy other.services _ (fill_in-IsTidy a other h) in
      let h2 = add_all_evidence-IsTidy other.evidence _ h1 in
      let h3 = add_tags-IsTidy other.tags _ h2 in
      let h4 = add_sources-IsTidy other.sources _ h3 in
      touch-IsTidy _ _ (touch-IsTidy other.first_seen _ h4)
