-- ===== src/Inventory/Device/Named.antt =====
-- The operations on a device leave its id (internal/asset/asset.go).
use otscout.Asset.Addresses.{Asset, Evidence, Service, Time}
use otscout.Inventory.Device.{
  add_service, touch, add_source, add_tag, add_evidence, add_services, add_all_evidence, add_tags,
  add_sources, fill_in, merge_asset,
}
use otscout.Prelude.{List, Text, ℕ, [], ◌∷◌, ◌≡◌, ◌∙◌, refl, arith}

touch-id : (ts : Time) (a : Asset) → (touch ts a).id ≡ a.id
unfolding touch
touch-id ts a = ground arith

add_services-id : (services : List Service) (a : Asset) → (add_services services a).id ≡ a.id
unfolding add_services add_service
add_services-id [] a = refl
add_services-id (svc ∷ services) a = add_services-id services (add_service svc a)

add_tags-id : (tags : List Text) (a : Asset) → (add_tags tags a).id ≡ a.id
unfolding add_tags add_tag
add_tags-id [] a = refl
add_tags-id (tag ∷ tags) a = add_tags-id tags (add_tag tag a)

add_sources-id : (sources : List Text) (a : Asset) → (add_sources sources a).id ≡ a.id
unfolding add_sources add_source
add_sources-id [] a = refl
add_sources-id (src ∷ sources) a = add_sources-id sources (add_source src a)

module _ (sum256 : List ℕ → List ℕ) where
  add_all_evidence-id :
      (evs : List Evidence) (a : Asset) → (add_all_evidence sum256 evs a).id ≡ a.id
  unfolding add_all_evidence add_evidence add_source
  add_all_evidence-id [] a = refl
  add_all_evidence-id (ev ∷ evs) a =
      add_all_evidence-id evs (add_evidence sum256 ev a) ∙ touch-id _ _

  -- Folding another observation into a device leaves its id.
  pub merge_asset-id : (a other : Asset) → (merge_asset sum256 a other).id ≡ a.id
  unfolding merge_asset fill_in
  merge_asset-id a other =
      touch-id _ _
      ∙ touch-id _ _
      ∙ add_sources-id other.sources _
      ∙ add_tags-id other.tags _
      ∙ add_all_evidence-id other.evidence _
      ∙ add_services-id other.services _
