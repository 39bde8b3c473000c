-- ===== src/Inventory/Device.antt =====
-- The operations on a device (the methods of Asset in internal/asset/asset.go). SHA-256 is a
-- parameter: `sum256` gives the 32 bytes of the hash.
pub mod Tidy
pub mod Named
use otscout.Asset.Addresses.{Addresses, Asset, Evidence, Service, Time}
use otscout.Asset.Identity.{merge, merge_string}
use otscout.Match.Candidate.{stable_sort, text_lt}
use otscout.Match.Fields.{has_key}
use otscout.Prelude.{
  List, Text, ℕ, Bool, [], ◌∷◌, ◌++◌, ◌+◌, ◌-◌, ◌/◌, ◌%◌, ◌==◌, ◌&&◌, ◌||◌, not, ltb, if◌then◌else◌,
  is_empty, text_eq, codes, take, length, to_lower,
}
use otscout.Prelude.Decimal.{itoa}

hex_digit : ℕ → ℕ
hex_digit d = if ltb d 10 then b'0' + d else b'a' + d - 10

-- hex.EncodeToString
unfoldable pub hex_string : List ℕ → Text
unfolding hex_digit
hex_string [] = []
hex_string (b ∷ bs) = hex_digit (b / 16) ∷ hex_digit (b % 16) ∷ hex_string bs

unfoldable pub same_slot : Service → Service → Bool
same_slot existing svc = existing.port == svc.port && text_eq existing.transport svc.transport

-- What AddService changes in the entry that it finds.
unfoldable pub fold_service : Service → Service → Service
unfolding merge_string
fold_service existing svc = record existing {
  protocol = merge_string existing.protocol svc.protocol;
  banner = merge_string existing.banner svc.banner;
  first_seen =
      if existing.first_seen == 0
        || not (svc.first_seen == 0) && ltb svc.first_seen existing.first_seen
      then svc.first_seen
      else existing.first_seen;
  last_seen = if ltb existing.last_seen svc.last_seen then svc.last_seen else existing.last_seen;
}

unfoldable pub place_service : Service → List Service → List Service
unfolding same_slot fold_service
place_service svc [] = svc ∷ []
place_service svc (existing ∷ services) =
    let rest = place_service svc services in
    if same_slot existing svc then fold_service existing svc ∷ services else existing ∷ rest

unfoldable pub add_service : Service → Asset → Asset
unfolding place_service
add_service svc a = record a { services = place_service svc a.services }

unfoldable pub touch : Time → Asset → Asset
touch ts a = if ts == 0 then a else record a {
  first_seen = if a.first_seen == 0 || ltb ts a.first_seen then ts else a.first_seen;
  last_seen = if ltb a.last_seen ts then ts else a.last_seen;
}

-- The body that addSource and AddTag share, on the list that they keep.
unfoldable pub add_sorted : Text → List Text → List Text
add_sorted s kept =
    if is_empty s || has_key s kept then kept else stable_sort text_lt (kept ++ s ∷ [])

unfoldable pub add_source : Text → Asset → Asset
unfolding add_sorted
add_source src a = record a { sources = add_sorted src a.sources }

unfoldable pub add_tag : Text → Asset → Asset
unfolding add_sorted
add_tag tag a = record a { tags = add_sorted tag a.tags }

-- Asset.Ports, before it is sorted.
unfoldable pub ports_of : List Service → List ℕ
ports_of [] = []
ports_of (svc ∷ services) = svc.port ∷ ports_of services

unfoldable pub ports : Asset → List ℕ
unfolding ports_of
ports a = stable_sort ltb (ports_of a.services)

-- The loops of Merge.
unfoldable pub add_services : List Service → Asset → Asset
add_services [] a = a
add_services (svc ∷ services) a = add_services services (add_service svc a)

unfoldable pub add_tags : List Text → Asset → Asset
add_tags [] a = a
add_tags (tag ∷ tags) a = add_tags tags (add_tag tag a)

unfoldable pub add_sources : List Text → Asset → Asset
add_sources [] a = a
add_sources (src ∷ sources) a = add_sources sources (add_source src a)

-- What Merge fills in of the addresses, the identity and the placement.
unfoldable pub fill_in : Asset → Asset → Asset
fill_in a other = record a {
  addresses = record {
    ipv4 = merge_string a.addresses.ipv4 other.addresses.ipv4;
    ipv6 = merge_string a.addresses.ipv6 other.addresses.ipv6;
    mac = merge_string a.addresses.mac other.addresses.mac;
    hostname = merge_string a.addresses.hostname other.addresses.hostname;
  };
  identity = merge a.identity other.identity;
  purdue = if is_empty a.purdue then other.purdue else a.purdue;
  role = if is_empty a.role then other.role else a.role;
}

module _ (sum256 : List ℕ → List ℕ) where
  -- NewID
  unfoldable pub id_of_addresses : Addresses → Text
  unfolding hex_string
  id_of_addresses addr =
      hex_string (take 8 (sum256 (to_lower (addr.ipv4 ++ (b'|' ∷ addr.ipv6) ++ (b'|' ∷ addr.mac)))))

  unfoldable pub evidence_id : Text → ℕ → Evidence → Text
  unfolding hex_string
  evidence_id asset_id index ev = hex_string (
      take 6 (
        sum256 (
          asset_id
          ++ (b'|' ∷ itoa index)
          ++ (b'|' ∷ ev.source)
          ++ (b'|' ∷ ev.protocol)
          ++ (b'|' ∷ ev.template_id))))

  unfoldable pub add_evidence : Evidence → Asset → Asset
  unfolding evidence_id
  add_evidence ev a =
      let named =
        if is_empty ev.id then record ev { id = evidence_id a.id (length a.evidence) ev } else ev in
      add_source named.source
        (touch named.timestamp (record a { evidence = a.evidence ++ named ∷ [] }))

  unfoldable pub add_all_evidence : List Evidence → Asset → Asset
  unfolding add_evidence
  add_all_evidence [] a = a
  add_all_evidence (ev ∷ evs) a = add_all_evidence evs (add_evidence ev a)

  unfoldable pub merge_asset : Asset → Asset → Asset
  unfolding fill_in add_services add_all_evidence add_tags add_sources
  merge_asset a other =
      let a1 = add_services other.services (fill_in a other) in
      let a2 = add_all_evidence other.evidence a1 in
      let a3 = add_tags other.tags a2 in
      let a4 = add_sources other.sources a3 in touch other.last_seen (touch other.first_seen a4)
