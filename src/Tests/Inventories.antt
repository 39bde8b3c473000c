-- ===== src/Tests/Inventories.antt =====
-- Devices that are folded together, and an inventory that is asked for them.
use otscout.Asset.Addresses.{Asset, Evidence, Service}
use otscout.Asset.Identity.{no_identity}
use otscout.Inventory.Device.{add_service, add_source, add_tag, merge_asset, ports, touch}
use otscout.Inventory.Device.Tidy.{IsTidy}
use otscout.Inventory.Device.Tidy.Kept.{merge_asset-IsTidy}
use otscout.Inventory.Flows.{Flow, merge_flows, u64_mod}
use otscout.Inventory.Flows.Counted.{OneForKey, merge_flows-Counts, sum_at}
use otscout.Prelude.Decimal.{itoa}
use otscout.Inventory.Store.{Inventory, by_address, upsert, with_id}
use otscout.Inventory.Store.Found.Keyed.{
  Answers, Stores, built-IsIndexed, by_address-Answers, upsert-Stores,
}
use otscout.Match.Candidate.{insert_before, stable_sort}
use otscout.Match.Fields.{has_key}
use otscout.Match.Index.{nth}
use otscout.Normalize.Version.{text_compare}
use otscout.Prelude.{
  Text, map, ◌-◌, ◌%◌, lower, text_eq, to_lower, List, ℕ, [], ◌∷◌, ◌≡◌, codes, inr, refl, arith,
  none,
}

-- Opens all that a merge and an upsert compute with.
unfoldable evaluation : Unit {0}
unfolding text_eq text_compare to_lower lower stable_sort insert_before has_key touch add_service
    add_source add_tag merge_asset ports with_id upsert by_address nth itoa
evaluation = tt

-- In place of SHA-256, the text itself.
abbrev echo : List ℕ → List ℕ
echo bytes = bytes

abbrev modbus : Service
modbus = record {
  port = 502;
  transport = codes "tcp";
  protocol = [];
  banner = [];
  first_seen = 5;
  last_seen = 9;
  source = codes "pcap";
}

abbrev s7 : Service
s7 = record {
  port = 102;
  transport = codes "tcp";
  protocol = codes "s7comm";
  banner = [];
  first_seen = 3;
  last_seen = 3;
  source = codes "zeek";
}

abbrev glimpse : Evidence
glimpse = record {
  id = [];
  source = codes "pcap";
  protocol = codes "modbus";
  template_id = [];
  endpoint = [];
  timestamp = 7;
  request = [];
  response = [];
  fields = [];
  notes = [];
}

abbrev plc : Asset
plc = record {
  id = codes "A1";
  addresses = record { ipv4 = codes "10.0.0.5"; ipv6 = codes "fe80::5"; mac = []; hostname = [] };
  identity = no_identity;
  purdue = [];
  role = [];
  services = modbus ∷ [];
  evidence = glimpse ∷ [];
  tags = codes "line 4" ∷ [];
  first_seen = 5;
  last_seen = 9;
  sources = codes "pcap" ∷ [];
}

-- The same device, seen earlier and later and on another port.
abbrev sighting : Asset
sighting = record {
  id = codes "A1";
  addresses = record { ipv4 = []; ipv6 = []; mac = codes "00:1b"; hostname = [] };
  identity = no_identity;
  purdue = codes "L1";
  role = [];
  services = s7 ∷ modbus ∷ [];
  evidence = record glimpse { timestamp = 3 } ∷ [];
  tags = codes "cell" ∷ codes "line 4" ∷ [];
  first_seen = 3;
  last_seen = 12;
  sources = codes "zeek" ∷ [];
}

plc-IsTidy : IsTidy plc
plc-IsTidy = record {
  one_each = (tt, tt);
  tags_ascend = (tt, tt);
  sources_ascend = (tt, tt);
  window = omega arith;
  spanned = (inr (omega arith, omega arith, omega arith), tt);
}

merge_asset-IsTidy_example : IsTidy (merge_asset echo plc sighting)
merge_asset-IsTidy_example = merge_asset-IsTidy echo plc sighting plc-IsTidy

abbrev site : Inventory
site = record { assets = plc ∷ []; index = none }

upsert-Stores_example : Stores echo (with_id echo sighting) site (upsert echo sighting site)
upsert-Stores_example = upsert-Stores echo sighting site (built-IsIndexed (plc ∷ []))

by_address-Answers_example :
    Answers echo sighting.addresses site (by_address echo sighting.addresses site)
by_address-Answers_example =
    by_address-Answers echo sighting.addresses site (built-IsIndexed (plc ∷ []))

merged_ports : ports (merge_asset echo plc sighting) ≡ 102 ∷ 502 ∷ []
unfolding evaluation
merged_ports = refl

merged_window :
    ((merge_asset echo plc sighting).first_seen ≡ 3)
    × ((merge_asset echo plc sighting).last_seen ≡ 12)
unfolding evaluation
merged_window = (refl, refl)

merged_tags :
    ((merge_asset echo plc sighting).tags ≡ codes "cell" ∷ codes "line 4" ∷ [])
    × ((merge_asset echo plc sighting).sources ≡ codes "pcap" ∷ codes "zeek" ∷ [])
unfolding evaluation
merged_tags = (refl, refl)

found_in_place : (upsert echo sighting site).1 ≡ 0
unfolding evaluation
found_in_place = refl

-- The IPv6 address alone leads to a new device.
by_ipv6 :
    (by_address echo (record { ipv4 = []; ipv6 = codes "fe80::5"; mac = []; hostname = [] }) site).1
    ≡ 1
unfolding evaluation
by_ipv6 = refl

by_ipv4 :
    (by_address echo
      (record { ipv4 = codes "10.0.0.5"; ipv6 = []; mac = []; hostname = [] })
      site).1
    ≡ 0
unfolding evaluation
by_ipv4 = refl

abbrev poll : Flow
poll = record {
  src_asset_id = [];
  dst_asset_id = codes "A1";
  src_addr = codes "10.0.0.9";
  dst_addr = codes "10.0.0.5";
  dst_port = 502;
  transport = codes "tcp";
  protocol = [];
  packets = 3;
  bytes = 180;
  first_seen = 5;
  last_seen = 6;
  source = codes "pcap";
}

-- A second record of the flow, and one that goes the other way.
abbrev polls : List Flow
polls =
    poll
    ∷ record poll { src_addr = codes "10.0.0.5"; dst_addr = codes "10.0.0.9" }
    ∷ record poll { packets = u64_mod - 1; bytes = 20 }
    ∷ []

merge_flows-Counts_example :
    OneForKey (merge_flows polls)
    × ((key : Text)
        → (sum_at Flow.packets key (merge_flows polls) % u64_mod
            ≡ sum_at Flow.packets key polls % u64_mod)
          × (sum_at Flow.bytes key (merge_flows polls) % u64_mod
              ≡ sum_at Flow.bytes key polls % u64_mod))
merge_flows-Counts_example = merge_flows-Counts polls

-- A counter that passes its limit starts again.
polls_merged : map Flow.packets (merge_flows polls) ≡ 2 ∷ 3 ∷ []
unfolding evaluation merge_flows
polls_merged = refl
