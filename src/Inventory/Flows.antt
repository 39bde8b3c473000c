-- ===== src/Inventory/Flows.antt =====
-- The conversations between devices (Flow and MergeFlows of internal/asset/flow.go). The map from
-- the keys to the flows and the list of the keys in their order are one list here: that of the
-- flows in the order in which their keys were first met.
pub mod Counted
use otscout.Asset.Addresses.{Time}
use otscout.Asset.Identity.{merge_string}
use otscout.Prelude.{
  List, Text, ℕ, [], ◌∷◌, ◌++◌, ◌+◌, ◌%◌, ◌==◌, ◌&&◌, ◌||◌, not, ltb, if◌then◌else◌, text_eq,
}
use otscout.Prelude.Decimal.{itoa}

pub record Flow : Type 0 where
  pub src_asset_id : Text
  pub dst_asset_id : Text
  pub src_addr : Text
  pub dst_addr : Text
  pub dst_port : ℕ
  pub transport : Text
  pub protocol : Text
  pub packets : ℕ
  pub bytes : ℕ
  pub first_seen : Time
  pub last_seen : Time
  pub source : Text

-- Flow.Key
unfoldable pub key_of : Flow → Text
key_of f = f.src_addr ++ (b'|' ∷ f.dst_addr) ++ (b'|' ∷ itoa f.dst_port) ++ (b'|' ∷ f.transport)

-- 2 ^ 64
abbrev pub u64_mod : ℕ
u64_mod = 18446744073709551616

unfoldable pub fold_flow : Flow → Flow → Flow
unfolding merge_string
fold_flow existing f = record existing {
  packets = (existing.packets + f.packets) % u64_mod;
  bytes = (existing.bytes + f.bytes) % u64_mod;
  protocol = merge_string existing.protocol f.protocol;
  first_seen =
      if existing.first_seen == 0 || not (f.first_seen == 0) && ltb f.first_seen existing.first_seen
      then f.first_seen
      else existing.first_seen;
  last_seen = if ltb existing.last_seen f.last_seen then f.last_seen else existing.last_seen;
}

-- The body of the loop.
unfoldable pub place_flow : Flow → List Flow → List Flow
unfolding key_of fold_flow
place_flow f [] = f ∷ []
place_flow f (existing ∷ flows) =
    let rest = place_flow f flows in
    if text_eq (key_of existing) (key_of f) then fold_flow existing f ∷ flows else existing ∷ rest

unfoldable pub merge_onto : List Flow → List Flow → List Flow
unfolding place_flow
merge_onto out [] = out
merge_onto out (f ∷ flows) = merge_onto (place_flow f out) flows

unfoldable pub merge_flows : List Flow → List Flow
unfolding merge_onto
merge_flows flows = merge_onto [] flows
