-- ===== src/Safety/Grouping.antt =====
-- The exchanges of a plan collected per host (groupByHost of internal/safety/engine.go). The map
-- is an association list; its order is never used, since the hosts are listed beside it.
pub mod Order
use otscout.Prelude.{Bool, List, [], ◌∷◌, ◌++◌, text_eq, if◌then◌else◌, Text, Option, none, some}
use otscout.Safety.Exchange.{Exchange}

abbrev pub Groups : Type 0
Groups = List (Text × List Exchange)

-- byHost[host], which is nil where there is none
unfoldable pub of_host : Text → Groups → List Exchange
of_host h [] = []
of_host h ((k, exs) ∷ m) = if text_eq k h then exs else of_host h m

unfoldable pub is_seen : Text → Groups → Bool
is_seen h [] = Bool.false
is_seen h ((k, exs) ∷ m) = if text_eq k h then Bool.true else is_seen h m

-- byHost[host] = append(byHost[host], ex)
unfoldable pub add_to : Text → Exchange → Groups → Groups
add_to h ex [] = (h, ex ∷ []) ∷ []
add_to h ex ((k, exs) ∷ m) =
    if text_eq k h then (k, exs ++ ex ∷ []) ∷ m else (k, exs) ∷ add_to h ex m

group_onto : List Text → Groups → List Exchange → List Text × Groups
group_onto order by_host [] = (order, by_host)
group_onto order by_host (ex ∷ exs) =
    let host = ex.target.host in
    group_onto (if is_seen host by_host then order else order ++ host ∷ []) (add_to host ex by_host)
      exs

unfoldable pub group_by_host : List Exchange → List Text × Groups
unfolding group_onto add_to is_seen
group_by_host exs = group_onto [] [] exs
