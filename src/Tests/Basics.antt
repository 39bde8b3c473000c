-- ===== src/Tests/Basics.antt =====
-- Runs of the shared helpers.
use otscout.Prelude.{◌≡◌, refl, true, false, codes, contains, equal_fold}
use otscout.Prelude.Address.{parse_ip}
use otscout.Prelude.Decimal.{itoa}

parse_ip_runs :
    (parse_ip (codes "10.0.0.255") ≡ true)
    × (parse_ip (codes "10.0.0.256") ≡ false)
    × (parse_ip (codes "10.0.01.2") ≡ false)
    × (parse_ip (codes "::1") ≡ true)
    × (parse_ip (codes "fe80::1:2") ≡ true)
    × (parse_ip (codes "1:2:3:4:5:6:7:8") ≡ true)
    × (parse_ip (codes "1:2:3:4:5:6:7") ≡ false)
    × (parse_ip (codes "::ffff:10.0.0.1") ≡ true)
    × (parse_ip (codes "plc-7") ≡ false)
unfolding parse_ip
parse_ip_runs = (refl, refl, refl, refl, refl, refl, refl, refl, refl)

itoa_runs : (itoa 0 ≡ codes "0") × (itoa 44818 ≡ codes "44818")
unfolding itoa
itoa_runs = (refl, refl)

fold_runs :
    (contains (codes "simatic s7-300") (codes "s7-300") ≡ true)
    × (contains (codes "s7-30") (codes "s7-300") ≡ false)
    × (equal_fold (codes "Siemens") (codes "siemens") ≡ true)
unfolding contains equal_fold
fold_runs = (refl, refl, refl)
