-- ===== src/Site/Tests.antt =====
-- extension/lib/site-scope.js: runs, and the theorems at concrete hosts.
use passwort_manager_yurr.Common.{◌≡◌, ◌↔◌, refl, true, false, codes, arith}
use passwort_manager_yurr.Samples.{sample_platform}
use passwort_manager_yurr.Site.Numbers.{parse_hex, show_number, number}
use passwort_manager_yurr.Site.Local.{is_local_host, is_local_from}
use passwort_manager_yurr.Site.Scope.{key, label}
use passwort_manager_yurr.Site.Addresses.{IsLocalRange, show_address, is_local_host-address}
use passwort_manager_yurr.Site.Depth.{is_local_from_enough}

-- All that a run computes with.
program : Unit {0}
unfolding label is_local_host parse_hex show_number number
program = tt

-- `Number('1e0')` is 1, so this name, which no URL parser turns into an address, counts as local.
exponent_host : is_local_host sample_platform (codes "10.0.0.1e0") ≡ true
unfolding program
exponent_host = refl

hosts :
    (is_local_host sample_platform (codes "App.Localhost.") ≡ true)
    × (is_local_host sample_platform (codes "[::ffff:c0a8:1]") ≡ true)
    × (is_local_host sample_platform (codes "fe80::1") ≡ true)
    × (is_local_host sample_platform (codes "172.32.0.1") ≡ false)
    × (is_local_host sample_platform (codes "example.org") ≡ false)
unfolding program
hosts = (refl, refl, refl, refl, refl)

keys :
    (key sample_platform (codes " localhost/x ") ≡ codes "localhost:443")
    × (key sample_platform (codes "http://Example.org/a") ≡ codes "example.org")
    × (key sample_platform (codes "https:///x") ≡ codes "")
    × (label sample_platform (codes "http://10.0.0.1") (codes "z") ≡ codes "10.0.0.1:80")
unfolding program
keys = (refl, refl, refl, refl)

is_local_host-address_example :
    (is_local_host sample_platform (show_address 172 16 0 1) ≡ true) ↔ IsLocalRange 172 16
is_local_host-address_example =
    is_local_host-address sample_platform 172 16 0 1 (omega arith) (omega arith) (omega arith)
      (omega arith)

is_local_from_enough_example :
    is_local_from sample_platform 5 (codes "::ffff:a00:1")
    ≡ is_local_from sample_platform 2 (codes "::ffff:a00:1")
is_local_from_enough_example = is_local_from_enough sample_platform 3 (codes "::ffff:a00:1")
