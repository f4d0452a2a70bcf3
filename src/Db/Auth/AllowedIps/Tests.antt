-- ===== src/Db/Auth/AllowedIps/Tests.antt =====
-- Lists of addresses, and the round trip at a concrete one.
use revaulter.Base.{Text, bytes, same, trim_space, ◌≡◌, refl, List, [], ◌∷◌}
use revaulter.Db.Auth.AllowedIps.{
  invalid_ip, ok, err, normalize_allowed_ips, parse_allowed_ips_csv, print_allowed_ips,
}
use revaulter.Db.Auth.AllowedIps.Normal.{Unique, normalize_round_trip}
use revaulter.Db.Auth.AllowedIps.Sample.{sample_net, sample-Prints, sample-settles}

abbrev asked : List Text
asked = bytes " 0:0::1" ∷ bytes "  " ∷ bytes "10.1.2.3/8 " ∷ bytes "::1" ∷ []

abbrev normal : List Text
normal = bytes "::1" ∷ bytes "10.0.0.0/8" ∷ []

normalize_run : normalize_allowed_ips sample_net asked ≡ ok normal
unfolding normalize_allowed_ips same trim_space
normalize_run = refl

normalize_bad :
    normalize_allowed_ips sample_net (bytes "::1" ∷ bytes "x" ∷ []) ≡ err (invalid_ip (bytes "x"))
unfolding normalize_allowed_ips same trim_space
normalize_bad = refl

parse_run : parse_allowed_ips_csv (bytes " ::1,, 10.0.0.0/8,") ≡ normal
unfolding parse_allowed_ips_csv trim_space
parse_run = refl

normalize_round_trip_example :
    Unique normal
    × (normalize_allowed_ips sample_net normal ≡ ok normal)
    × (parse_allowed_ips_csv (print_allowed_ips normal) ≡ normal)
normalize_round_trip_example =
    normalize_round_trip sample_net sample-Prints sample-settles asked normal normalize_run
