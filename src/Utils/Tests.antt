-- ===== src/Utils/Tests.antt =====
-- The theorems about the helpers at concrete texts and maps.
use autovpa.Common.{String, some, [], ◌∷◌, ◌≡◌, refl, Map, index?, lookup, ◌↔◌, true, maps_equal}
use autovpa.Utils.{merge_maps}
use autovpa.Utils.Names.{truncate_runes, dns_label, is_dns_char, is_dns_edge}
use autovpa.Utils.Dns.{IsDnsToken, dns_label-IsDnsToken}
use autovpa.Utils.Merged.{maps_equal-merge_maps_iff}

abbrev own : Map String
own = some (("managed", "true") ∷ ("team", "a") ∷ [])

abbrev operator_own : Map String
operator_own = some (("managed", "true") ∷ [])

maps_equal-merge_maps_iff_example :
    (maps_equal own (merge_maps own operator_own) ≡ true)
    ↔ ((k v : String) → index? operator_own k ≡ some v → index? own k ≡ some v)
unfolding lookup
maps_equal-merge_maps_iff_example =
    maps_equal-merge_maps_iff own operator_own (refl, (refl, tt)) (refl, tt)

-- The unit of the loop is the byte: of three runes of two bytes, two are asked for and one is kept.
truncate_runes_runs : (truncate_runes "abc" 2 ≡ "ab") × (truncate_runes "äöü" 2 ≡ "ä")
unfolding truncate_runes
truncate_runes_runs = (refl, refl)

dns_label_runs : dns_label (λ c. c) "My_App." ≡ "my-app"
unfolding dns_label is_dns_char is_dns_edge
dns_label_runs = refl

dns_label-IsDnsToken_example : IsDnsToken (dns_label (λ c. c) "My_App.")
dns_label-IsDnsToken_example = dns_label-IsDnsToken (λ c. c) "My_App."
