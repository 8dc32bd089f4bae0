-- ===== src/RefGrep/Tests.antt =====
-- Two matches and a cap of one (src/companion/refgrep.py).
use hactl_companion.Base.{ltb, ◌≡◌, List, [], ◌∷◌, codes, length, min}
use hactl_companion.Yaml.{key}
use hactl_companion.RefGrep.{Candidate, key_hit, value_hit, summarise, truncated}
use hactl_companion.RefGrep.Report.{counted, summarise-accounts}

abbrev matches : List Candidate
matches =
    record {
      location = codes "b.yaml";
      path = key (codes "x") ∷ [];
      nearest_key = codes "x";
      kind = value_hit;
      text = codes "light";
    }
    ∷ record {
      location = codes "a.yaml";
      path = key (codes "light") ∷ [];
      nearest_key = codes "light";
      kind = key_hit;
      text = codes "light";
    }
    ∷ []

summarise-accounts_example :
    ((summarise matches 1).total ≡ length matches)
    × (counted (summarise matches 1).sources ≡ length matches)
    × (length (summarise matches 1).hits ≡ min 1 (length matches))
    × (truncated (summarise matches 1) ≡ ltb 1 (length matches))
summarise-accounts_example = summarise-accounts matches 1
