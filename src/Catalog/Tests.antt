-- ===== src/Catalog/Tests.antt =====
-- The health feeds on small files.
use morpheus_uplink.Base.{
  ◌*◌, ◌≡◌, refl, Option, none, some, List, [], ◌∷◌, ◌++◌, Text, codes, String, lookup, dec_text,
  insert,
}
use morpheus_uplink.Pool.Slot.{second}
use morpheus_uplink.Catalog.{Row, at, HealthSnap, good, bad, no_usable_rows, parse_feed}
use morpheus_uplink.Catalog.Laws.{run, Newest, run-Newest}

abbrev id_of : String → Text
id_of last = codes "0x00000000000000000000000000000000000000000000000000000000000000" ++ codes last

abbrev row : String → String → Option Row
row id status = some (record { id = id_of id; model = id_of "a1"; status = some (codes status) })

abbrev rows : List (Option Row)
rows = row "b1" "Healthy" ∷ row "b2" "down" ∷ none ∷ []

abbrev copy : HealthSnap
copy = record { set = (id_of "a1", id_of "b1" ∷ []) ∷ []; last_updated = 100; fetched_at = 0 }

parsed : parse_feed (at 100) (some rows) (90 * second) ≡ good copy
unfolding parse_feed dec_text insert lookup
parsed = refl

run-Newest_example :
    Newest
      ((good copy, 5) ∷ (bad no_usable_rows, 4) ∷ [])
      (run ((good copy, 5) ∷ (bad no_usable_rows, 4) ∷ [])).snap
run-Newest_example = run-Newest ((good copy, 5) ∷ (bad no_usable_rows, 4) ∷ [])
