-- ===== src/Pool/Candidates/Tests.antt =====
-- Candidates of one open (internal/pool/failover.go), and instances of the theorems.
use morpheus_uplink.Base.{
  insert, has_prefix, ◌*◌, ◌≡◌, refl, Option, none, some, List, [], ◌∷◌, Text, codes, dec_text,
  lookup, lower_trim,
}
use morpheus_uplink.Pool.Slot.{second}
use morpheus_uplink.Pool.Candidates.{
  cool_key, after_prefix, RatedBid, Memory, found, filter_candidates, mark_cooling, norm_prov,
  cooling_providers, avoided_providers,
}
use morpheus_uplink.Pool.Candidates.Retry.{retry_after}
use morpheus_uplink.Pool.Candidates.Laws.{Chosen, avoids, filter_candidates-Chosen}

abbrev model_name : Text
model_name = codes "m"

abbrev good_bid : RatedBid
good_bid = record { id = codes "b1"; provider = codes "0xAa"; price_per_second = none }

abbrev barred_bid : RatedBid
barred_bid = record { id = codes "b2"; provider = codes "0xbb"; price_per_second = none }

-- One provider is excluded, none cools down.
abbrev barred : Memory
barred = record { cooldown = 60 * second; cooling = []; cut_next = []; exclude = codes "0xbb" ∷ [] }

both_known : Option (List Text)
both_known = some (codes "b1" ∷ codes "b2" ∷ [])

one_left :
    filter_candidates barred 5 model_name [] none (good_bid ∷ barred_bid ∷ []) both_known
    ≡ found (good_bid ∷ []) (good_bid ∷ [])
unfolding filter_candidates both_known norm_prov lower_trim dec_text lookup avoided_providers
    cooling_providers
one_left = refl

filter_candidates-Chosen_example :
    Chosen
      (good_bid ∷ barred_bid ∷ [])
      barred.exclude
      (avoids barred 5 model_name [])
      both_known
      (good_bid ∷ [])
      (good_bid ∷ [])
filter_candidates-Chosen_example =
    filter_candidates-Chosen barred 5 model_name [] none (good_bid ∷ barred_bid ∷ []) both_known
      (good_bid ∷ []) (good_bid ∷ []) one_left

-- The good bid's provider cools down.
abbrev cooling_good : Memory
cooling_good = mark_cooling barred (5 * second) model_name (codes "0xaa")

soon : retry_after cooling_good (7 * second) model_name (good_bid ∷ []) ≡ 58 * second
unfolding retry_after mark_cooling cool_key lower_trim dec_text insert has_prefix after_prefix
    norm_prov
soon = refl
