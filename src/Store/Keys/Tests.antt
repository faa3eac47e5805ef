-- ===== src/Store/Keys/Tests.antt =====
-- Small stores, and an instance of the theorem (internal/store/store.go).
use morpheus_uplink.Base.{◌≡◌, ◌≢◌, refl, true, none, List, [], ◌∷◌, codes, dec_text}
use morpheus_uplink.Store.Keys.{
  KeyRecord, KeyEvent, adds, revokes, run, revoke_key, lookup_key, missing, refused,
}
use morpheus_uplink.Store.Keys.Laws.{run-revoked}

abbrev key_one : KeyRecord
key_one = record {
  id = codes "k1";
  name = codes "one";
  prefix = codes "sk-k1.00";
  hash = codes "h1";
  secret = codes "sk-k1.0000000000";
  created_at = 1;
  revoked_at = none;
}

abbrev with_one : List KeyEvent
with_one = adds true key_one ∷ []

abbrev later : List KeyEvent
later = adds true key_one ∷ revokes true 9 (codes "k1") ∷ []

-- The key is accepted until it is revoked.
accepted : lookup_key (λ full. codes "h1") (codes "sk-k1.0000000000") (run with_one []) ≡ codes "k1"
unfolding run lookup_key dec_text
accepted = refl

revocation_found : (revoke_key true 5 (codes "k1") (run with_one [])).1 ≢ missing
unfolding run revoke_key dec_text
revocation_found e = cc

revocation_allowed : (revoke_key true 5 (codes "k1") (run with_one [])).1 ≢ refused
unfolding run revoke_key dec_text
revocation_allowed e = cc

run-revoked_example :
    lookup_key
      (λ full. codes "h1")
      (codes "sk-k1.0000000000")
      (run later (revoke_key true 5 (codes "k1") (run with_one [])).0)
    ≢ codes "k1"
run-revoked_example =
    run-revoked (λ full. codes "h1") (codes "sk-k1.0000000000") (codes "k1") with_one later true 5
      (λ e. cc) revocation_found revocation_allowed
