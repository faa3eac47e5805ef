-- ===== src/Pool/Lease/Tests.antt =====
-- One pooled session (internal/pool/lease.go), and instances of the theorems.
use morpheus_uplink.Base.{
  ℕ, ◌≡◌, refl, ◌≢◌, true, false, none, some, [], ◌∷◌, Text, codes, arith, dec_text, lookup,
  Distinct, least, least_of, lower_trim,
}
use morpheus_uplink.Pool.Lease.{
  Pool, Entry, SessState, norm_model, try_pooled_locked, done, closing_marked, state_locked,
}
use morpheus_uplink.Pool.Lease.Drop.{OpenResult, pool_opened_locked, in_flight}
use morpheus_uplink.Pool.Lease.Release.{release, release_target}
use morpheus_uplink.Pool.Lease.Release.Laws.{release_frees_one, holds_session}
use morpheus_uplink.Pool.Lease.Sweep.{claim, pick, cut_close_mark, closable}
use morpheus_uplink.Pool.Lease.Sweep.Laws.{claim_spares_in_flight}
use morpheus_uplink.Pool.Lease.Grants.{Leased, try_pooled_locked-Leased, done-try_pooled_locked}
use morpheus_uplink.Pool.Lease.Invariant.{Inv}
use morpheus_uplink.Pool.Lease.Steps.{here, next, opens, asks, Reach-Inv}

abbrev model_name : Text
model_name = codes "m"

abbrev sid : Text
sid = codes "s1"

abbrev alice : Text
alice = codes "alice"

abbrev slot_entry : Entry
slot_entry = record { session_id = sid; expires_at = 100; stake = none; provider = codes "0xaa" }

-- A session that alice holds, with that many requests on it.
abbrev state_with : ℕ → SessState
state_with n = record {
  model = model_name;
  inflight = n;
  holders = (alice, 1) ∷ [];
  last_use = 1;
  opened_at = 1;
  ends_at = 100;
  opener = alice;
  retired = false;
  retired_at = 0;
  closing = false;
  close_fails = 0;
}

abbrev pool_with : ℕ → Pool
pool_with n = record {
  entries = (model_name, slot_entry) ∷ [];
  sess = (sid, state_with n) ∷ [];
  closing_ids = [];
  retired = [];
  opened = [];
}

abbrev no_sessions : Pool
no_sessions = record { entries = []; sess = []; closing_ids = []; retired = []; opened = [] }

one_state-Distinct : (n : ℕ) → Distinct (pool_with n).sess
unfolding lookup
one_state-Distinct n = (refl, tt)

no_sessions-Inv : Inv no_sessions
unfolding lookup
no_sessions-Inv = record {
  usable = λ key e st there found. absurd (ground arith);
  once = λ key key' e e' a b c. absurd (ground arith);
  distinct = tt;
}

no_entry : (k : Text) (e : Entry) → lookup k no_sessions.entries ≡ some e → e.session_id ≢ sid
unfolding lookup
no_entry k e there = absurd (ground arith)

abbrev opened_one : OpenResult
opened_one = record {
  id = sid;
  provider = codes "0xaa";
  stake = none;
  adopted = false;
  resumed = false;
  opened_at = 0;
  ends_at = 0;
}

abbrev after_open : Pool
after_open = (pool_opened_locked no_sessions 5 model_name opened_one 3600 alice).0

Reach-Inv_example : Inv (try_pooled_locked after_open 6 model_name alice).0
Reach-Inv_example =
    Reach-Inv
      (next (next here (opens 5 model_name opened_one 3600 alice no_entry refl))
        (asks 6 model_name alice refl))
      no_sessions-Inv

claim_spares_in_flight_example : (claim (pool_with 1) 50 50 3600 10 true sid).1 ≡ false
claim_spares_in_flight_example =
    claim_spares_in_flight (pool_with 1) 50 50 3600 10 true sid (one_state-Distinct 1)
      (unfold in_flight lookup dec_text in omega arith)

leases : (try_pooled_locked (pool_with 0) 50 model_name alice).1 ≡ some sid
unfolding try_pooled_locked lookup dec_text closing_marked state_locked
leases = refl

try_pooled_locked-Leased_example :
    (e : Entry) × (lookup model_name (pool_with 0).entries ≡ some e)
    × Leased (pool_with 0) 50 e sid (try_pooled_locked (pool_with 0) 50 model_name alice).0
try_pooled_locked-Leased_example =
    try_pooled_locked-Leased (pool_with 0) 50 model_name alice sid leases

done-try_pooled_locked_example :
    in_flight (done (try_pooled_locked (pool_with 0) 50 model_name alice).0 60 sid).0 sid
    ≡ in_flight (pool_with 0) sid
done-try_pooled_locked_example =
    done-try_pooled_locked (pool_with 0) 50 60 model_name alice sid sid leases

-- The session is retired while it is still pooled.
abbrev retired_pool : Pool
retired_pool = record (pool_with 0) {
  sess = (sid, record (state_with 0) { retired = true; retired_at = 5 }) ∷ [];
}

retired_there :
    lookup sid retired_pool.sess ≡ some (record (state_with 0) { retired = true; retired_at = 5 })
unfolding lookup dec_text
retired_there = refl

picks : (pick (pool_with 0) 50 10 true).1 ≡ some sid
unfolding pick cut_close_mark closable least least_of lookup dec_text closing_marked
picks = refl

targets :
    (n : ℕ) → release_target (pool_with n) (norm_model model_name) alice ≡ some (sid, state_with n)
unfolding release_target norm_model lower_trim lookup dec_text
targets n = refl

release_frees_one_example :
    holds_session (release (pool_with 0) 50 50 3600 model_name alice).0 sid alice ≡ false
release_frees_one_example =
    (release_frees_one (pool_with 0) 50 50 3600 model_name alice sid (state_with 0) (codes "bob")
      sid (one_state-Distinct 0) (targets 0) (ground arith)).0
