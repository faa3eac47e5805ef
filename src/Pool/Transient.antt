-- ===== src/Pool/Transient.antt =====
-- What an open error says of the open (internal/pool/transient.go). A status error is its code with the
-- lowercase error text that `routerErrorText` takes from its body (JSON decoding is not modelled);
-- durations are in nanoseconds.
mod Laws
pub mod Reads
mod Tests
use morpheus_uplink.Base.{
  ℕ, zero, suc, ◌+◌, ◌-◌, ◌*◌, ◌/◌, Bool, true, false, ◌&&◌, ◌||◌, Option, none, some, List, [],
  ◌∷◌, Text, codes, ltb, leb, ◌==◌, if◌then◌else◌, any, not, has_prefix, contains,
}
use morpheus_uplink.Pool.Slot.{second}

-- 18 seconds.
abbrev pub pre_send_proof_window : ℕ
pre_send_proof_window = 18 * second

abbrev pub transient_base : ℕ
transient_base = 500_000_000

abbrev pub transient_cap : ℕ
transient_cap = 4 * second

pub data OpenClass : Type 0 where
  maybe_sent provider_fault transient_pre_send transient_window wallet_funds : OpenClass

-- An error of the call: no reply of the router, a status reply, or anything else that is none.
pub data CallError : Type 0 where
  transport : CallError
  status : ℕ → Text → CallError
  unreadable : CallError

unfoldable pub provider_stage_texts : List Text
provider_stage_texts =
    codes "provider healthcheck ping failed"
    ∷ codes "provider request failed"
    ∷ codes "failed to connect to provider"
    ∷ codes "provider self-reports model"
    ∷ codes "failed to initiate session"
    ∷ codes "tee attestation failed"
    ∷ codes "cannot open session with own bid"
    ∷ []

unfoldable pub pre_send_prefixes : List Text
pre_send_prefixes =
    codes "failed to parse token supply: "
    ∷ codes "failed to parse token budget: "
    ∷ codes "failed to get bid: "
    ∷ codes "failed to get my address: "
    ∷ codes "failed to get provider: "
    ∷ codes "failed to get current mor allowance: "
    ∷ codes "failed to send transaction: approve mor allowance failed: "
    ∷ codes "get wallet address for existing-session check: "
    ∷ codes "read bid for existing-session check: "
    ∷ codes "check existing live sessions: "
    ∷ []

unfoldable pub window_prefixes : List Text
window_prefixes =
    codes "failed to get transactopts: "
    ∷ codes "failed to send transaction: open session failed: failed to get initial gas prices: "
    ∷ codes "failed to send transaction: open session failed: failed to get nonce: "
    ∷ codes "failed to send transaction: open session failed: failed to build transaction: "
    ∷ []

unfoldable pub open_stage_prefix : Text
open_stage_prefix = codes "failed to send transaction: open session failed: "

unfoldable pub funding_markers : List Text
funding_markers =
    codes "insufficient eth for gas"
    ∷ codes "insufficient mor balance"
    ∷ codes "insufficient funds for gas"
    ∷ codes "insufficient funds for intrinsic transaction cost"
    ∷ codes "transfer amount exceeds balance"
    ∷ codes "insufficient allowance"
    ∷ []

-- The text behind a prefix.
pub cut : Text → Text → Text
cut s [] = s
cut [] (p ∷ ps) = []
cut (c ∷ s) (p ∷ ps) = cut s ps

pub has_funding_marker : Text → Bool
unfolding funding_markers
has_funding_marker text = any (contains text) funding_markers

-- 502, 503 and 504 come from a proxy.
unfoldable pub is_transport_err : CallError → Bool
is_transport_err transport = true
is_transport_err (status code text) = code == 502 || code == 503 || code == 504
is_transport_err unreadable = false

-- The first pre-send prefix decides; with none, the P* prefixes and the open stage's funding texts do.
pre_send : List Text → Text → OpenClass → OpenClass
pre_send [] text other = other
pre_send (p ∷ ps) text other =
    let later = pre_send ps text other in
    if has_prefix text p
    then (if has_funding_marker (cut text p) then wallet_funds else transient_pre_send)
    else later

pub open_stage_funds : Text → Bool
unfolding has_funding_marker cut open_stage_prefix
open_stage_funds text =
    has_prefix text open_stage_prefix && has_funding_marker (cut text open_stage_prefix)

in_window : Text → ℕ → Bool → OpenClass
in_window text elapsed window_ok =
    if not (any (has_prefix text) window_prefixes) && not (open_stage_funds text)
    then maybe_sent
    else if not window_ok || leb pre_send_proof_window elapsed
    then maybe_sent
    else if open_stage_funds text
    then wallet_funds
    else transient_window

classify_text : Text → ℕ → Bool → OpenClass
unfolding pre_send in_window
classify_text text elapsed window_ok =
    if any (contains text) provider_stage_texts
    then provider_fault
    else pre_send pre_send_prefixes text (in_window text elapsed window_ok)

reply_class : CallError → ℕ → Bool → OpenClass
unfolding classify_text
reply_class transport elapsed window_ok = maybe_sent
reply_class unreadable elapsed window_ok = maybe_sent
reply_class (status code text) elapsed window_ok = classify_text text elapsed window_ok

-- `none` is no error.
unfoldable pub classify_open_err : Option CallError → ℕ → Bool → OpenClass
unfolding reply_class is_transport_err
classify_open_err none elapsed window_ok = maybe_sent
classify_open_err (some e) elapsed window_ok =
    if is_transport_err e then maybe_sent else reply_class e elapsed window_ok

-- The loop of `backoffStep` over the rounds left.
pub double_below : ℕ → ℕ → ℕ
double_below zero d = d
double_below (suc n) d = double_below n (if ltb d transient_cap then d * 2 else d)

-- Once the cap is reached the doubling stops, so the rounds that the source leaves out change nothing.
unfoldable pub backoff_step : ℕ → ℕ
unfolding double_below
backoff_step n =
    let d : ℕ = double_below n transient_base in if ltb transient_cap d then transient_cap else d

-- `d/2 + rand[0, d/2)`; `r` is what `rand.Int64N` answers for a bound.
unfoldable pub jittered : ℕ → (ℕ → ℕ) → ℕ
jittered d r = if d / 2 == 0 then d else d / 2 + r (d / 2)

-- Whole seconds, rounded up, from 1 to those of `transient_cap`.
pub clamp_transient : ℕ → ℕ
clamp_transient d =
    let sec : ℕ = (d + second - 1) / second in
    let low : ℕ = if ltb sec 1 then 1 else sec in
    (if ltb (transient_cap / second) low then transient_cap / second else low) * second
