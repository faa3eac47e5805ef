-- ===== src/Pool/Transient/Laws.antt =====
-- What the classification and the backoff guarantee (internal/pool/transient.go).
use morpheus_uplink.Base.{
  ℕ, zero, suc, ◌*◌, ◌/◌, ◌%◌, ◌≤◌, ◌<◌, ◌≡◌, refl, ◌^◌, ◌⊎◌, Bool, ◌&&◌, not, true, false, Option,
  some, arith, Text, any, contains, has_prefix, min,
}
use morpheus_uplink.Pool.Slot.{second}
use morpheus_uplink.Pool.Transient.{
  OpenClass, maybe_sent, provider_fault, transient_pre_send, transient_window, wallet_funds,
  has_funding_marker, cut, CallError, status, provider_stage_texts, pre_send_prefixes,
  window_prefixes, open_stage_funds, is_transport_err, pre_send_proof_window, transient_base,
  transient_cap, double_below, backoff_step, jittered, clamp_transient,
}

-- The text starts with the prefix, and a funding text follows, or none does.
abbrev pub funds_after : Text → Text → Bool
funds_after text p = has_prefix text p && has_funding_marker (cut text p)

abbrev pub plain_after : Text → Text → Bool
plain_after text p = has_prefix text p && not (has_funding_marker (cut text p))

-- What shows that an open whose reply has this text was not sent, with the classes that it may have.
pub data NotSent (text : Text) (elapsed : ℕ) (window_ok : Bool) (c : OpenClass) : Type 0 where
  before_send :
      ((c ≡ transient_pre_send) × (any (plain_after text) pre_send_prefixes ≡ true))
        ⊎ ((c ≡ wallet_funds) × (any (funds_after text) pre_send_prefixes ≡ true))
      → NotSent text elapsed window_ok c
  in_time :
      any (has_prefix text) pre_send_prefixes ≡ false
      → window_ok ≡ true
      → elapsed < pre_send_proof_window
      → ((c ≡ wallet_funds) × (open_stage_funds text ≡ true))
        ⊎ ((c ≡ transient_window)
            × (open_stage_funds text ≡ false)
            × (any (has_prefix text) window_prefixes ≡ true))
      → NotSent text elapsed window_ok c

-- What stands behind the class of an error: nothing for `maybe_sent`; for the others a reply of the
-- router itself, with a provider-stage text, or with none and a proof that nothing was sent.
pub data Evidence (e : Option CallError) (elapsed : ℕ) (window_ok : Bool) : OpenClass → Type 0 where
  sent : Evidence e elapsed window_ok maybe_sent
  fault :
      (code : ℕ) (text : Text)
      → e ≡ some (status code text)
      → is_transport_err (status code text) ≡ false
      → any (contains text) provider_stage_texts ≡ true
      → Evidence e elapsed window_ok provider_fault
  proven :
      (c : OpenClass) (code : ℕ) (text : Text)
      → e ≡ some (status code text)
      → is_transport_err (status code text) ≡ false
      → any (contains text) provider_stage_texts ≡ false
      → NotSent text elapsed window_ok c
      → Evidence e elapsed window_ok c

double_below_full : (n : ℕ) → double_below n transient_cap ≡ transient_cap
unfolding double_below
double_below_full zero = refl
double_below_full (suc n) = double_below_full n

-- The wait before a retry doubles from half a second and stays at 4 seconds from the fourth on.
pub backoff_step_lem : (n : ℕ) → backoff_step n ≡ min (transient_base * 2 ^ min n 3) transient_cap
unfolding backoff_step
backoff_step_lem zero = refl
backoff_step_lem (suc zero) = refl
backoff_step_lem (suc (suc zero)) = refl
backoff_step_lem (suc (suc (suc n))) =
    let full : min (suc (suc (suc n))) 3 ≡ 3 = omega arith in rw (full, double_below_full n) refl

-- The wait with its jitter is at least half of it and never above it, whatever random number below its
-- bound is drawn.
pub jittered_bounds :
    (d : ℕ) (r : ℕ → ℕ)
    → ((bound : ℕ) → 0 < bound → r bound < bound)
    → (d / 2 ≤ jittered d r) × (jittered d r ≤ d)
unfolding jittered
jittered_bounds d r random = ground (arith, random (d / 2))

-- A wait is a whole number of seconds from 1 to 4, and not below what was asked up to the cap.
pub clamp_transient_bounds :
    (d : ℕ)
    → (second ≤ clamp_transient d)
      × (clamp_transient d ≤ transient_cap)
      × (clamp_transient d % second ≡ 0)
      × (min d transient_cap ≤ clamp_transient d)
unfolding clamp_transient
clamp_transient_bounds d = ground arith
