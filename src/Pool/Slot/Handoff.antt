-- ===== src/Pool/Slot/Handoff.antt =====
-- Who gets the wallet slot next (internal/pool/slot.go: release, acquire).
use mathlib.Core.List.{append-nil}
use morpheus_uplink.Base.{
  ℕ, ◌-◌, ◌≡◌, refl, sym, ◌⊎◌, inl, inr, Bool, true, false, Option, none, some, List, [], ◌∷◌, ◌++◌,
  arith, Text, ◌==◌, any, Bool-cases,
}
use morpheus_uplink.Pool.Slot.{
  WalletSlot, SlotWaiter, SlotToken, ctx_ended, slot_busy, queued, enqueue, at_cap, is_free,
  new_token, acquire_enter, try_acquire, channel, drain, hand_over, release_ref, release,
  leave_with, acquire_leave, is_released, holds,
}

-- The holder after a release with this queue.
abbrev pub next_holder : WalletSlot → ℕ → List SlotWaiter → Option SlotToken
next_holder s now [] = none
next_holder s now (w ∷ ws) = some (new_token s now w.key)

-- The queue that remains.
abbrev pub rest : List SlotWaiter → List SlotWaiter
rest [] = []
rest (w ∷ ws) = ws

-- What the release puts into the waiters' channels.
abbrev pub sent : WalletSlot → ℕ → List SlotWaiter → List (ℕ × SlotToken)
sent s now [] = []
sent s now (w ∷ ws) = (w.ref, new_token s now w.key) ∷ []

hand_over_lem :
    (ws : List SlotWaiter) (s : WalletSlot) (now : ℕ)
    → s.holder ≡ none
    → s.waiters ≡ ws
    → ((hand_over ws s now).holder ≡ next_holder s now ws)
      × ((hand_over ws s now).waiters ≡ rest ws)
      × ((hand_over ws s now).handed ≡ s.handed ++ sent s now ws)
      × ((hand_over ws s now).released ≡ s.released)
unfolding hand_over
hand_over_lem [] s now e h = (e, h, sym (append-nil s.handed), refl)
hand_over_lem (w ∷ ws) s now e h = (refl, refl, refl, refl)

-- A release by the holder: the head waiter becomes the holder with a new token in its channel, the
-- rest of the queue keeps its order, and with no waiter the slot is free. The token is dead after.
pub release_serves_head :
    (s : WalletSlot) (now : ℕ) (tok : SlotToken)
    → holds s (some tok) ≡ true
    → let t = release s now (some tok) in
      (t.holder ≡ next_holder s now s.waiters)
      × (t.waiters ≡ rest s.waiters)
      × (t.handed ≡ s.handed ++ sent s now s.waiters)
      × (holds t (some tok) ≡ false)
unfolding release release_ref holds new_token
release_serves_head s now tok h = ground (
  arith,
  hand_over_lem s.waiters
      (record s { released = tok.ref ∷ s.released; holder = none; held = s.held - 1 }) now,
)

any_self : (r : ℕ) (rs : List ℕ) → any (λ x. x == r) (r ∷ rs) ≡ true
any_self r rs = ground arith

release_ref-marks : (s : WalletSlot) (now ref : ℕ) → is_released (release_ref s now ref) ref ≡ true
unfolding release_ref
release_ref-marks s now ref = ground (
  arith,
  any_self ref s.released,
  hand_over_lem s.waiters
      (record s { released = ref ∷ s.released; holder = none; held = s.held - 1 }) now,
)

release_ref_dead :
    (s : WalletSlot) (now ref : ℕ) → is_released s ref ≡ true → release_ref s now ref ≡ s
unfolding release_ref
release_ref_dead s now ref h = rw h

-- A second release of the same token changes nothing, whatever the first one did and whenever it
-- comes.
pub release_idempotent :
    (s : WalletSlot) (now later : ℕ) (tok : Option SlotToken)
    → release (release s now tok) later tok ≡ release s now tok
unfolding release
release_idempotent s now later none = refl
release_idempotent s now later (some tok) =
    release_ref_dead (release_ref s now tok.ref) later tok.ref (release_ref-marks s now tok.ref)

-- A waiter whose context or timer fires at the moment it is handed the slot passes it on: the slot
-- goes to the next waiter, or is free, and the token in its channel is taken out.
pub acquire_leave_passes_on :
    (s : WalletSlot) (now w : ℕ) (tok : SlotToken)
    → channel w s.handed ≡ some tok
    → holds s (some tok) ≡ true
    → let t = acquire_leave s now w in
      (t.holder ≡ next_holder s now s.waiters)
      × (t.waiters ≡ rest s.waiters)
      × (t.handed ≡ drain w s.handed ++ sent s now s.waiters)
      × (holds t (some tok) ≡ false)
unfolding acquire_leave leave_with holds new_token
acquire_leave_passes_on s now w tok c h =
    rw (c, leave_with) (release_serves_head (record s { handed = drain w s.handed }) now tok h)

-- Nobody overtakes the queue: while the slot is held or somebody waits, an arrival leaves the holder
-- and the queue as they are, or joins the end of the queue.
pub acquire_enter_no_barging :
    (s : WalletSlot) (now : ℕ) (ctx_done : Bool) (key : Text)
    → is_free s ≡ false
    → let (t, out) = acquire_enter s now ctx_done key in
      (t.holder ≡ s.holder)
      × (((t.waiters ≡ s.waiters) × ((out ≡ ctx_ended) ⊎ (out ≡ slot_busy)))
          ⊎ ((w : SlotWaiter) × (t.waiters ≡ s.waiters ++ w ∷ [])
              × (w.key ≡ key)
              × (out ≡ queued w)))
      × (try_acquire s now key ≡ (s, none))
unfolding acquire_enter try_acquire
acquire_enter_no_barging s now true key h = (refl, inl (refl, inl refl), ground arith)
acquire_enter_no_barging s now false key h = rw h (elim (Bool-cases (at_cap s key)) [
  | inl full ↦ rw full (refl, inl (refl, inr refl), refl)
  | inr room ↦
      rw (room, enqueue) (refl, inr (record { ref = s.fresh; key = key }, refl, refl, refl), refl)
])
