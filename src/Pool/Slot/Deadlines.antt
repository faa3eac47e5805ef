-- ===== src/Pool/Slot/Deadlines.antt =====
-- How long a holder of the wallet slot may keep it busy (internal/pool/slot.go: callCtx).
use morpheus_uplink.Base.{ℕ, ◌+◌, ◌≤◌, ◌≡◌, ◌⊎◌, some, arith, Text}
use morpheus_uplink.Pool.Slot.{
  WalletSlot, SlotToken, try_acquire, new_token, call_time, slot_hold_cap,
}

granted_deadline :
    (s : WalletSlot) (start : ℕ) (key : Text) (tok : SlotToken)
    → (try_acquire s start key).1 ≡ some tok
    → tok.deadline ≡ start + slot_hold_cap
unfolding try_acquire new_token
granted_deadline s start key tok h = ground arith

-- A router call that a holder starts within its hold of the slot ends within it, at most
-- `slot_hold_cap` after the grant, and within its own bound `per` when that is not 0; a call that is
-- started after the hold gets no time at all. It gets less than `per` only when `per` would pass the
-- end of the hold.
pub call_time_within_hold :
    (s : WalletSlot) (start now per : ℕ) (key : Text) (tok : SlotToken)
    → (try_acquire s start key).1 ≡ some tok
    → ((now + call_time tok now per ≤ start + slot_hold_cap) ⊎ (call_time tok now per ≡ 0))
      × ((call_time tok now per ≤ per) ⊎ (per ≡ 0))
      × ((call_time tok now per ≡ per) ⊎ (start + slot_hold_cap ≤ now + per) ⊎ (per ≡ 0))
unfolding call_time
call_time_within_hold s start now per key tok h = ground (arith, granted_deadline s start key tok h)
