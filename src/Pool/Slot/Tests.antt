-- ===== src/Pool/Slot/Tests.antt =====
-- Runs of the wallet slot (internal/pool/slot.go) and instances of its theorems.
use morpheus_uplink.Base.{◌≡◌, refl, false, some, List, [], ◌∷◌, ℕ, Text, codes, dec_text}
use morpheus_uplink.Pool.Slot.{
  WalletSlot, SlotToken, Event, enters, releases, slot_busy, empty_slot, new_token, acquire_enter,
  release, holds, step, run,
}
use morpheus_uplink.Pool.Slot.Invariant.{Inv, run-empty_slot-Inv}
use morpheus_uplink.Pool.Slot.Handoff.{next_holder, release_serves_head}

abbrev alice : Text
alice = codes "alice"

abbrev bob : Text
bob = codes "bob"

-- The first holder's token.
abbrev first : SlotToken
first = new_token empty_slot 0 alice

abbrev arrivals : List (ℕ × Event)
arrivals = (0, enters false alice) ∷ (1, enters false bob) ∷ (2, enters false alice) ∷ []

-- Alice holds the slot, and bob and then alice wait.
abbrev busy : WalletSlot
busy = run empty_slot arrivals

-- Alice has released, and the slot lies in bob's channel.
abbrev passed : WalletSlot
passed = release busy 5 (some first)

abbrev second_token : SlotToken
second_token = new_token busy 5 bob

run-empty_slot-Inv_example : Inv (run empty_slot ((3, releases (some first)) ∷ arrivals))
run-empty_slot-Inv_example = run-empty_slot-Inv ((3, releases (some first)) ∷ arrivals)

release_serves_head_example : (release busy 5 (some first)).holder ≡ next_holder busy 5 busy.waiters
unfolding run step holds new_token empty_slot dec_text
release_serves_head_example = (release_serves_head busy 5 first refl).0

-- A third waiter of one key is refused.
third_refused :
    (acquire_enter (run busy ((3, enters false alice) ∷ [])) 4 false alice).1 ≡ slot_busy
unfolding run step acquire_enter empty_slot new_token dec_text
third_refused = refl
