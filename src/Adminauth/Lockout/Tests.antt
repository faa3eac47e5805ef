-- ===== src/Adminauth/Lockout/Tests.antt =====
-- A run of failures (internal/adminauth/lockout.go), and instances of the theorems.
use morpheus_uplink.Base.{
  ℕ, zero, suc, ◌*◌, ◌≡◌, refl, false, Text, codes, arith, dec_text, lookup, insert,
}
use morpheus_uplink.Pool.Slot.{second}
use morpheus_uplink.Adminauth.Lockout.{Lockout, new_lockout, failure, allow, lock_for}
use morpheus_uplink.Adminauth.Lockout.Laws.{failure_locks}

abbrev home : Text
home = codes "10.0.0.7"

-- That many failures, a second apart.
fail_times : ℕ → Lockout
fail_times zero = new_lockout
fail_times (suc n) = (failure (fail_times n) (n * second) home).0

sixth_locks : (failure (fail_times 5) (5 * second) home).1 ≡ 2 * second
unfolding fail_times failure new_lockout lock_for dec_text lookup insert
sixth_locks = refl

failure_locks_example :
    (allow (failure (fail_times 5) (5 * second) home).0 (6 * second) home).1 ≡ false
failure_locks_example =
    failure_locks (fail_times 5) (5 * second) (6 * second) home (rw sixth_locks (omega arith))
      (rw sixth_locks (omega arith))
