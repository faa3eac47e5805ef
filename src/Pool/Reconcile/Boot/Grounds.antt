-- ===== src/Pool/Reconcile/Boot/Grounds.antt =====
-- Which sessions a boot reconcile closes (internal/pool/reconcile.go: plan).
use morpheus_uplink.Base.{Bool, false, Option, All}
use morpheus_uplink.Pool.Attempts.{ChainSession}
use morpheus_uplink.Pool.Reconcile.{Decision, close_expired, close_excluded, close_duplicate}
use morpheus_uplink.Pool.Reconcile.Boot.{Decided, Planning}

-- What the plan of a late recovery may close, and that of the boot.
pub data Closable : Bool → Decision → Type 0 where
  over : {late : Bool} → Closable late close_expired
  barred : {late : Bool} → Closable late close_excluded
  second_one : Closable false close_duplicate

-- A close with its grounds.
abbrev pub Due : (ChainSession → Decision → Type 0) → Bool → Decided → Type 0
Due G late d = G d.0 d.1 × Closable late d.1

module _ (G : ChainSession → Decision → Type 0) where
  AllDue : Bool → Planning → Type 0
  AllDue late g =
      All (Due G late) g.expired × All (Due G late) g.excluded × All (Due G late) g.duplicates
