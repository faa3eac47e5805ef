-- ===== src/Pool/Slot/Invariant.antt =====
-- What holds of the wallet slot between two critical sections (internal/pool/slot.go).
use morpheus_uplink.Base.{
  ℕ, ◌+◌, ◌≤◌, ◌<◌, ◌≡◌, refl, ◌≢◌, inl, inr, Bool, true, Option, none, some, List, [], ◌∷◌, ◌++◌,
  arith, Text, same, ◌==◌, keep, not, Bool-cases, count_if-append,
}
use morpheus_uplink.Pool.Slot.{
  WalletSlot, SlotWaiter, SlotToken, Event, enters, tries, receives, leaves, releases, queued_for,
  max_queued_per_key, empty_slot, grant_locked, try_acquire, acquire_enter, channel, hand_over,
  enqueue, release_ref, release, leave_with, step, run, is_released, holds_ref, drain,
}

-- The queue is in order of arrival, and every waiter in it stands between the two bounds.
abbrev pub Arrived : ℕ → ℕ → List SlotWaiter → Type 0
Arrived lo hi [] = lo ≤ hi
Arrived lo hi (w ∷ ws) = (lo ≤ w.ref) × Arrived (w.ref + 1) hi ws

abbrev pub holders : Option SlotToken → ℕ
holders none = 0
holders (some tok) = 1

pub record Inv (s : WalletSlot) : Type 0 where
  pub held_exact : s.held ≡ holders s.holder
  pub one_at_most : s.max_held ≤ 1
  pub no_lost_slot : s.holder ≡ none → s.waiters ≡ []
  pub in_order : Arrived 0 s.fresh s.waiters
  pub capped : (key : Text) → key ≢ [] → queued_for key s.waiters ≤ max_queued_per_key

pub Arrived-mono :
    (lo hi lo' hi' : ℕ) (ws : List SlotWaiter)
    → lo' ≤ lo
    → hi ≤ hi'
    → Arrived lo hi ws
    → Arrived lo' hi' ws
Arrived-mono lo hi lo' hi' [] p q h = omega arith
Arrived-mono lo hi lo' hi' (w ∷ ws) p q h =
    (omega arith, Arrived-mono (w.ref + 1) hi (w.ref + 1) hi' ws (omega arith) q h.1)

Arrived-snoc :
    (lo hi : ℕ) (ws : List SlotWaiter) (key : Text)
    → Arrived lo hi ws
    → Arrived lo (hi + 1) (ws ++ record { ref = hi; key = key } ∷ [])
Arrived-snoc lo hi [] key h = omega arith
Arrived-snoc lo hi (w ∷ ws) key h = (h.0, Arrived-snoc (w.ref + 1) hi ws key h.1)

Arrived-keep :
    (p : SlotWaiter → Bool) (lo hi : ℕ) (ws : List SlotWaiter)
    → Arrived lo hi ws
    → Arrived lo hi (keep p ws)
Arrived-keep p lo hi [] h = h
Arrived-keep p lo hi (w ∷ ws) h = elim (Bool-cases (p w)) [
  | inl e ↦ rw e (h.0, Arrived-keep p (w.ref + 1) hi ws h.1)
  | inr e ↦ rw e (
      Arrived-mono (w.ref + 1) hi lo hi (keep p ws) (omega arith) (omega arith)
        (Arrived-keep p (w.ref + 1) hi ws h.1))
]

queued_for-keep-le :
    (p : SlotWaiter → Bool) (key : Text) (ws : List SlotWaiter)
    → queued_for key (keep p ws) ≤ queued_for key ws
queued_for-keep-le p key [] = omega arith
queued_for-keep-le p key (w ∷ ws) = ground (arith, queued_for-keep-le p key ws)

empty_slot-Inv : Inv empty_slot
unfolding empty_slot
empty_slot-Inv = record {
  held_exact = refl;
  one_at_most = omega arith;
  no_lost_slot = λ e. refl;
  in_order = omega arith;
  capped = λ key h. omega arith;
}

-- A slot with no holder and no waiter may be granted.
grant_locked-Inv :
    (s : WalletSlot) (now : ℕ) (key : Text)
    → Inv s
    → s.holder ≡ none
    → s.waiters ≡ []
    → Inv (grant_locked s now key)
unfolding grant_locked
grant_locked-Inv s now key v free alone = record {
  held_exact = rw (v.held_exact, free);
  one_at_most = ground (arith, v.held_exact, v.one_at_most);
  no_lost_slot = λ e. cc;
  in_order =
      Arrived-mono 0 s.fresh 0 (s.fresh + 1) s.waiters (omega arith) (omega arith) v.in_order;
  capped = v.capped;
}

enqueue-Inv :
    (s : WalletSlot) (key : Text)
    → Inv s
    → s.holder ≢ none
    → (key ≢ [] → queued_for key s.waiters < max_queued_per_key)
    → Inv (enqueue s key).0
unfolding enqueue
enqueue-Inv s key v busy room = record {
  held_exact = v.held_exact;
  one_at_most = v.one_at_most;
  no_lost_slot = λ e. absurd (busy e);
  in_order = Arrived-snoc 0 s.fresh s.waiters key v.in_order;
  capped = λ k h. capped_key k h;
}
  where
    capped_key :
        (k : Text)
        → k ≢ []
        → queued_for k (s.waiters ++ record { ref = s.fresh; key = key } ∷ []) ≤ max_queued_per_key
    capped_key k h = ground (
      arith,
      v.capped k h,
      room,
      count_if-append (λ (w : SlotWaiter). same w.key k) s.waiters
          (record { ref = s.fresh; key = key } ∷ []),
    )

try_acquire-Inv : (s : WalletSlot) (now : ℕ) (key : Text) → Inv s → Inv (try_acquire s now key).0
unfolding try_acquire
try_acquire-Inv s now key v = ground (arith, grant_locked-Inv s now key v)

acquire_enter-Inv :
    (s : WalletSlot) (now : ℕ) (ctx_done : Bool) (key : Text)
    → Inv s
    → Inv (acquire_enter s now ctx_done key).0
unfolding acquire_enter
acquire_enter-Inv s now ctx_done key v =
    ground (arith, grant_locked-Inv s now key v, enqueue-Inv s key v, v.no_lost_slot)

-- A slot that is between two holders goes to the head of the queue.
hand_over-Inv :
    (ws : List SlotWaiter) (s : WalletSlot) (now : ℕ)
    → s.max_held ≤ 1
    → Arrived 0 s.fresh ws
    → ((key : Text) → key ≢ [] → queued_for key ws ≤ max_queued_per_key)
    → s.waiters ≡ ws
    → s.holder ≡ none
    → s.held ≡ 0
    → Inv (hand_over ws s now)
unfolding hand_over
hand_over-Inv [] s now most order cap e h z = record {
  held_exact = rw (z, h);
  one_at_most = most;
  no_lost_slot = λ _. e;
  in_order = rw e order;
  capped = rw e cap;
}
hand_over-Inv (w ∷ ws) s now most order cap e h z = record {
  held_exact = rw z;
  one_at_most = ground arith;
  no_lost_slot = λ g. cc;
  in_order =
      Arrived-mono (w.ref + 1) s.fresh 0 (s.fresh + 1) ws (omega arith) (omega arith) order.1;
  capped = λ key k. omega (arith, cap key k);
}

mark-Inv : (s : WalletSlot) (ref : ℕ) → Inv s → Inv (record s { released = ref ∷ s.released })
mark-Inv s ref v = record {
  held_exact = v.held_exact;
  one_at_most = v.one_at_most;
  no_lost_slot = v.no_lost_slot;
  in_order = v.in_order;
  capped = v.capped;
}

held_of_holder : (s : WalletSlot) (ref : ℕ) → Inv s → holds_ref s.holder ref ≡ true → s.held ≡ 1
held_of_holder s ref v e = ground (arith, v.held_exact)

release_ref-Inv : (s : WalletSlot) (now ref : ℕ) → Inv s → Inv (release_ref s now ref)
unfolding release_ref
release_ref-Inv s now ref v = elim (Bool-cases (is_released s ref)) [
  | inl old ↦ rw old v
  | inr new ↦ rw new (elim (Bool-cases (holds_ref s.holder ref)) [
    | inr other ↦ rw other (mark-Inv s ref v)
    | inl mine ↦ rw mine (
        hand_over-Inv s.waiters _ now v.one_at_most v.in_order v.capped refl refl
          (omega (arith, held_of_holder s ref v mine)))
  ])
]

release-Inv : (s : WalletSlot) (now : ℕ) (tok : Option SlotToken) → Inv s → Inv (release s now tok)
unfolding release
release-Inv s now none v = v
release-Inv s now (some tok) v = release_ref-Inv s now tok.ref v

drained-Inv : (s : WalletSlot) (l : List (ℕ × SlotToken)) → Inv s → Inv (record s { handed = l })
drained-Inv s l v = record {
  held_exact = v.held_exact;
  one_at_most = v.one_at_most;
  no_lost_slot = v.no_lost_slot;
  in_order = v.in_order;
  capped = v.capped;
}

leave_with-Inv :
    (tok : Option SlotToken) (s : WalletSlot) (now w : ℕ) → Inv s → Inv (leave_with tok s now w)
unfolding leave_with
leave_with-Inv (some tok) s now w v =
    release-Inv (record s { handed = drain w s.handed }) now (some tok)
      (drained-Inv s (drain w s.handed) v)
leave_with-Inv none s now w v = record {
  held_exact = v.held_exact;
  one_at_most = v.one_at_most;
  no_lost_slot = λ e. rw (v.no_lost_slot e);
  in_order = Arrived-keep (λ x. not (x.ref == w)) 0 s.fresh s.waiters v.in_order;
  capped = λ key k.
      omega (arith, v.capped key k, queued_for-keep-le (λ x. not (x.ref == w)) key s.waiters);
}

-- Every critical section keeps the invariant, with any context, key, waiter or token.
pub step-Inv : (s : WalletSlot) (e : ℕ × Event) → Inv s → Inv (step s e)
unfolding step
step-Inv s (now, enters ctx_done key) v = acquire_enter-Inv s now ctx_done key v
step-Inv s (now, tries key) v = try_acquire-Inv s now key v
step-Inv s (now, receives w) v = drained-Inv s (drain w s.handed) v
step-Inv s (now, leaves w) v = leave_with-Inv (channel w s.handed) s now w v
step-Inv s (now, releases tok) v = release-Inv s now tok v

run-Inv : (s : WalletSlot) (es : List (ℕ × Event)) → Inv s → Inv (run s es)
unfolding run
run-Inv s [] v = v
run-Inv s (e ∷ es) v = run-Inv (step s e) es (step-Inv s e v)

-- After any interleaving of critical sections, in any order and at any times, on a new slot: the
-- count of tokens held is 1 when there is a holder and 0 when there is none, and was never above 1;
-- a free slot has no waiter; the queue is in order of arrival; and no key but the empty one has more
-- than `max_queued_per_key` waiters.
pub run-empty_slot-Inv : (es : List (ℕ × Event)) → Inv (run empty_slot es)
run-empty_slot-Inv es = run-Inv empty_slot es empty_slot-Inv
