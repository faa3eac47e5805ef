-- ===== src/Audit/Retention.antt =====
-- What the files of the audit log hold, against the log of all accepted bytes
-- (internal/auditlog/stream.go: Open, Append, rotateLocked).
mod Files
pub mod Held
use mathlib.Core.List.{append-nil, append_assoc}
use morpheus_uplink.Base.{
  ℕ, zero, suc, ◌+◌, ◌-◌, ◌≤◌, ◌<◌, ◌≡◌, refl, sym, subst, ◌∙◌, ap, ◌⊎◌, inl, inr, Bool, true,
  false, ◌&&◌, ◌||◌, not, Option, none, some, List, [], ◌∷◌, ◌++◌, arith, Text, length, All, ltb,
  Bool-cases, length-append, dec_lt,
}
use morpheus_uplink.Audit.{
  Disk, File, Stream, Options, Request, put, take, rotate_locked, write_line, append_line,
  append_value, append, open_stream, with_defaults, needs_rotation, newline, extended, new_file,
  opened_at, open_safe, open_file, shift,
}
use morpheus_uplink.Audit.Retention.Files.{
  content_of, held, put_self, put-other, held_later, held-put, held-none, held-suc, held-empty,
  shift_lem, length-take,
}
use morpheus_uplink.Audit.Retention.Held.{
  accepted, run, FitsIn, Fits, Live, Kept, rotate_locked-Kept, write_line-Kept,
}

-- What holds between two requests.
record Running (L : ℕ) (opt : Options) (log : Text) (s : Stream) : Type 0 where
  kept : Kept L log s
  same_opt : s.opt ≡ opt

opened_at-live :
    (s : Stream) (d : Disk) (o : Option File) (opens : Bool) (now : ℕ)
    → o ≡ none
    → s.live ≡ false
    → let t = opened_at (open_file o d 0 opens now) s in
      (t.opt ≡ s.opt) × ((t.live ≡ true) → t.size ≡ 0)
unfolding opened_at open_file
opened_at-live s d o false now z down = rw z (refl, λ e. ground arith)
opened_at-live s d o true now z down = rw z (refl, λ e. refl)

rotate_locked-live :
    (s : Stream) (opens : Bool) (now : ℕ)
    → ((rotate_locked s opens now).opt ≡ s.opt)
      × (((rotate_locked s opens now).live ≡ true) → (rotate_locked s opens now).size ≡ 0)
unfolding rotate_locked open_safe
rotate_locked-live s opens now =
    let last : ℕ = s.opt.files - 1 in
    let d : Disk = shift last (put s.disk last none) in
    opened_at-live (record s { live = false; disk = d }) d (d 0) opens now
      (shift_lem last (put s.disk last none) (put_self s.disk last none)).0 refl

stays-Running :
    (L : ℕ) (opt : Options) (log : Text) (s t : Stream) (r : Request) (v : Text)
    → t ≡ s
    → s.live ≡ false
    → Running L opt log s
    → Running L opt (log ++ accepted (some v) r t.live) t
stays-Running L opt log s t r v e down h =
    subst (λ u. Running L opt (log ++ accepted (some v) r u.live) u) (sym e)
      (subst (λ b. Running L opt (log ++ accepted (some v) r b) s) (sym down)
        (subst (λ u. Running L opt u s) (sym (append-nil log)) h))

write_line-Running :
    (L : ℕ) (opt : Options) (log : Text) (s : Stream) (r : Request) (v : Text)
    → Running L opt log s
    → 2 ≤ opt.files
    → r.written ≤ length (v ++ newline)
    → (s.live ≡ true → s.size + length (v ++ newline) ≤ s.opt.max_bytes)
    → Running L opt
        (log ++ accepted (some v) r (write_line s r (v ++ newline)).live)
        (write_line s r (v ++ newline))
write_line-Running L opt log s r v h two le room = elim (Bool-cases s.live) [
  | inr down ↦ stays-Running L opt log s _ r v (unfold write_line in ground (arith, down)) down h
  | inl up ↦
      let e : true ≡ (write_line s r (v ++ newline)).live = unfold write_line in rw up refl in
      subst (λ b. Running L opt (log ++ accepted (some v) r b) (write_line s r (v ++ newline))) e
        (record {
          kept =
              write_line-Kept L log s r (v ++ newline) h.kept up (rw h.same_opt (omega arith)) le
                (room up);
          same_opt = unfold write_line in rw up h.same_opt;
        })
]

append_line-Running :
    (L : ℕ) (opt : Options) (log : Text) (s : Stream) (r : Request) (v : Text)
    → L ≤ opt.max_bytes
    → 2 ≤ opt.files
    → (length (v ++ newline) ≤ L) × (r.written ≤ length (v ++ newline))
    → Running L opt log s
    → Running L opt
        (log ++ accepted (some v) r (append_line s r (v ++ newline)).live)
        (append_line s r (v ++ newline))
unfolding append_line needs_rotation
append_line-Running L opt log s r v fit two (short, le) h = elim (Bool-cases s.live) [
  | inr down ↦ stays-Running L opt log s _ r v (ground (arith, down)) down h
  | inl up ↦
      let l = h.kept.live_file up in
      let open_now : (s.disabled || not s.live) ≡ false = rw (l.enabled, up) refl in
      rw open_now (elim (Bool-cases (needs_rotation s (v ++ newline))) [
        | inr room ↦ rw room (write_line-Running L opt log s r v h two le (λ e. has_room room))
        | inl tight ↦
            let t = rotate_locked-live s r.opens r.now in
            rw tight (
              write_line-Running L opt log (rotate_locked s r.opens r.now) r v
                (record {
                  kept =
                      rotate_locked-Kept L log s r.opens r.now h.kept (rw h.same_opt two) l.enabled
                        (no_room l tight);
                  same_opt = t.0 ∙ h.same_opt;
                })
                two le (λ e. rw (t.1 e, t.0, h.same_opt) (omega (arith, short, fit))))
      ])
]
  where
    has_room :
        needs_rotation s (v ++ newline) ≡ false → s.size + length (v ++ newline) ≤ s.opt.max_bytes
    has_room e = rw h.same_opt (ground (arith, e, ap (λ o. o.max_bytes) h.same_opt))

    no_room :
        Live s
        → needs_rotation s (v ++ newline) ≡ true
        → s.opt.max_bytes < length (content_of (s.disk 0)) + L
    no_room l e = rw l.there (ground (arith, e, l.sized))

append_value-Running :
    (o : Option Text) (L : ℕ) (opt : Options) (log : Text) (s : Stream) (r : Request)
    → L ≤ opt.max_bytes
    → 2 ≤ opt.files
    → FitsIn o L r.written
    → Running L opt log s
    → Running L opt (log ++ accepted o r (append_value o s r).live) (append_value o s r)
unfolding append_value
append_value-Running none L opt log s r fit two fits h =
    subst (λ u. Running L opt u s) (sym (append-nil log)) h
append_value-Running (some v) L opt log s r fit two fits h =
    append_line-Running L opt log s r v fit two fits h

run-Running :
    (rs : List Request) (L : ℕ) (opt : Options) (log : Text) (s : Stream)
    → L ≤ opt.max_bytes
    → 2 ≤ opt.files
    → All (Fits L) rs
    → Running L opt log s
    → Running L opt (run s log rs).1 (run s log rs).0
unfolding run append
run-Running [] L opt log s fit two fits h = h
run-Running (r ∷ rs) L opt log s fit two fits h =
    run-Running rs L opt _ _ fit two fits.1
      (append_value-Running r.value L opt log s r fit two fits.0 h)

with_defaults-files : (opt : Options) → 2 ≤ (with_defaults opt).files
unfolding with_defaults
with_defaults-files opt = ground arith

empty-Kept :
    (L : ℕ) (s : Stream)
    → 0 < s.opt.files
    → ((i : ℕ) → content_of (s.disk i) ≡ [])
    → ((i : ℕ) → 0 < i → s.disk i ≡ none)
    → (s.live ≡ true → Live s)
    → Kept L [] s
empty-Kept L s some_file clean absent live = record {
  k = 0;
  k_lt = some_file;
  full = λ i pos le. absurd (omega arith);
  none_above = absent;
  bounded = λ i. rw (clean i) (omega arith);
  lost = [];
  is_tail = sym (held-empty s.opt.files s.disk clean);
  whole = inl refl;
  live_file = live;
}

open_stream-Running :
    (L : ℕ) (opt : Options) (opens : Bool) (now : ℕ)
    → Running L (with_defaults opt) [] (open_stream (λ i. none) opt opens now)
unfolding open_stream opened_at open_safe open_file
open_stream-Running L opt false now = record {
  kept =
      empty-Kept L _ (omega (arith, with_defaults-files opt)) (λ i. refl) (λ i pos. refl)
        (λ e. absurd (ground arith));
  same_opt = refl;
}
open_stream-Running L opt true now = record {
  kept =
      empty-Kept L _ (omega (arith, with_defaults-files opt)) clean
        (λ i pos. put-other (λ j. none) 0 i _ (λ c. omega arith))
        (λ e. record {
          enabled = refl;
          file = new_file now;
          there = put_self (λ j. none) 0 _;
          sized = refl;
        });
  same_opt = refl;
}
  where
    clean : (i : ℕ) → content_of (put (λ j. none) 0 (some (new_file now)) i) ≡ []
    clean zero = ap content_of (put_self (λ j. none) 0 (some (new_file now)))
    clean (suc i) =
        ap content_of (put-other (λ j. none) 0 (suc i) (some (new_file now)) (λ c. omega arith))

-- An audit log that starts in an empty directory, with any requests, keeps a tail of all bytes it has
-- accepted: in the live file and `k` rotated ones, none of them past the maximum. Nothing is lost while
-- a rotated file is missing, and each rotated file was rotated only when it had no room for a line.
-- This holds when no line is longer than `L` bytes nor than a file's maximum, and no write takes more
-- than it is given.
pub run-Kept :
    (L : ℕ) (opt : Options) (opens : Bool) (now : ℕ) (rs : List Request)
    → L ≤ (with_defaults opt).max_bytes
    → All (Fits L) rs
    → let (s, log) = run (open_stream (λ i. none) opt opens now) [] rs in
      Kept L log s × (s.opt ≡ with_defaults opt)
run-Kept L opt opens now rs fit fits =
    let h =
      run-Running rs L (with_defaults opt) [] (open_stream (λ i. none) opt opens now) fit
        (with_defaults-files opt) fits (open_stream-Running L opt opens now) in
    (h.kept, h.same_opt)
