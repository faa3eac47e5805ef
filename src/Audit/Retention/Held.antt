-- ===== src/Audit/Retention/Held.antt =====
-- What one rotation and one write keep of the audit log
-- (internal/auditlog/stream.go: Open, Append, rotateLocked).
use mathlib.Core.List.{append_assoc}
use morpheus_uplink.Base.{
  ℕ, zero, suc, ◌+◌, ◌-◌, ◌≤◌, ◌<◌, ◌≡◌, refl, sym, ◌∙◌, ap, ◌⊎◌, inl, inr, Bool, true, false,
  Option, none, some, List, [], ◌∷◌, ◌++◌, arith, Text, length, length-append, dec_lt,
}
use morpheus_uplink.Audit.{
  Disk, File, Stream, Request, put, take, rotate_locked, write_line, append, newline, extended,
  new_file, opened_at, open_safe, open_file, shift,
}
use morpheus_uplink.Audit.Retention.Files.{
  content_of, held, put_self, put-other, held_later, held-put, held-none, held-suc, shift_lem,
  length-take,
}

-- What a request puts into the log, given whether the live file is open after it.
abbrev pub accepted : Option Text → Request → Bool → Text
accepted none r live = []
accepted (some v) r false = []
accepted (some v) r true = take r.written (v ++ newline)

-- The stream and the whole log after the requests.
unfoldable pub run : Stream → Text → List Request → Stream × Text
run s log [] = (s, log)
run s log (r ∷ rs) = let t : Stream = append s r in run t (log ++ accepted r.value r t.live) rs

-- A line of at most `L` bytes; a write takes no more than it is given.
abbrev pub FitsIn : Option Text → ℕ → ℕ → Type 0
FitsIn none L written = Unit
FitsIn (some v) L written = (length (v ++ newline) ≤ L) × (written ≤ length (v ++ newline))

abbrev pub Fits : ℕ → Request → Type 0
Fits L r = FitsIn r.value L r.written

pub record Live (s : Stream) : Type 0 where
  pub enabled : s.disabled ≡ false
  pub file : File
  pub there : s.disk 0 ≡ some file
  pub sized : length file.content ≡ s.size

-- The stream holds a tail of the log in its live file and `k` rotated ones, and what came before is
-- lost only when every rotated file is there.
pub record Kept (L : ℕ) (log : Text) (s : Stream) : Type 0 where
  pub k : ℕ
  pub k_lt : k < s.opt.files
  pub full : (i : ℕ) → 0 < i → i ≤ k → s.opt.max_bytes < length (content_of (s.disk i)) + L
  pub none_above : (i : ℕ) → k < i → s.disk i ≡ none
  pub bounded : (i : ℕ) → length (content_of (s.disk i)) ≤ s.opt.max_bytes
  pub lost : Text
  pub is_tail : log ≡ lost ++ held s.opt.files s.disk
  pub whole : (lost ≡ []) ⊎ (k + 1 ≡ s.opt.files)
  pub live_file : s.live ≡ true → Live s

abbrev Rotated : Disk → Disk → ℕ → Type 0
Rotated d e last =
    (content_of (e 0) ≡ [])
    × ((i : ℕ) → i < last → e (suc i) ≡ d i)
    × ((i : ℕ) → last < i → e i ≡ d i)

-- The disk after the renames, and with a new live file put there.
shifted-Rotated : (last : ℕ) (d : Disk) → Rotated d (shift last (put d last none)) last
shifted-Rotated last d =
    let r = shift_lem last (put d last none) (put_self d last none) in
    (
      rw r.0 refl,
      λ i lt. r.1 i lt ∙ put-other d last i none (λ c. omega arith),
      λ i lt. r.2 i lt ∙ put-other d last i none (λ c. omega arith),
    )

-- The files after a rotation of a live file that had no room for a line of at most `L` bytes.
Rotated-Kept :
    (L last : ℕ) (log : Text) (s t : Stream)
    → Kept L log s
    → s.opt.files ≡ suc last
    → 0 < last
    → t.opt ≡ s.opt
    → Rotated s.disk t.disk last
    → s.opt.max_bytes < length (content_of (s.disk 0)) + L
    → (t.live ≡ true → Live t)
    → Kept L log t
Rotated-Kept L last log s t h fs pos o (z, low, high) tight live = elim (dec_lt h.k last) [
  | yes room ↦ record {
    k = suc h.k;
    k_lt = rw (o, fs) (omega arith);
    full = full (suc h.k) (omega arith) (omega arith);
    none_above = gone;
    bounded = bounded;
    lost = h.lost;
    is_tail =
        tail ∙ ap (λ u. h.lost ++ u) (held-none last s.disk (h.none_above last room)) ∙ back h.lost;
    whole = elim h.whole [ inl e ↦ inl e | inr e ↦ absurd (omega (arith, fs)) ];
    live_file = live;
  }
  | no top ↦ record {
    k = h.k;
    k_lt = rw o h.k_lt;
    full = full h.k (omega arith) (omega (arith, fs, h.k_lt));
    none_above = λ i lt. high i (omega arith) ∙ h.none_above i lt;
    bounded = bounded;
    lost = h.lost ++ content_of (s.disk last);
    is_tail =
        tail
        ∙ ap (λ u. h.lost ++ u) (held-suc last s.disk)
        ∙ sym (append_assoc h.lost (content_of (s.disk last)) (held last s.disk))
        ∙ back (h.lost ++ content_of (s.disk last));
    whole = inr (rw o (omega (arith, fs, h.k_lt)));
    live_file = live;
  }
]
  where
    full :
        (k : ℕ)
        → k ≤ suc h.k
        → k ≤ last
        → (i : ℕ) → 0 < i
        → i ≤ k
        → t.opt.max_bytes < length (content_of (t.disk i)) + L
    full k le le' zero lt lt' = absurd (omega arith)
    full k le le' (suc zero) lt lt' = rw (o, low 0 (omega arith)) tight
    full k le le' (suc (suc i)) lt lt' =
        rw (o, low (suc i) (omega arith)) (h.full (suc i) (omega arith) (omega arith))

    bounded : (i : ℕ) → length (content_of (t.disk i)) ≤ t.opt.max_bytes
    bounded zero = rw z (omega arith)
    bounded (suc i) = elim (dec_lt i last) [
      | yes lt ↦ rw (o, low i lt) (h.bounded i)
      | no ge ↦ rw (o, high (suc i) (omega arith)) (h.bounded (suc i))
    ]

    after : held (suc last) t.disk ≡ held last s.disk
    after = held_later last s.disk t.disk z low

    gone : (i : ℕ) → suc h.k < i → t.disk i ≡ none
    gone zero lt = absurd (omega arith)
    gone (suc i) lt = elim (dec_lt i last) [
      | yes low_one ↦ low i low_one ∙ h.none_above i (omega arith)
      | no ge ↦ high (suc i) (omega arith) ∙ h.none_above (suc i) (omega arith)
    ]

    tail : log ≡ h.lost ++ held (suc last) s.disk
    tail = h.is_tail ∙ ap (λ n. h.lost ++ held n s.disk) fs

    back : (u : Text) → u ++ held last s.disk ≡ u ++ held t.opt.files t.disk
    back u =
        ap (λ v. u ++ v) (sym after) ∙ ap (λ n. u ++ held n t.disk) (sym (ap (λ p. p.files) o ∙ fs))

opened_at-Kept :
    (L last : ℕ) (log : Text) (s : Stream) (d : Disk) (opens : Bool) (now : ℕ)
    → Kept L log s
    → s.opt.files ≡ suc last
    → 0 < last
    → s.disabled ≡ false
    → d 0 ≡ none
    → Rotated s.disk d last
    → s.opt.max_bytes < length (content_of (s.disk 0)) + L
    → Kept L log (opened_at (open_safe d 0 opens now) (record s { live = false; disk = d }))
unfolding opened_at open_safe open_file
opened_at-Kept L last log s d false now h fs pos on z r tight =
    rw z (Rotated-Kept L last log s _ h fs pos refl r tight (λ e. absurd (ground arith)))
opened_at-Kept L last log s d true now h fs pos on z r tight = rw z (
    Rotated-Kept L last log s _ h fs pos refl
      (
        ap content_of (put_self d 0 (some (new_file now))),
        (λ i lt. put-other d 0 (suc i) _ (λ c. omega arith) ∙ r.1 i lt),
        (λ i lt. put-other d 0 i _ (λ c. omega arith) ∙ r.2 i lt),
      )
      tight
      (λ e. record { enabled = on; file = new_file now; there = put_self d 0 _; sized = refl }))

pub rotate_locked-Kept :
    (L : ℕ) (log : Text) (s : Stream) (opens : Bool) (now : ℕ)
    → Kept L log s
    → 2 ≤ s.opt.files
    → s.disabled ≡ false
    → s.opt.max_bytes < length (content_of (s.disk 0)) + L
    → Kept L log (rotate_locked s opens now)
unfolding rotate_locked
rotate_locked-Kept L log s opens now h two on tight =
    let last : ℕ = s.opt.files - 1 in
    opened_at-Kept L last log s (shift last (put s.disk last none)) opens now h (omega arith)
      (omega arith) on (shift_lem last (put s.disk last none) (put_self s.disk last none)).0
      (shifted-Rotated last s.disk) tight

-- A write that has room for its line.
pub write_line-Kept :
    (L : ℕ) (log : Text) (s : Stream) (r : Request) (line : Text)
    → Kept L log s
    → s.live ≡ true
    → 0 < s.opt.files
    → r.written ≤ length line
    → s.size + length line ≤ s.opt.max_bytes
    → Kept L (log ++ take r.written line) (write_line s r line)
unfolding write_line extended
write_line-Kept L log s r line h up some_file le room = rw up (record {
  k = h.k;
  k_lt = h.k_lt;
  full = λ i pos lt. rw (put-other s.disk 0 i _ (λ c. omega arith)) (h.full i pos lt);
  none_above = λ i lt. put-other s.disk 0 i _ (λ c. omega arith) ∙ h.none_above i lt;
  bounded = bounded;
  lost = h.lost;
  is_tail =
      ap (λ u. u ++ take r.written line) h.is_tail
      ∙ append_assoc h.lost (held s.opt.files s.disk) (take r.written line)
      ∙ ap (λ u. h.lost ++ u)
          (sym (held-put s.opt.files s.disk l.file (take r.written line) r.now some_file l.there));
  whole = h.whole;
  live_file = λ e. record { enabled = l.enabled; file = grown; there = there; sized = sized };
})
  where
    l : Live s
    l = h.live_file up

    grown : File
    grown = record (l.file) { content = l.file.content ++ take r.written line; modified = r.now }

    there : put s.disk 0 (extended (s.disk 0) (take r.written line) r.now) 0 ≡ some grown
    there = put_self s.disk 0 _ ∙ rw l.there refl

    sized : length grown.content ≡ s.size + r.written
    sized =
        length-append l.file.content (take r.written line)
        ∙ omega (arith, l.sized, length-take r.written line le)

    bounded :
        (i : ℕ)
        → length (content_of (put s.disk 0 (extended (s.disk 0) (take r.written line) r.now) i))
          ≤ s.opt.max_bytes
    bounded zero = rw there (omega (arith, sized))
    bounded (suc i) = rw (put-other s.disk 0 (suc i) _ (λ c. omega arith)) (h.bounded (suc i))
