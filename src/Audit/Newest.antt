-- ===== src/Audit/Newest.antt =====
-- What the audit log shows: its newest lines (internal/auditlog/stream.go: Tail, tailLines).
use mathlib.Core.List.{append-nil, append_assoc}
use morpheus_uplink.Base.{
  ℕ, zero, suc, ◌+◌, ◌-◌, ◌≤◌, ◌<◌, ◌≡◌, refl, sym, subst, ◌∙◌, ap, inl, inr, false, Option, none,
  some, List, [], ◌∷◌, ◌++◌, arith, Text, length, ltb, ◌==◌, if◌then◌else◌, trim_space, Bool-cases,
  length-append, dec_le,
}
use morpheus_uplink.Audit.{
  Disk, File, Stream, into_ring, fill_ring, without_first, tail_lines, tail_from, tail, is_regular,
  read_window,
}

-- The list without its first `k` elements.
abbrev past : ℕ → List Text → List Text
past zero xs = xs
past (suc k) [] = []
past (suc k) (x ∷ xs) = past k xs

-- The last `n` elements, or all when there are fewer.
abbrev pub last_of : ℕ → List Text → List Text
last_of n xs = past (length xs - n) xs

-- The lines that are not empty.
abbrev filled : List Text → List Text
filled [] = []
filled (b ∷ bs) = if length (trim_space b) == 0 then filled bs else trim_space b ∷ filled bs

abbrev lines_of : (Text → List Text) → Option File → List Text
lines_of scan none = []
lines_of scan (some f) = if is_regular f.kind then filled (scan (read_window f.content)) else []

-- The lines of `k` files from `i` on, the oldest first.
unfoldable pub all_lines : (Text → List Text) → Disk → ℕ → ℕ → List Text
all_lines scan d zero i = []
all_lines scan d (suc k) i = all_lines scan d k (i + 1) ++ lines_of scan (d i)

past-append : (k : ℕ) (xs ys : List Text) → k ≤ length xs → past k (xs ++ ys) ≡ past k xs ++ ys
past-append zero xs ys le = refl
past-append (suc k) [] ys le = absurd (omega arith)
past-append (suc k) (x ∷ xs) ys le = past-append k xs ys (omega arith)

past-beyond : (k : ℕ) (xs ys : List Text) → past (length xs + k) (xs ++ ys) ≡ past k ys
past-beyond k [] ys = ap (λ n. past n ys) (omega arith)
past-beyond k (x ∷ xs) ys =
    ap (λ n. past n (x ∷ (xs ++ ys))) {y = suc (length xs + k)} (omega arith) ∙ past-beyond k xs ys

length-past : (k : ℕ) (xs : List Text) → length (past k xs) ≡ length xs - k
length-past zero xs = omega arith
length-past (suc k) [] = omega arith
length-past (suc k) (x ∷ xs) = omega (arith, length-past k xs)

length-last_of : (n : ℕ) (xs : List Text) → length (last_of n xs) ≤ n
length-last_of n xs = omega (arith, length-past (length xs - n) xs)

last_of-all : (n : ℕ) (xs : List Text) → length xs ≤ n → last_of n xs ≡ xs
last_of-all n xs le = ap (λ k. past k xs) {y = 0} (omega arith)

-- The newer part fits: the older part gives the rest.
last_of-append :
    (n : ℕ) (xs ys : List Text)
    → length ys ≤ n
    → last_of n (xs ++ ys) ≡ last_of (n - length ys) xs ++ ys
last_of-append n xs ys le =
    ap (λ k. past k (xs ++ ys)) (rw (length-append xs ys) (omega arith))
    ∙ past-append (length xs - (n - length ys)) xs ys (omega arith)

last_of-newer : (n : ℕ) (xs ys : List Text) → n ≤ length ys → last_of n (xs ++ ys) ≡ last_of n ys
last_of-newer n xs ys le =
    ap (λ k. past k (xs ++ ys)) (rw (length-append xs ys) (omega arith))
    ∙ past-beyond (length ys - n) xs ys

last_of-last_of :
    (n : ℕ) (xs ys : List Text) → last_of n (xs ++ last_of n ys) ≡ last_of n (xs ++ ys)
last_of-last_of n xs ys = elim (dec_le n (length ys)) [
  | yes le ↦
      last_of-newer n xs (last_of n ys) (omega (arith, length-past (length ys - n) ys))
      ∙ last_of-all n (last_of n ys) (length-last_of n ys)
      ∙ sym (last_of-newer n xs ys le)
  | no gt ↦ ap (λ zs. last_of n (xs ++ zs)) (last_of-all n ys (omega arith))
]

past-split : (k : ℕ) (xs : List Text) → (pre : List Text) × (xs ≡ pre ++ past k xs)
past-split zero xs = ([], refl)
past-split (suc k) [] = ([], refl)
past-split (suc k) (x ∷ xs) = let (pre, e) = past-split k xs in (x ∷ pre, ap (λ t. x ∷ t) e)

last_of-older : (n : ℕ) (xs ys : List Text) → last_of n (last_of n xs ++ ys) ≡ last_of n (xs ++ ys)
last_of-older n xs ys = elim (dec_le (length xs) n) [
  | yes le ↦ ap (λ zs. last_of n (zs ++ ys)) (last_of-all n xs le)
  | no gt ↦
      let (pre, e) = past-split (length xs - n) xs in
      let L : List Text = last_of n xs in
      let long : n ≤ length (L ++ ys) =
        omega (arith, length-append L ys, length-past (length xs - n) xs) in
      sym (last_of-newer n pre (L ++ ys) long)
      ∙ ap (last_of n) (sym (append_assoc pre L ys))
      ∙ ap (λ zs. last_of n (zs ++ ys)) (sym e)
]

last_of-zero : (xs : List Text) → last_of 0 xs ≡ []
last_of-zero xs = none_left (last_of 0 xs) (length-last_of 0 xs)
  where
    none_left : (ys : List Text) → length ys ≤ 0 → ys ≡ []
    none_left [] le = refl
    none_left (y ∷ ys) le = absurd (omega arith)

full_ring :
    (ring : List Text) (line : Text)
    → 0 < length ring
    → last_of (length ring) (ring ++ line ∷ []) ≡ without_first ring ++ line ∷ []
full_ring [] line pos = absurd (omega arith)
full_ring (x ∷ xs) line pos =
    ap (λ k. past k (x ∷ (xs ++ line ∷ []))) {y = 1} (omega (arith, length-append xs (line ∷ [])))

into_ring-last_of :
    (n : ℕ) (ring : List Text) (line : Text)
    → 0 < n
    → length ring ≤ n
    → into_ring n ring line ≡ (if length line == 0 then ring else last_of n (ring ++ line ∷ []))
unfolding into_ring
into_ring-last_of n ring line pos le = elim (Bool-cases (length line == 0)) [
  | inl e ↦ rw e refl
  | inr ne ↦ rw ne (elim (Bool-cases (length ring == n)) [
    | inr room ↦ rw room (sym (last_of-all n (ring ++ line ∷ []) (short room)))
    | inl full ↦
        let at : length ring ≡ n = ground (arith, full) in
        rw full (
          subst (λ m. without_first ring ++ line ∷ [] ≡ last_of m (ring ++ line ∷ [])) at
            (sym (full_ring ring line (omega arith))))
  ])
]
  where
    short : (length ring == n) ≡ false → length (ring ++ line ∷ []) ≤ n
    short room = ground (arith, length-append ring (line ∷ []))

fill_ring-last_of :
    (bs : List Text) (n : ℕ) (ring : List Text)
    → 0 < n
    → length ring ≤ n
    → fill_ring n ring bs ≡ last_of n (ring ++ filled bs)
unfolding fill_ring
fill_ring-last_of [] n ring pos le =
    sym (last_of-all n ring le) ∙ ap (last_of n) (sym (append-nil ring))
fill_ring-last_of (b ∷ bs) n ring pos le =
    let t : Text = trim_space b in
    let more : List Text = last_of n (ring ++ t ∷ []) in
    let step = into_ring-last_of n ring t pos le in
    elim (Bool-cases (length t == 0)) [
      | inl e ↦
          let skipped : filled bs ≡ filled (b ∷ bs) = rw e refl in
          ap (λ r. fill_ring n r bs) (step ∙ ap (λ c. if c then ring else more) e)
          ∙ fill_ring-last_of bs n ring pos le
          ∙ ap (λ zs. last_of n (ring ++ zs)) skipped
      | inr ne ↦
          let taken : t ∷ filled bs ≡ filled (b ∷ bs) = rw ne refl in
          ap (λ r. fill_ring n r bs) (step ∙ ap (λ c. if c then ring else more) ne)
          ∙ fill_ring-last_of bs n more pos (length-last_of n (ring ++ t ∷ []))
          ∙ last_of-older n (ring ++ t ∷ []) (filled bs)
          ∙ ap (last_of n) (append_assoc ring (t ∷ []) (filled bs))
          ∙ ap (λ zs. last_of n (ring ++ zs)) taken
    ]

tail_lines-last_of :
    (scan : Text → List Text) (o : Option File) (n : ℕ)
    → tail_lines scan o n ≡ last_of n (lines_of scan o)
unfolding tail_lines
tail_lines-last_of scan none n = sym (last_of-all n [] (omega arith))
tail_lines-last_of scan (some f) n = elim (Bool-cases (n == 0)) [
  | inl e ↦
      let at : n ≡ 0 = ground (arith, e) in
      rw e (
        sym (last_of-zero (lines_of scan (some f)))
        ∙ ap (λ m. last_of m (lines_of scan (some f))) (sym at))
  | inr ne ↦ rw ne (elim (Bool-cases (is_regular f.kind)) [
    | inr odd ↦ rw odd (sym (last_of-all n [] (omega arith)))
    | inl fine ↦
        rw fine
          (fill_ring-last_of (scan (read_window f.content)) n [] (ground (arith, ne)) (omega arith))
  ])
]

tail_from-last_of :
    (scan : Text → List Text) (d : Disk) (k i n : ℕ) (out : List Text)
    → length out ≤ n
    → tail_from scan d k i n out ≡ last_of n (all_lines scan d k i ++ out)
unfolding tail_from all_lines
tail_from-last_of scan d zero i n out le = sym (last_of-all n out le)
tail_from-last_of scan d (suc k) i n out le = elim (Bool-cases (ltb (length out) n)) [
  | inl room ↦
      let older : List Text = all_lines scan d k (i + 1) in
      let new : List Text = lines_of scan (d i) in
      let got : List Text = tail_lines scan (d i) (n - length out) in
      let is_new : got ++ out ≡ last_of n (new ++ out) =
        ap (λ t. t ++ out) (tail_lines-last_of scan (d i) (n - length out))
        ∙ sym (last_of-append n new out le) in
      rw room (
        tail_from-last_of scan d k (i + 1) n (got ++ out)
          (subst (λ t. length t ≤ n) (sym is_new) (length-last_of n (new ++ out)))
        ∙ ap (λ t. last_of n (older ++ t)) is_new
        ∙ last_of-last_of n older (new ++ out)
        ∙ ap (last_of n) (sym (append_assoc older new out)))
  | inr full ↦
      let before : List Text = all_lines scan d k (i + 1) ++ lines_of scan (d i) in
      rw full (sym (last_of-newer n before out (ground (arith, full)) ∙ last_of-all n out le))
]

-- The tail of the audit log is the last `n` lines of all its files, oldest first: of the lines that the
-- scanner finds in what is read of each regular file, without those that are empty.
pub tail-last_of :
    (scan : Text → List Text) (s : Stream) (n : ℕ)
    → tail scan s n ≡ last_of n (all_lines scan s.disk s.opt.files 0)
unfolding tail
tail-last_of scan s n =
    tail_from-last_of scan s.disk s.opt.files 0 n [] (omega arith)
    ∙ ap (last_of n) (append-nil (all_lines scan s.disk s.opt.files 0))
