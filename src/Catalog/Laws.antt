-- ===== src/Catalog/Laws.antt =====
-- Which health copy is served and what it holds (internal/catalog/health.go).
use morpheus_uplink.Base.{
  ℕ, ◌+◌, ◌*◌, ◌≤◌, ◌≡◌, refl, ◌∙◌, ap, ◌⊎◌, inl, inr, Bool, true, false, ◌&&◌, ◌||◌, Option, none,
  some, List, [], ◌∷◌, Text, same, ltb, ◌==◌, any, All, arith, Map, lookup, lookup-insert, dec_text,
  Bool-cases, ite,
}
use morpheus_uplink.Pool.Slot.{second}
use morpheus_uplink.Pool.Candidates.{is_in}
use morpheus_uplink.Catalog.{
  Row, Stamp, missing, not_integer, at, HealthSnap, Parsed, FeedError, good, bad, Feed, hex_id,
  is_healthy, usable_of, usable_row, add_row, add_rows, ids_of, feed_stamp, with_rows, with_array,
  parse_feed, replace_snap, recorded, apply_feed, max_feed_skew,
}

-- The feed after these results of its fetches with their times, the latest first.
unfoldable pub run : List (Parsed × ℕ) → Feed
run [] = record { snap = none; error = none }
run ((p, now) ∷ ps) = apply_feed (run ps) p now

abbrev Bad : Parsed × ℕ → Type 0
Bad (good g, now) = ⊥
Bad (bad e, now) = Unit

abbrev NotAfter : HealthSnap → Parsed × ℕ → Type 0
NotAfter s (good g, now) = g.last_updated ≤ s.last_updated
NotAfter s (bad e, now) = Unit

abbrev IsOf : HealthSnap → Parsed × ℕ → Type 0
IsOf s (good g, now) = (s.set ≡ g.set) × (s.last_updated ≡ g.last_updated)
IsOf s (bad e, now) = ⊥

abbrev From : HealthSnap → List (Parsed × ℕ) → Type 0
From s [] = ⊥
From s (p ∷ ps) = IsOf s p ⊎ From s ps

-- No copy when no file was good, else one of the good files with the latest stamp of all.
abbrev pub Newest : List (Parsed × ℕ) → Option HealthSnap → Type 0
Newest ps none = All Bad ps
Newest ps (some s) = All (NotAfter s) ps × From s ps

Bad-NotAfter : (s : HealthSnap) (ps : List (Parsed × ℕ)) → All Bad ps → All (NotAfter s) ps
Bad-NotAfter s [] h = tt
Bad-NotAfter s ((good g, now) ∷ ps) h = absurd h.0
Bad-NotAfter s ((bad e, now) ∷ ps) h = (tt, Bad-NotAfter s ps h.1)

NotAfter-trans :
    (s t : HealthSnap) (ps : List (Parsed × ℕ))
    → s.last_updated ≤ t.last_updated
    → All (NotAfter s) ps
    → All (NotAfter t) ps
NotAfter-trans s t [] le h = tt
NotAfter-trans s t ((good g, now) ∷ ps) le h = (omega (arith, h.0), NotAfter-trans s t ps le h.1)
NotAfter-trans s t ((bad e, now) ∷ ps) le h = (tt, NotAfter-trans s t ps le h.1)

From-same :
    (s t : HealthSnap) (ps : List (Parsed × ℕ))
    → t.set ≡ s.set
    → t.last_updated ≡ s.last_updated
    → From s ps
    → From t ps
From-same s t [] e f h = h
From-same s t ((good g, now) ∷ ps) e f (inl h) = inl (e ∙ h.0, f ∙ h.1)
From-same s t ((bad c, now) ∷ ps) e f (inl h) = absurd h
From-same s t (p ∷ ps) e f (inr h) = inr (From-same s t ps e f h)

recorded-snap : (r : Option HealthSnap × Option FeedError) (now : ℕ) → (recorded r now).snap ≡ r.0
unfolding recorded
recorded-snap (s, none) now = refl
recorded-snap (s, some e) now = refl

replace_snap-Newest :
    (o : Option HealthSnap) (g : HealthSnap) (now : ℕ) (ps : List (Parsed × ℕ))
    → Newest ps o
    → Newest ((good g, now) ∷ ps) (replace_snap o g now).0
unfolding replace_snap
replace_snap-Newest none g now ps h =
    ((omega arith, Bad-NotAfter (record g { fetched_at = now }) ps h), inl (refl, refl))
replace_snap-Newest (some s) g now ps (le, from) =
    elim (Bool-cases (ltb g.last_updated s.last_updated)) [
      | inl older ↦ rw older ((ground (arith, older), le), inr from)
      | inr later ↦ rw later (elim (Bool-cases (g.last_updated == s.last_updated)) [
        | inl level ↦ rw level (
          (
            ground (arith, level),
            NotAfter-trans s (record s { fetched_at = now }) ps (omega arith) le,
          ),
          inr (From-same s (record s { fetched_at = now }) ps refl refl from),
        )
        | inr newer ↦ rw newer (
          (
            omega arith,
            NotAfter-trans s (record g { fetched_at = now }) ps (ground (arith, later)) le,
          ),
          inl (refl, refl),
        )
      ])
    ]

bad-Newest :
    (o : Option HealthSnap) (e : FeedError) (now : ℕ) (ps : List (Parsed × ℕ))
    → Newest ps o
    → Newest ((bad e, now) ∷ ps) o
bad-Newest none e now ps h = (tt, h)
bad-Newest (some s) e now ps (le, from) = ((tt, le), inr from)

-- Whatever a feed's fetches gave, in any order, its copy is what the file with the latest stamp held:
-- no good file was ever newer, a rollback never replaces it, and there is none only when no file was
-- good. Of files with the same stamp it may be any.
pub run-Newest : (ps : List (Parsed × ℕ)) → Newest ps (run ps).snap
unfolding run apply_feed
run-Newest [] = tt
run-Newest ((bad e, now) ∷ ps) = bad-Newest (run ps).snap e now ps (run-Newest ps)
run-Newest ((good g, now) ∷ ps) =
    rw (recorded-snap (replace_snap (run ps).snap g now) now)
      (replace_snap-Newest (run ps).snap g now ps (run-Newest ps))

-- Whether a row says that the model has this healthy bid.
abbrev is_some_of : Option Text → Text → Bool
is_some_of none t = false
is_some_of (some s) t = same s t

abbrev healthy_status : Option Text → Bool
healthy_status none = false
healthy_status (some s) = is_healthy s

abbrev pub says : Text → Text → Option Row → Bool
says model id none = false
says model id (some r) =
    is_some_of (hex_id r.model) model && is_some_of (hex_id r.id) id && healthy_status r.status

abbrev marks : Text → Text → Option (Text × Text × Bool) → Bool
marks model id none = false
marks model id (some (m, i, healthy)) = same m model && same i id && healthy

usable_of-marks :
    (model id : Text) (i m status : Option Text)
    → marks model id (usable_of i m status)
      ≡ (is_some_of m model && is_some_of i id && healthy_status status)
unfolding usable_of
usable_of-marks model id none m status = ground arith
usable_of-marks model id (some i) none status = ground arith
usable_of-marks model id (some i) (some m) none = ground arith
usable_of-marks model id (some i) (some m) (some s) = refl

usable_row-marks :
    (model id : Text) (r : Option Row) → marks model id (usable_row r) ≡ says model id r
unfolding usable_row
usable_row-marks model id none = refl
usable_row-marks model id (some r) =
    usable_of-marks model id (hex_id r.id) (hex_id r.model) r.status

or_swap : (a b : Bool) → (a || b) ≡ (b || true && a && true)
or_swap a b = ground arith

or_nothing : (a b : Bool) → b ≡ (b || false && a && true)
or_nothing a b = ground arith

or_assoc : (a b c : Bool) → ((a || b) || c) ≡ (a || (b || c))
or_assoc a b c = ground arith

add_row-marks :
    (o : Option (Text × Text × Bool)) (set : Map (List Text)) (model id : Text)
    → is_in (ids_of (lookup model (add_row o set))) id
      ≡ (is_in (ids_of (lookup model set)) id || marks model id o)
unfolding add_row
add_row-marks none set model id = ground arith
add_row-marks (some (m, i, false)) set model id = ground arith
add_row-marks (some (m, i, true)) set model id =
    rw (lookup-insert m model (i ∷ ids_of (lookup m set)) set)
      (elim (dec_text m model)
        as (λ d.
          any (λ x. same x id)
            (ids_of (ite d (some (i ∷ ids_of (lookup m set))) (lookup model set)))
          ≡ (is_in (ids_of (lookup model set)) id
              || (elim d [ yes _ ↦ true | no _ ↦ false ]) && same i id && true)) [
                | yes e ↦
                    or_swap (same i id) (is_in (ids_of (lookup m set)) id)
                    ∙ ap (λ k. is_in (ids_of (lookup k set)) id || true && same i id && true) e
                | no ne ↦ or_nothing (same i id) (is_in (ids_of (lookup model set)) id)
              ])

add_rows-says :
    (rs : List (Option Row)) (set : Map (List Text)) (n : ℕ) (model id : Text)
    → is_in (ids_of (lookup model (add_rows rs set n).0)) id
      ≡ (is_in (ids_of (lookup model set)) id || any (says model id) rs)
unfolding add_rows
add_rows-says [] set n model id = ground arith
add_rows-says (r ∷ rs) set n model id =
    let before : Bool = is_in (ids_of (lookup model set)) id in
    let others : Bool = any (says model id) rs in
    add_rows-says rs (add_row (usable_row r) set) _ model id
    ∙ ap (λ b. b || others)
        (add_row-marks (usable_row r) set model id
          ∙ ap (λ c. before || c) (usable_row-marks model id r))
    ∙ or_assoc before (says model id r) others

with_rows-good :
    (n : ℕ) (rs : List (Option Row)) (s : HealthSnap)
    → with_rows n rs ≡ good s
    → (n ≡ s.last_updated) × (s.set ≡ (add_rows rs [] 0).0)
unfolding with_rows
with_rows-good n rs s e = elim (Bool-cases ((add_rows rs [] 0).1 == 0)) [
  | inl empty ↦ absurd (ground (arith, e, empty))
  | inr some_row ↦ ground (arith, e, some_row)
]

with_array-good :
    (o : Option ℕ) (rs : List (Option Row)) (s : HealthSnap)
    → with_array o (some rs) ≡ good s
    → (o ≡ some s.last_updated) × (s.set ≡ (add_rows rs [] 0).0)
unfolding with_array
with_array-good none rs s e = ground arith
with_array-good (some n) rs s e = let g = with_rows-good n rs s e in (ap (λ k. some k) g.0, g.1)

feed_stamp-some :
    (t : Stamp) (now n : ℕ)
    → feed_stamp t now ≡ some n
    → (t ≡ at n) × (n * second ≤ now + max_feed_skew)
unfolding feed_stamp
feed_stamp-some missing now n e = ground arith
feed_stamp-some not_integer now n e = ground arith
feed_stamp-some (at m) now n e = ground arith

-- A file that is accepted has a stamp at most five minutes ahead of the clock, and its copy has a bid for
-- a model exactly when some row names both in hex, with the status healthy.
parse_feed-good :
    (t : Stamp) (rs : List (Option Row)) (now : ℕ) (s : HealthSnap)
    → parse_feed t (some rs) now ≡ good s
    → (t ≡ at s.last_updated)
      × (s.last_updated * second ≤ now + max_feed_skew)
      × ((model id : Text) → is_in (ids_of (lookup model s.set)) id ≡ any (says model id) rs)
unfolding parse_feed lookup
parse_feed-good t rs now s e =
    let g = with_array-good (feed_stamp t now) rs s e in
    let f = feed_stamp-some t now s.last_updated g.0 in
    (
      f.0,
      f.1,
      λ model id.
          ap (λ set. is_in (ids_of (lookup model set)) id) g.1 ∙ add_rows-says rs [] 0 model id,
    )
