-- ===== src/Pool/Candidates/Laws.antt =====
-- What every candidate of an open is, and when there is none (internal/pool/failover.go:
-- filterCandidates).
use morpheus_uplink.Base.{
  ℕ, ◌≡◌, refl, ◌≢◌, inl, inr, Bool, ◌&&◌, not, Option, none, some, List, [], ◌∷◌, arith, Text,
  same, any, keep, Bool-cases, if◌then◌else◌, lower_trim, ◌∙◌, ltb, ◌+◌, lookup-insert_self,
}
use morpheus_uplink.Pool.Candidates.{
  RatedBid, Memory, RatedError, found, norm_prov, is_in, cool_key, mark_cooling, is_cooling,
  pick_from, avoid_rows, exclude_rows, healthy_rows, filter_rows, read_rows, filter_candidates,
  avoided_providers,
}

abbrev pub healthy : List Text → RatedBid → Bool
healthy h r = is_in h (lower_trim r.id)

abbrev pub outside : List Text → RatedBid → Bool
outside l r = not (is_in l (norm_prov r.provider))

-- What an answer with candidates says of the rows.
pub record Chosen (rows : List RatedBid) (excluded avoid : List Text) (health : Option (List Text))
    (cands pool : List RatedBid) : Type 0 where
  pub known : List Text
  pub source : health ≡ some known
  pub eligible : pool ≡ keep (λ r. healthy known r && outside excluded r) rows
  pub kept : cands ≡ keep (λ r. healthy known r && (outside excluded r && outside avoid r)) rows
  pub nonempty : cands ≢ []

keep-keep :
    (p q : RatedBid → Bool) (rows : List RatedBid)
    → keep q (keep p rows) ≡ keep (λ r. p r && q r) rows
keep-keep p q [] = refl
keep-keep p q (r ∷ rs) = ground (arith, keep-keep p q rs)

pick_from-found :
    (rows pool c p : List RatedBid)
    → pick_from rows pool ≡ found c p
    → (c ≡ rows) × (p ≡ pool) × (c ≢ [])
unfolding pick_from
pick_from-found [] pool c p h = absurd (ground arith)
pick_from-found (b ∷ bs) pool c p h = ground arith

avoid_rows-found :
    (rows : List RatedBid) (avoid : List Text) (c p : List RatedBid)
    → avoid_rows rows avoid ≡ found c p
    → (c ≡ keep (outside avoid) rows) × (p ≡ rows) × (c ≢ [])
unfolding avoid_rows
avoid_rows-found [] avoid c p h = absurd (ground arith)
avoid_rows-found (b ∷ bs) avoid c p h =
    pick_from-found (keep (outside avoid) (b ∷ bs)) (b ∷ bs) c p h

exclude_rows-found :
    (rows : List RatedBid) (excluded avoid : List Text) (c p : List RatedBid)
    → exclude_rows rows excluded avoid ≡ found c p
    → (c ≡ keep (outside avoid) (keep (outside excluded) rows))
      × (p ≡ keep (outside excluded) rows)
      × (c ≢ [])
unfolding exclude_rows
exclude_rows-found [] excluded avoid c p h = absurd (ground arith)
exclude_rows-found (b ∷ bs) excluded avoid c p h =
    avoid_rows-found (keep (outside excluded) (b ∷ bs)) avoid c p h

healthy_rows-found :
    (health : Option (List Text)) (rows : List RatedBid) (excluded avoid : List Text)
    (c p : List RatedBid)
    → healthy_rows health rows excluded avoid ≡ found c p
    → Chosen rows excluded avoid health c p
unfolding healthy_rows
healthy_rows-found none rows excluded avoid c p h = absurd (ground arith)
healthy_rows-found (some known) rows excluded avoid c p h =
    let f = exclude_rows-found (keep (healthy known) rows) excluded avoid c p h in
    record {
      known = known;
      source = refl;
      eligible = f.1 ∙ keep-keep (healthy known) (outside excluded) rows;
      kept =
          f.0
          ∙ keep-keep (outside excluded) (outside avoid) (keep (healthy known) rows)
          ∙ keep-keep (healthy known) (λ r. outside excluded r && outside avoid r) rows;
      nonempty = f.2;
    }

filter_rows-found :
    (rows : List RatedBid) (health : Option (List Text)) (excluded avoid : List Text)
    (c p : List RatedBid)
    → filter_rows rows health excluded avoid ≡ found c p
    → Chosen rows excluded avoid health c p
unfolding filter_rows
filter_rows-found [] health excluded avoid c p h = absurd (ground arith)
filter_rows-found (b ∷ bs) health excluded avoid c p h =
    elim (Bool-cases (any (outside excluded) (b ∷ bs))) [
      | inr none_left ↦ absurd (ground arith)
      | inl some_left ↦
          healthy_rows-found health (b ∷ bs) excluded avoid c p (ground (arith, some_left))
    ]

-- The providers that an open of the model avoids.
abbrev pub avoids : Memory → ℕ → Text → Text → List Text
avoids mem now model_id extra =
    if same (norm_prov extra) []
    then avoided_providers mem now model_id
    else norm_prov extra ∷ avoided_providers mem now model_id

-- When an open has candidates they are not none, and are exactly the rated bids, in the router's order,
-- that the known health marks healthy and whose provider is neither excluded nor avoided (cooling, cut
-- or the extra one); the pool that goes with them is the same without the last condition.
pub filter_candidates-Chosen :
    (mem : Memory) (now : ℕ) (model_id extra : Text) (rerr : Option RatedError)
    (rows : List RatedBid) (health : Option (List Text)) (c p : List RatedBid)
    → filter_candidates mem now model_id extra rerr rows health ≡ found c p
    → Chosen rows mem.exclude (avoids mem now model_id extra) health c p
unfolding filter_candidates read_rows
filter_candidates-Chosen mem now model_id extra none rows health c p h =
    filter_rows-found rows health mem.exclude (avoids mem now model_id extra) c p h
filter_candidates-Chosen mem now model_id extra (some RatedError.unreachable) rows health c p h =
    absurd (ground arith)
filter_candidates-Chosen mem now model_id extra (some RatedError.incomplete) rows health c p h =
    filter_rows-found rows health mem.exclude (avoids mem now model_id extra) c p h
filter_candidates-Chosen mem now model_id extra (some RatedError.other_error) rows health c p h =
    absurd (ground arith)

-- A provider whose cool-down has just begun is cooling until its end and not from then on, unless the
-- cool-down is off or the provider has no address.
pub is_cooling-mark_cooling :
    (mem : Memory) (now t : ℕ) (model_id provider : Text)
    → mem.cooldown ≢ 0
    → lower_trim provider ≢ []
    → is_cooling (mark_cooling mem now model_id provider) t model_id provider
      ≡ ltb t (now + mem.cooldown)
unfolding is_cooling mark_cooling
is_cooling-mark_cooling mem now t model_id provider on named = ground (
  arith,
  lookup-insert_self (cool_key model_id provider) (now + mem.cooldown)
      (keep (λ (r : Text × ℕ). ltb now r.1) mem.cooling),
)
