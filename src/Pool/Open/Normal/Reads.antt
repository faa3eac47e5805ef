-- ===== src/Pool/Open/Normal/Reads.antt =====
-- The read of the candidates of an open (internal/pool/failover.go: candidates).
use morpheus_uplink.Base.{
  ℕ, zero, suc, ◌≡◌, ◌≢◌, refl, ◌∙◌, Bool, true, false, ◌&&◌, Option, none, some, List, [], ◌∷◌,
  Text, arith, Bool-cases, inl, inr, All, keep, not,
}
use morpheus_uplink.Pool.Candidates.{
  RatedBid, Memory, RatedError, filter_candidates, norm_prov, is_in, avoided_providers,
}
use morpheus_uplink.Pool.Candidates as Candidates
use morpheus_uplink.Pool.Candidates.Laws.{healthy, outside, filter_candidates-Chosen, avoids}
use morpheus_uplink.Pool.Transient.{CallError}
use morpheus_uplink.Pool.Transient.Reads.{is_transient_read}
use morpheus_uplink.Pool.Open.{
  World, Args, Op, Outcome, ctx_error, transient, out_of_fuel, tick_on, backoff,
}
use morpheus_uplink.Pool.Open.Normal.{
  ReadEnd, walkable, stop, read_end, read_again, filtered, after_read, candidates,
}

-- The read leaves the pool alone and sends nothing, and what it finds came through the filters.
pub record IsRead (w : World) (a : Args) (extra : Text) (op : Op) (r : Op × ReadEnd) : Type 0 where
  pub same_pool : r.0.pool ≡ op.pool
  pub same_posts : r.0.posts ≡ op.posts
  pub same_pending : r.0.pending ≡ op.pending
  pub filtered_rows :
      (c p : List RatedBid)
      → r.1 ≡ walkable c p
      → (kind : Option RatedError) × (rows : List RatedBid) × (filter_candidates r.0.memory
            (w.wall r.0.tick)
            a.model
            extra
            kind
            rows
            (w.healthy r.0.tick)
          ≡ Candidates.found c p)

read_end-found :
    (o : Candidates.Outcome) (c p : List RatedBid)
    → read_end o ≡ walkable c p
    → o ≡ Candidates.found c p
unfolding read_end
read_end-found (Candidates.refused why) c p e = absurd (cc e)
read_end-found (Candidates.found d q) c p e = cc

IsRead-from :
    (w : World) (a : Args) (extra : Text) (op q : Op) (r : Op × ReadEnd)
    → q.pool ≡ op.pool
    → q.posts ≡ op.posts
    → q.pending ≡ op.pending
    → IsRead w a extra q r
    → IsRead w a extra op r
IsRead-from w a extra op q r e f g h = record {
  same_pool = h.same_pool ∙ e;
  same_posts = h.same_posts ∙ f;
  same_pending = h.same_pending ∙ g;
  filtered_rows = h.filtered_rows;
}

stop-IsRead :
    (w : World) (a : Args) (extra : Text) (op : Op) (o : Outcome) → IsRead w a extra op (op, stop o)
stop-IsRead w a extra op o = record {
  same_pool = refl;
  same_posts = refl;
  same_pending = refl;
  filtered_rows = λ c p e. absurd (cc e);
}

filtered-IsRead :
    (w : World) (a : Args) (extra : Text) (kind : Option RatedError) (rows : List RatedBid)
    (op : Op)
    → IsRead w a extra op (filtered w a extra kind rows op)
unfolding filtered
filtered-IsRead w a extra kind rows op = record {
  same_pool = refl;
  same_posts = refl;
  same_pending = refl;
  filtered_rows = λ c p e. (
    kind,
    rows,
    read_end-found
        (filter_candidates op.memory (w.wall op.tick) a.model extra kind rows (w.healthy op.tick)) c
        p e,
  );
}

backoff-same :
    (w : World) (a : Args) (op : Op)
    → let q = (backoff w a op).0 in
      (q.pool ≡ op.pool) × (q.posts ≡ op.posts) × (q.pending ≡ op.pending)
unfolding backoff
backoff-same w a op = ground arith

read_again-IsRead :
    (w : World) (a : Args) (extra : Text) (r : Op × ℕ × Bool) (again : Op → Op × ReadEnd)
    → ((q : Op) → IsRead w a extra q (again q))
    → IsRead w a extra r.0 (read_again w r again)
unfolding read_again
read_again-IsRead w a extra (q, d, true) again on = on q
read_again-IsRead w a extra (q, d, false) again on = elim (Bool-cases (w.ended q.tick)) [
  | inl over ↦ rw over (stop-IsRead w a extra q ctx_error)
  | inr live ↦ rw live (stop-IsRead w a extra q (transient d))
]

after_read-IsRead :
    (o : Option (RatedError × CallError)) (w : World) (a : Args) (extra : Text)
    (rows : List RatedBid) (again : Op → Op × ReadEnd) (op : Op)
    → ((q : Op) → IsRead w a extra q (again q))
    → IsRead w a extra op (after_read o w a extra rows again op)
unfolding after_read
after_read-IsRead none w a extra rows again op on = filtered-IsRead w a extra none rows op
after_read-IsRead (some (kind, e)) w a extra rows again op on =
    elim (Bool-cases (w.ended op.tick)) [
      | inl over ↦ rw over (stop-IsRead w a extra op ctx_error)
      | inr live ↦ rw live (elim (Bool-cases (is_transient_read e)) [
        | inl soon ↦
            let h = backoff-same w a op in
            rw soon (
              IsRead-from w a extra op (backoff w a op).0 _ h.0 h.1 h.2
                (read_again-IsRead w a extra (backoff w a op) again on))
        | inr final ↦ rw final (filtered-IsRead w a extra (some kind) rows op)
      ])
    ]

pub candidates-IsRead :
    (fuel : ℕ) (w : World) (a : Args) (extra : Text) (op : Op)
    → IsRead w a extra op (candidates fuel w a extra op)
unfolding candidates
candidates-IsRead zero w a extra op = stop-IsRead w a extra op out_of_fuel
candidates-IsRead (suc fuel) w a extra op = elim (Bool-cases (w.ended op.tick)) [
  | inl over ↦ rw over (stop-IsRead w a extra op ctx_error)
  | inr live ↦ rw live (
      IsRead-from w a extra op (tick_on op) _ refl refl refl (
        after_read-IsRead (w.rated op.tick).1 w a extra (w.rated op.tick).0
          (candidates fuel w a extra) (tick_on op) (λ q. candidates-IsRead fuel w a extra q)))
]

keep-other :
    (provider : Text) (more : List Text) (f : RatedBid → Bool) (g : RatedBid → Bool)
    (rows : List RatedBid)
    → All
        (λ (b : RatedBid). norm_prov b.provider ≢ provider)
        (keep (λ b. f b && (g b && not (is_in (provider ∷ more) (norm_prov b.provider)))) rows)
keep-other provider more f g [] = tt
keep-other provider more f g (b ∷ bs) =
    let rest = keep-other provider more f g bs in
    elim (Bool-cases (f b && (g b && not (is_in (provider ∷ more) (norm_prov b.provider))))) [
      | inl kept ↦ rw kept (λ e. ground (arith, kept, e), rest)
      | inr dropped ↦ rw dropped rest
    ]

avoids-named :
    (mem : Memory) (now : ℕ) (model extra : Text)
    → norm_prov extra ≢ []
    → avoids mem now model extra ≡ norm_prov extra ∷ avoided_providers mem now model
avoids-named mem now model extra named = ground (arith, named)

-- No candidate is of the provider to avoid.
pub candidates-other :
    (w : World) (a : Args) (extra : Text) (op : Op) (r : Op × ReadEnd) (c p : List RatedBid)
    → IsRead w a extra op r
    → r.1 ≡ walkable c p
    → norm_prov extra ≢ []
    → All (λ (b : RatedBid). norm_prov b.provider ≢ norm_prov extra) c
candidates-other w a extra op r c p h e named =
    let (kind, rows, found) = h.filtered_rows c p e in
    let chosen =
      filter_candidates-Chosen r.0.memory (w.wall r.0.tick) a.model extra kind rows
        (w.healthy r.0.tick) c p found in
    let avoided = avoids-named r.0.memory (w.wall r.0.tick) a.model extra named in
    rw (chosen.kept, avoided)
      (keep-other (norm_prov extra) (avoided_providers r.0.memory (w.wall r.0.tick) a.model)
        (healthy chosen.known) (outside r.0.memory.exclude) rows)
