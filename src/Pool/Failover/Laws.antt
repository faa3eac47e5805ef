-- ===== src/Pool/Failover/Laws.antt =====
-- What a failover does and does not do (internal/pool/failover.go: FailoverCtx).
use morpheus_uplink.Base.{
  ℕ, ◌≡◌, ◌≢◌, refl, sym, subst, ◌∙◌, ◌⊎◌, inl, inr, Bool, true, false, ◌&&◌, Option, none, some,
  List, [], ◌∷◌, Text, same, arith, Bool-cases, is_some, lookup, not, ltb, All, lower_trim,
}
use morpheus_uplink.Pool.Slot.{WalletSlot, SlotToken, holds}
use morpheus_uplink.Pool.Lease.{Pool, Entry, norm_model, retire}
use morpheus_uplink.Pool.Lease.Drop.{in_flight, retire_for_failover, retire_for_failover-idle}
use morpheus_uplink.Pool.Candidates.{RatedBid, norm_prov, mark_cooling}
use morpheus_uplink.Pool.Open
use morpheus_uplink.Pool.Open.{
  got, ctx_error, transient, chain_wait, wallet_needs_funds, walk_exhausted, stake_limit_invalid,
  stake_inputs_unreadable, stake_limit_exceeded, refused, no_available, Args, Op, out_of_fuel,
  max_bid_attempts, tick_on,
}
use morpheus_uplink.Pool.Open.Walk.{open_excluding, rounds}
use morpheus_uplink.Pool.Open.Walk.Trace.{Ended}
use morpheus_uplink.Pool.Open.Walk.Laws.{open_excluding-EndedOut}
use morpheus_uplink.Pool.Open.Walk.Bids.{AllPosts, open_excluding-AllPosts}
use morpheus_uplink.Pool.Open.Normal.{ReadEnd, walkable, stop, candidates, open_avoiding_cooling}
use morpheus_uplink.Pool.Open.Normal.Laws.{candidates-ends, open_avoiding_cooling-EndedOut}
use morpheus_uplink.Pool.Open.Normal.Reads.{candidates-IsRead, candidates-other}
use morpheus_uplink.Pool.Failover.{
  Env, System, FailoverOpts, FailoverResult, FailoverError, no_alternate, open_failed, with_op,
  with_pool, duration_for, new_open_op, failover_open, router_provider, entry_provider,
  session_provider, close_granted, close_bounded, with_wallet, close_failed_session, drop_failed,
  swap, no_read, guarded, move_on, by_provider, not_replaced, leased_replacement, replaced_by,
  no_result, failover,
}
use morpheus_uplink.Pool.Failover.Trace.{
  OfEnv, Closes, Done, failover_open-Slotted, no_open-Done, no_alternate-Done, reopen_with-Done,
}

close_granted-posts :
    (g : Option (WalletSlot × SlotToken)) (env : Env) (id : Text) (s : System)
    → let q = (close_granted g env id s).0 in
      (q.op.posts ≡ s.op.posts) × ((q.closes ≡ s.closes) ⊎ (q.closes ≡ id ∷ s.closes))
unfolding close_granted with_wallet
close_granted-posts none env id s = (refl, inl refl)
close_granted-posts (some (slot, tok)) env id s = elim (Bool-cases (holds slot (some tok))) [
  | inl held ↦ (refl, inr (rw held refl))
  | inr gone ↦ (refl, inl (rw gone refl))
]

close_failed_session-closes :
    (p : Pool) (now_idle : Bool) (env : Env) (id : Text) (res : FailoverResult) (s : System)
    → let r = close_failed_session (p, now_idle) env id res s in
      (r.0.op.posts ≡ s.op.posts)
      × ((r.0.closes ≡ s.closes) ⊎ ((r.0.closes ≡ id ∷ s.closes) × (now_idle ≡ true)))
      × (r.1.failed_provider ≡ res.failed_provider)
unfolding close_failed_session close_bounded
close_failed_session-closes p false env id res s = (refl, inl refl, refl)
close_failed_session-closes p true env id res s =
    let g = env.grant s.op.tick [] in
    let t : System = with_op (with_pool s p) (tick_on (with_pool s p).op) in
    let c = close_granted-posts g env id t in
    elim (Bool-cases (close_granted g env id t).1) [
      | inl ok ↦ rw ok (c.0, elim c.1 [ inl e ↦ inl e | inr e ↦ inr (e, refl) ], refl)
      | inr no_answer ↦ rw no_answer (c.0, elim c.1 [ inl e ↦ inl e | inr e ↦ inr (e, refl) ], refl)
    ]

drop_failed-closes :
    (env : Env) (key id : Text) (ends_at : ℕ) (res : FailoverResult) (s : System)
    → let r = drop_failed env key id ends_at res s in
      (r.0.op.posts ≡ s.op.posts)
      × ((r.0.closes ≡ s.closes) ⊎ ((r.0.closes ≡ id ∷ s.closes) × (in_flight s.op.pool id ≡ 0)))
      × (r.1.failed_provider ≡ res.failed_provider)
unfolding drop_failed
drop_failed-closes env key id ends_at res s =
    let t : ℕ = s.op.tick in
    let wall : ℕ = env.world.wall t in
    let now : ℕ = env.world.now t in
    let p : Pool = retire s.op.pool wall env.duration id ends_at in
    let r = retire_for_failover p now key id in
    let h = close_failed_session-closes r.0 r.1 env id res s in
    (
      h.0,
      elim h.1 [
        | inl none_sent ↦ inl none_sent
        | inr (e, idle) ↦
            inr (e, retire_for_failover-idle s.op.pool now wall env.duration ends_at key id idle)
      ],
      h.2,
    )

router_provider-same :
    (env : Env) (id : Text) (op : Op)
    → let q = (router_provider env id op).0 in (q.pool ≡ op.pool) × (q.posts ≡ op.posts)
unfolding router_provider
router_provider-same env id op = (refl, refl)

entry_provider-same :
    (e : Option Entry) (env : Env) (id : Text) (op : Op)
    → let q = (entry_provider e env id op).0 in (q.pool ≡ op.pool) × (q.posts ≡ op.posts)
unfolding entry_provider
entry_provider-same none env id op = router_provider-same env id op
entry_provider-same (some e) env id op =
    elim (Bool-cases (same e.session_id id && not (same e.provider []))) [
      | inl known ↦ rw known (refl, refl)
      | inr unknown ↦ rw unknown (router_provider-same env id op)
    ]

-- Neither the session nor what was sent changes up to the guardrail.
abbrev Before : System → System → Type 0
Before s q = (q.op.pool ≡ s.op.pool) × (q.closes ≡ s.closes) × (q.op.posts ≡ [])

swap-Done :
    (cands : List RatedBid) (env : Env) (o : FailoverOpts) (model id prov : Text) (ends_at d : ℕ)
    (res : FailoverResult) (s q : System)
    → is_some (lookup id s.op.pool.retired) ≡ false
    → Before s q
    → res.failed_provider ≡ prov
    → (norm_prov prov ≢ [] → All (λ (b : RatedBid). norm_prov b.provider ≢ norm_prov prov) cands)
    → Done env d id s (swap cands env o model id prov ends_at d res q)
unfolding swap
swap-Done cands env o model id prov ends_at d res s q first (same_pool, same_closes, clean) named
      others =
    let r = drop_failed env (norm_model model) id ends_at res q in
    let h = drop_failed-closes env (norm_model model) id ends_at res q in
    let c : Closes s id r.0 = elim h.1 [
      | inl none_sent ↦ inl (none_sent ∙ same_closes)
      | inr (e, idle) ↦ inr (ground (arith, e, same_closes), first, rw same_pool at idle)
    ] in
    elim (Bool-cases o.reopen) [
      | inr cut ↦ rw cut (no_open-Done env d id s _ r.1 none (λ e. cc) (λ e. cc) c (h.0 ∙ clean))
      | inl again ↦ rw again (
          reopen_with-Done env o model d (λ a. open_excluding env.world a cands) r.1 id s r.0 c
            (h.0 ∙ clean)
            (λ a op none_yet fresh.
              open_excluding-EndedOut env.world a cands op none_yet (omega (arith, fresh)))
            (λ a op none_yet.
              subst
                (λ t.
                  norm_prov t ≢ []
                  → AllPosts (λ b. norm_prov b.provider ≢ norm_prov t)
                      (open_excluding env.world a cands op).0)
                (sym (h.2 ∙ named))
                (λ n.
                  open_excluding-AllPosts (λ b. norm_prov b.provider ≢ norm_prov prov) env.world a
                    cands op (others n) (rw none_yet tt))))
    ]

no_read_lem : (g : FailoverError ⊎ ReadEnd) → g ≢ inr (stop out_of_fuel) → no_read g ≡ no_alternate
unfolding no_read
no_read_lem (inl e) h = refl
no_read_lem (inr (walkable c p)) h = refl
no_read_lem (inr (stop out_of_fuel)) h = absurd (h refl)
no_read_lem (inr (stop (got x))) h = refl
no_read_lem (inr (stop ctx_error)) h = refl
no_read_lem (inr (stop (transient x))) h = refl
no_read_lem (inr (stop (chain_wait x))) h = refl
no_read_lem (inr (stop wallet_needs_funds)) h = refl
no_read_lem (inr (stop Open.no_alternate)) h = refl
no_read_lem (inr (stop (walk_exhausted x))) h = refl
no_read_lem (inr (stop stake_limit_invalid)) h = refl
no_read_lem (inr (stop stake_inputs_unreadable)) h = refl
no_read_lem (inr (stop (stake_limit_exceeded x))) h = refl
no_read_lem (inr (stop (refused x))) h = refl
no_read_lem (inr (stop (no_available x))) h = refl

guarded-Done :
    (g : FailoverError ⊎ ReadEnd) (env : Env) (o : FailoverOpts) (model id prov : Text)
    (ends_at d : ℕ) (res : FailoverResult) (s q : System)
    → is_some (lookup id s.op.pool.retired) ≡ false
    → Before s q
    → res.failed_provider ≡ prov
    → g ≢ inr (stop out_of_fuel)
    → ((c p : List RatedBid)
        → g ≡ inr (walkable c p)
        → norm_prov prov ≢ []
        → All (λ (b : RatedBid). norm_prov b.provider ≢ norm_prov prov) c)
    → Done env d id s (guarded g env o model id prov ends_at d res q)
unfolding guarded
guarded-Done (inl e) env o model id prov ends_at d res s q first before named ends others =
    rw (no_read_lem (inl e) ends) (no_alternate-Done env d id s q res before.0 before.1 before.2)
guarded-Done (inr (stop e)) env o model id prov ends_at d res s q first before named ends others =
    rw (no_read_lem (inr (stop e)) ends)
      (no_alternate-Done env d id s q res before.0 before.1 before.2)
guarded-Done (inr (walkable [] p)) env o model id prov ends_at d res s q first before named ends
      others =
    rw (no_read_lem (inr (walkable [] p)) ends)
      (no_alternate-Done env d id s q res before.0 before.1 before.2)
guarded-Done (inr (walkable (b ∷ bs) p)) env o model id prov ends_at d res s q first before named
      ends others =
    swap-Done (b ∷ bs) env o model id prov ends_at d res s q first before named
      (others (b ∷ bs) p refl)

move_on-Done :
    (env : Env) (o : FailoverOpts) (model id prov : Text) (ends_at d : ℕ) (res : FailoverResult)
    (s q : System)
    → is_some (lookup id s.op.pool.retired) ≡ false
    → Before s q
    → res.failed_provider ≡ prov
    → Done env d id s (move_on env o model id prov ends_at d res q)
unfolding move_on
move_on-Done env o model id prov ends_at d res s q first (same_pool, same_closes, clean) named =
    let op1 : Op = record (q.op) {
      memory = mark_cooling q.op.memory (env.world.wall q.op.tick) model prov;
    } in
    let f : Args → Op → Op × ReadEnd = λ a. candidates rounds env.world a prov in
    let r = failover_open env o.key_id model d f op1 in
    elim (failover_open-Slotted env o.key_id model d f op1) [
      | inl (posts, pool, why) ↦
          guarded-Done r.1 env o model id prov ends_at d res s (with_op q r.0) first
            (pool ∙ same_pool, same_closes, posts ∙ clean) named
            (λ e. elim why [
              | inl w ↦ absurd (ground (arith, w, e))
              | inr w ↦ absurd (ground (arith, w, e))
            ])
            (λ c p e. elim why [
              | inl w ↦ absurd (ground (arith, w, e))
              | inr w ↦ absurd (ground (arith, w, e))
            ])
      | inr (a, of, e) ↦
          let x = f a (new_open_op op1) in
          let read = candidates-IsRead rounds env.world a prov (new_open_op op1) in
          rw e (
            guarded-Done (inr x.1) env o model id prov ends_at d res s (with_op q x.0) first
              (read.same_pool ∙ same_pool, same_closes, read.same_posts ∙ clean) named
              (λ h. candidates-ends env.world a prov (new_open_op op1) refl (ground (arith, h)))
              (λ c p w.
                candidates-other env.world a prov (new_open_op op1) x c p read (ground (arith, w))))
    ]

by_provider-Done :
    (r : Op × Text × ℕ) (env : Env) (o : FailoverOpts) (model id : Text) (d : ℕ)
    (res : FailoverResult) (s : System)
    → is_some (lookup id s.op.pool.retired) ≡ false
    → r.0.pool ≡ s.op.pool
    → r.0.posts ≡ []
    → Done env d id s (by_provider r env o model id d res s)
unfolding by_provider
by_provider-Done (op, prov, ends_at) env o model id d res s first same_pool clean =
    let named : FailoverResult = record res { failed_provider = prov } in
    elim (Bool-cases (same prov [])) [
      | inl unknown ↦
          rw unknown (no_alternate-Done env d id s (with_op s op) named same_pool refl clean)
      | inr known ↦ rw known (
          move_on-Done env o model id prov ends_at d named s (with_op s op) first
            (same_pool, refl, clean) refl)
    ]

not_replaced-Done :
    (env : Env) (o : FailoverOpts) (model id : Text) (d : ℕ) (s : System)
    → s.op.posts ≡ []
    → Done env d id s (not_replaced env o model id d (no_result d) s)
unfolding not_replaced session_provider no_result
not_replaced-Done env o model id d s clean =
    let res : FailoverResult = record (no_result d) { replaced = true } in
    elim (Bool-cases (is_some (lookup id s.op.pool.retired))) [
      | inl retired ↦ rw retired (elim (Bool-cases o.reopen) [
        | inr cut ↦ rw cut (no_open-Done env d id s s res none (λ e. cc) (λ e. cc) (inl refl) clean)
        | inl again ↦ rw again (
            reopen_with-Done env o model d (open_avoiding_cooling env.world) res id s s (inl refl)
              clean
              (λ a op none_yet fresh. open_avoiding_cooling-EndedOut env.world a op none_yet fresh)
              (λ a op none_yet named. absurd (named (unfold norm_prov lower_trim in refl))))
      ])
      | inr first ↦
          let e : Option Entry = lookup (norm_model model) s.op.pool.entries in
          let h = entry_provider-same e env id s.op in
          rw first (
            by_provider-Done (entry_provider e env id s.op) env o model id d (no_result d) s first
              h.0 (h.1 ∙ clean))
    ]

leased_replacement-Done :
    (l : Pool × Option Text) (cur : Entry) (env : Env) (d : ℕ) (id : Text) (res : FailoverResult)
    (s : System)
    → s.op.posts ≡ []
    → Done env d id s (leased_replacement l cur res s)
unfolding leased_replacement
leased_replacement-Done (p, l) cur env d id res s clean =
    no_open-Done env d id s (with_pool s p) _ none (λ e. cc) (λ e. cc) (inl refl) clean

replaced_by-Done :
    (e : Option Entry) (env : Env) (o : FailoverOpts) (model id : Text) (d : ℕ) (s : System)
    → s.op.posts ≡ []
    → Done env d id s (replaced_by e env o model id d (no_result d) s)
unfolding replaced_by
replaced_by-Done none env o model id d s clean = not_replaced-Done env o model id d s clean
replaced_by-Done (some cur) env o model id d s clean =
    elim (Bool-cases
      (not (same cur.session_id id) && ltb (env.world.now s.op.tick) cur.expires_at)) [
        | inl other ↦ rw other (leased_replacement-Done _ cur env d id (no_result d) s clean)
        | inr not_yet ↦ rw not_yet (not_replaced-Done env o model id d s clean)
      ]

failover-Done :
    (env : Env) (o : FailoverOpts) (model id : Text) (s : System)
    → s.op.posts ≡ []
    → Done env (duration_for env o.duration_sec) id s (failover env o model id s)
unfolding failover
failover-Done env o model id s clean =
    replaced_by-Done (lookup (norm_model model) s.op.pool.entries) env o model id
      (duration_for env o.duration_sec) s clean

-- When a failover answers that there is no alternate, the pool is as it was, no close was sent and
-- nothing was opened.
pub failover_keeps_session :
    (env : Env) (o : FailoverOpts) (model id : Text) (s : System)
    → s.op.posts ≡ []
    → let r = failover env o model id s in
      r.2 ≡ some no_alternate
      → (r.0.op.pool ≡ s.op.pool) × (r.0.closes ≡ s.closes) × (r.0.op.posts ≡ [])
failover_keeps_session env o model id s clean = (failover-Done env o model id s clean).kept

-- A failover closes at most the failed session, once, and only when that session had not failed over
-- before and no request was in flight on it.
pub failover-Closes :
    (env : Env) (o : FailoverOpts) (model id : Text) (s : System)
    → s.op.posts ≡ []
    → Closes s id (failover env o model id s).0
failover-Closes env o model id s clean = (failover-Done env o model id s clean).closed

-- A failover that names the provider that failed never opens on it. It names none when the session had
-- already failed over, or while its replacement is still served: that case is left out.
pub failover-Avoids :
    (env : Env) (o : FailoverOpts) (model id : Text) (s : System)
    → s.op.posts ≡ []
    → let r = failover env o model id s in
      norm_prov r.1.failed_provider ≢ []
      → AllPosts (λ b. norm_prov b.provider ≢ norm_prov r.1.failed_provider) r.0.op
failover-Avoids env o model id s clean = (failover-Done env o model id s clean).avoids

-- Whatever the router, the clock and the context do, a failover ends within the fuel of its loops, that
-- of the read of the candidates before the guardrail included, and
-- its opens are those of one walk under the settings' cap: each but the last failed as the provider's
-- fault or with a proof that nothing was sent, there are at most seven, and none goes to a bid whose
-- stake is above the cap or unknown while the cap is on.
pub failover-Ended :
    (env : Env) (o : FailoverOpts) (model id : Text) (s : System)
    → s.op.posts ≡ []
    → let r = failover env o model id s in
      (r.2 ≢ some (open_failed out_of_fuel))
      × ((a : Args) × OfEnv env (duration_for env o.duration_sec) a
          × Ended a max_bid_attempts r.0.op)
failover-Ended env o model id s clean =
    let h = failover-Done env o model id s clean in (h.fuel, h.ended)
