-- ===== src/Pool/Lease/Release.antt =====
-- Release of a key's hold on a model's session (internal/pool/lease.go: Release).
pub mod Laws
use mathlib.Core.Option
use morpheus_uplink.Base.{
  ℕ, Bool, true, false, ◌&&◌, Option, none, some, List, [], ◌∷◌, Text, same, ltb, if◌then◌else◌,
  length, not, lookup, insert, delete, keep, least,
}
use morpheus_uplink.Pool.Lease.{
  Pool, Entry, SessState, norm_model, mark_retired, drop_entry, retire, holds_key,
}

pub data ReleaseOutcome : Type 0 where
  not_held shared in_flight closing : ReleaseOutcome

pub drains : Text → Text → Text × SessState → Bool
unfolding holds_key
drains key key_id (id, st) = holds_key key_id st && same st.model key && not st.closing

-- A retired session that the key still holds.
draining : Pool → Text → Text → Option (Text × SessState)
unfolding least drains
draining p key key_id = least (keep (drains key key_id) p.sess)

if_held : Option (Text × SessState) → Text → Option (Text × SessState) → Option (Text × SessState)
unfolding holds_key
if_held none key_id other = other
if_held (some (id, st)) key_id other =
    if not st.closing && holds_key key_id st then some (id, st) else other

session_of : Option Entry → Pool → Option (Text × SessState)
session_of none p = none
session_of (some e) p = Option.map (λ st. (e.session_id, st)) (lookup e.session_id p.sess)

-- The session that a release is about: the pooled one, else a draining one.
unfoldable pub release_target : Pool → Text → Text → Option (Text × SessState)
unfolding session_of if_held draining
release_target p key key_id =
    if_held (session_of (lookup key p.entries) p) key_id (draining p key key_id)

unfoldable pub release_held :
    Pool → ℕ → ℕ → ℕ → Text → Text → Text → SessState → Pool × ReleaseOutcome
unfolding mark_retired drop_entry retire
release_held p now wall duration_sec key key_id id st =
    let kept : SessState = record st { holders = delete key_id st.holders } in
    let q : Pool = record p { sess = insert id kept p.sess } in
    if ltb 0 (length kept.holders)
    then (q, shared)
    else if ltb 0 kept.inflight
    then (q, in_flight)
    else (
      retire (drop_entry (record p { sess = insert id (mark_retired kept now) p.sess }) key id) wall
          duration_sec id st.ends_at,
      closing,
    )

unfoldable pub release_from :
    Option (Text × SessState) → Pool → ℕ → ℕ → ℕ → Text → Text → Pool × ReleaseOutcome
unfolding release_held
release_from none p now wall duration_sec key key_id = (p, not_held)
release_from (some (id, st)) p now wall duration_sec key key_id =
    if same key_id [] then (p, not_held) else release_held p now wall duration_sec key key_id id st

-- `closing` is the one answer after which the sweep is asked to run.
unfoldable pub release : Pool → ℕ → ℕ → ℕ → Text → Text → Pool × ReleaseOutcome
unfolding release_from release_target
release p now wall duration_sec model_id key_id =
    let key : Text = norm_model model_id in
    release_from (release_target p key key_id) p now wall duration_sec key key_id
