-- ===== src/Base/Maps.antt =====
-- A Go map with string keys as an association list. Go leaves the order of `range` open; a function
-- of the model that depends on it says so.
use Prim.Native.Nat.{◌+◌, ◌≤◌}
use mathlib.Core.Path.{◌≡◌, refl, sym}
use mathlib.Core.Logic.{ite, if_pos, if_neg}
use mathlib.Core.Logic.{inl, inr}
use mathlib.Core.Bool.{Bool, true}
use mathlib.Core.Option.{Option, none, some}
use mathlib.Core.List.{List, [], ◌∷◌}
use native.Mathlib.Omega.{arith}
use morpheus_uplink.Base.Tests.{if◌then◌else◌, Bool-cases}
use morpheus_uplink.Base.Lists.{length, keep}
use morpheus_uplink.Base.Texts.{Text, dec_text, text_ltb}

abbrev pub Map {ℓ} : Type ℓ → Type ℓ
Map V = List (Text × V)

module _ {ℓ} {V : Type ℓ} where
  -- `v, ok := m[k]`
  unfoldable pub lookup : Text → Map V → Option V
  unfolding dec_text
  lookup k [] = none
  lookup k ((j, v) ∷ m) = ite (dec_text j k) (some v) (lookup k m)

  -- `m[k] = v`
  unfoldable pub insert : Text → V → Map V → Map V
  unfolding dec_text
  insert k v [] = (k, v) ∷ []
  insert k v ((j, w) ∷ m) = ite (dec_text j k) ((j, v) ∷ m) ((j, w) ∷ insert k v m)

  -- `delete(m, k)`
  unfoldable pub delete : Text → Map V → Map V
  unfolding dec_text
  delete k [] = []
  delete k ((j, w) ∷ m) = ite (dec_text j k) (delete k m) ((j, w) ∷ delete k m)

  pub lookup-insert :
      (k j : Text) (v : V) (m : Map V)
      → lookup j (insert k v m) ≡ ite (dec_text k j) (some v) (lookup j m)
  unfolding lookup insert
  lookup-insert k j v [] = refl
  lookup-insert k j v ((i, w) ∷ m) = ground (arith, lookup-insert k j v m)

  pub lookup-insert_self : (k : Text) (v : V) (m : Map V) → lookup k (insert k v m) ≡ some v
  lookup-insert_self k v m = rw (lookup-insert k k v m, if_pos (dec_text k k) refl)

  pub lookup-delete :
      (k j : Text) (m : Map V) → lookup j (delete k m) ≡ ite (dec_text k j) none (lookup j m)
  unfolding lookup delete
  lookup-delete k j [] = ground arith
  lookup-delete k j ((i, w) ∷ m) = ground (arith, lookup-delete k j m)

  pub length-delete-le : (k : Text) (m : Map V) → length (delete k m) ≤ length m
  unfolding delete
  length-delete-le k [] = omega arith
  length-delete-le k ((i, w) ∷ m) = ground (arith, length-delete-le k m)

  pub length-insert-le : (k : Text) (v : V) (m : Map V) → length (insert k v m) ≤ length m + 1
  unfolding insert
  length-insert-le k v [] = omega arith
  length-insert-le k v ((i, w) ∷ m) = ground (arith, length-insert-le k v m)

  -- Each key stands once.
  abbrev pub Distinct : Map V → Type ℓ
  Distinct [] = Unit
  Distinct ((k, v) ∷ m) = (lookup k m ≡ none) × Distinct m

  pub insert-Distinct : (k : Text) (v : V) (m : Map V) → Distinct m → Distinct (insert k v m)
  unfolding insert
  insert-Distinct k v [] d = (unfold lookup in refl, tt)
  insert-Distinct k v ((j, w) ∷ m) d = elim (dec_text j k) [
    | yes e ↦ rw (if_pos _ e) d
    | no n ↦
        rw (if_neg _ n) (
          rw (lookup-insert k j v m) (rw (if_neg _ (λ e. n (sym e))) d.0),
          insert-Distinct k v m d.1,
        )
  ]

  pub delete-Distinct : (k : Text) (m : Map V) → Distinct m → Distinct (delete k m)
  unfolding delete
  delete-Distinct k [] d = tt
  delete-Distinct k ((j, w) ∷ m) d = elim (dec_text j k) [
    | yes e ↦ rw (if_pos _ e) (delete-Distinct k m d.1)
    | no n ↦
        rw (if_neg _ n)
          (rw (lookup-delete k j m) (rw (if_neg _ (λ e. n (sym e))) d.0), delete-Distinct k m d.1)
  ]

  unfoldable pub least_of : Text × V → Option (Text × V) → Text × V
  least_of r none = r
  least_of r (some other) = if text_ltb other.0 r.0 then other else r

  -- The pair with the least key: what stands under `ids[0]` after `sort.Strings(ids)`.
  unfoldable pub least : Map V → Option (Text × V)
  unfolding least_of
  least [] = none
  least (r ∷ rs) = some (least_of r (least rs))

  -- The pair, if there is one, is in the map and passes the test.
  abbrev pub Found : (Text × V → Bool) → Map V → Option (Text × V) → Type ℓ
  Found p m none = Unit
  Found p m (some (k, v)) = (lookup k m ≡ some v) × (p (k, v) ≡ true)

  Found-here :
      (p : Text × V → Bool) (j : Text) (w : V) (m : Map V)
      → p (j, w) ≡ true
      → Found p ((j, w) ∷ m) (some (j, w))
  unfolding lookup
  Found-here p j w m h = (rw (if_pos _ refl), h)

  Found-there :
      (p : Text × V → Bool) (j : Text) (w : V) (m : Map V) (o : Option (Text × V))
      → Distinct ((j, w) ∷ m)
      → Found p m o
      → Found p ((j, w) ∷ m) o
  Found-there p j w m none d h = tt
  Found-there p j w m (some (k, v)) d h = (unfold lookup in rw (if_neg _ apart) h.0, h.1)
    where
      apart : ¬ (j ≡ k)
      apart e = ground (arith, d.0, h.0)

  least_of-Found :
      (p : Text × V → Bool) (j : Text) (w : V) (m : Map V) (o : Option (Text × V))
      → p (j, w) ≡ true
      → Found p ((j, w) ∷ m) o
      → Found p ((j, w) ∷ m) (some (least_of (j, w) o))
  unfolding least_of
  least_of-Found p j w m none h f = Found-here p j w m h
  least_of-Found p j w m (some (k, v)) h f = elim (Bool-cases (text_ltb k j)) [
    | inl e ↦ rw e f
    | inr e ↦ rw e (Found-here p j w m h)
  ]

  pub least-keep : (p : Text × V → Bool) (m : Map V) → Distinct m → Found p m (least (keep p m))
  unfolding least
  least-keep p [] d = tt
  least-keep p ((j, w) ∷ m) d = elim (Bool-cases (p (j, w))) [
    | inl e ↦ rw e (
        least_of-Found p j w m (least (keep p m)) e
          (Found-there p j w m (least (keep p m)) d (least-keep p m d.1)))
    | inr e ↦ rw e (Found-there p j w m (least (keep p m)) d (least-keep p m d.1))
  ]
