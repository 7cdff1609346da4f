-- ===== src/Base/Dict.antt =====
-- Go maps keyed by strings, as association lists.
use mathlib.Core.Path.{◌≡◌, refl}
use mathlib.Core.Bool.{Bool, not}
use mathlib.Core.List.{List, [], ◌∷◌}
use mathlib.Core.Option.{Option, none, some}
use native.Mathlib.Omega.{arith}
use mathlib.Core.Logic.{inl, inr}
use hopssh.Base.Tests.{if◌then◌else◌, Bool-cases}
use hopssh.Base.Text.{Bytes, bytes_eq, bytes_eq_iff, bytes_eq_refl}

module _ {ℓ} {V : Type ℓ} where
  unfoldable pub lookup : Bytes → List (Bytes × V) → Option V
  lookup k [] = none
  lookup k ((j, v) ∷ m) = if bytes_eq j k then some v else lookup k m

  unfoldable pub insert : Bytes → V → List (Bytes × V) → List (Bytes × V)
  insert k v [] = (k, v) ∷ []
  insert k v ((j, w) ∷ m) = if bytes_eq j k then (k, v) ∷ m else (j, w) ∷ insert k v m

  pub lookup-insert :
      (k j : Bytes) (v : V) (m : List (Bytes × V))
      → lookup j (insert k v m) ≡ (if bytes_eq k j then some v else lookup j m)
  unfolding lookup insert
  lookup-insert k j v [] = refl
  lookup-insert k j v ((i, w) ∷ m) =
      ground (arith, bytes_eq_iff k j, bytes_eq_iff i k, bytes_eq_iff i j, lookup-insert k j v m)

  -- The entries that `keep` passes, as after `delete(m, k)` in a loop over the map.
  unfoldable pub filter_entries : (Bytes → V → Bool) → List (Bytes × V) → List (Bytes × V)
  filter_entries keep [] = []
  filter_entries keep ((j, v) ∷ m) =
      let rest = filter_entries keep m in if keep j v then (j, v) ∷ rest else rest

  -- As in a Go map, every key stands once.
  abbrev pub KeysDistinct : List (Bytes × V) → Type ℓ
  KeysDistinct [] = Unit
  KeysDistinct ((k, v) ∷ m) = (lookup k m ≡ none) × KeysDistinct m

  pub insert-KeysDistinct :
      (k : Bytes) (v : V) (m : List (Bytes × V)) → KeysDistinct m → KeysDistinct (insert k v m)
  unfolding insert lookup
  insert-KeysDistinct k v [] d = (refl, tt)
  insert-KeysDistinct k v ((j, w) ∷ m) d = elim (Bool-cases (bytes_eq j k)) [
    | inl e ↦ let same : j ≡ k = (bytes_eq_iff j k).0 e in rw e (rw same at (d.0), d.1)
    | inr n ↦ rw n (
      ground (arith, lookup-insert k j v m, d.0, n, bytes_eq_iff j k, bytes_eq_iff k j),
      insert-KeysDistinct k v m d.1,
    )
  ]

  abbrev pub filter_option : (Bytes → V → Bool) → Bytes → Option V → Option V
  filter_option keep k none = none
  filter_option keep k (some v) = if keep k v then some v else none

  pub lookup-filter_entries :
      (keep : Bytes → V → Bool) (k : Bytes) (m : List (Bytes × V))
      → KeysDistinct m
      → lookup k (filter_entries keep m) ≡ filter_option keep k (lookup k m)
  unfolding lookup filter_entries
  lookup-filter_entries keep k [] d = refl
  lookup-filter_entries keep k ((j, v) ∷ m) d = elim (Bool-cases (bytes_eq j k)) [
    | inl e ↦
        let same : j ≡ k = (bytes_eq_iff j k).0 e in
        rw (← same) (ground (arith, bytes_eq_refl j, lookup-filter_entries keep j m d.1, d.0))
    | inr n ↦ ground (arith, n, lookup-filter_entries keep k m d.1)
  ]

  pub filter_entries-KeysDistinct :
      (keep : Bytes → V → Bool) (m : List (Bytes × V))
      → KeysDistinct m
      → KeysDistinct (filter_entries keep m)
  unfolding filter_entries
  filter_entries-KeysDistinct keep [] d = tt
  filter_entries-KeysDistinct keep ((j, v) ∷ m) d = elim (Bool-cases (keep j v)) [
    | inl e ↦ rw e (
      ground (arith, lookup-filter_entries keep j m d.1, d.0),
      filter_entries-KeysDistinct keep m d.1,
    )
    | inr n ↦ rw n (filter_entries-KeysDistinct keep m d.1)
  ]

  -- `delete(m, k)`
  pub delete_key : Bytes → List (Bytes × V) → List (Bytes × V)
  unfolding filter_entries
  delete_key k m = filter_entries (λ j _. not (bytes_eq j k)) m

  pub lookup-delete_key :
      (k j : Bytes) (m : List (Bytes × V))
      → lookup j (delete_key k m) ≡ (if bytes_eq k j then none else lookup j m)
  unfolding lookup delete_key filter_entries
  lookup-delete_key k j [] = ground arith
  lookup-delete_key k j ((i, w) ∷ m) =
      ground (arith, bytes_eq_iff k j, bytes_eq_iff i k, bytes_eq_iff i j, lookup-delete_key k j m)
