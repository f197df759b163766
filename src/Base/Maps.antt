-- ===== src/Base/Maps.antt =====
-- A JavaScript `Map`, and a Redis key space: an association list with one entry for a key.

use mathlib.Core.Path.{◌≡◌, refl}
use mathlib.Core.Logic.{inl, inr}
use mathlib.Core.Option.{Option, none, some}
use mathlib.Core.List.{List, [], ◌∷◌}
use native.Mathlib.Omega.{arith}
use jump_host.Base.Tests.{if◌then◌else◌, Eq, ◌==◌, eq_iff, eq_refl, Bool-cases}

module _ {K V : Type 0} ⦃e : Eq K⦄ where
  unfoldable pub get : K → List (K × V) → Option V
  get k [] = none
  get k ((j, v) ∷ m) = if j == k then some v else get k m

  -- `set` keeps the place of a key that is there, and appends a new one.
  unfoldable pub put : K → V → List (K × V) → List (K × V)
  put k v [] = (k, v) ∷ []
  put k v ((j, w) ∷ m) = if j == k then (k, v) ∷ m else (j, w) ∷ put k v m

  unfoldable pub delete : K → List (K × V) → List (K × V)
  delete k [] = []
  delete k ((j, w) ∷ m) = if j == k then delete k m else (j, w) ∷ delete k m

  pub get-put :
      (k j : K) (v : V) (m : List (K × V))
      → get j (put k v m) ≡ (if k == j then some v else get j m)
  unfolding get put
  get-put k j v [] = refl
  get-put k j v ((i, w) ∷ m) = ground (arith, eq_iff k j, eq_iff i k, eq_iff i j, get-put k j v m)

  pub get-put_self : (k : K) (v : V) (m : List (K × V)) → get k (put k v m) ≡ some v
  get-put_self k v m = ground (arith, get-put k k v m, eq_refl k)

  pub get-delete :
      (k j : K) (m : List (K × V)) → get j (delete k m) ≡ (if k == j then none else get j m)
  unfolding get delete
  get-delete k j [] = ground arith
  get-delete k j ((i, w) ∷ m) = ground (arith, eq_iff k j, eq_iff i k, eq_iff i j, get-delete k j m)

  -- Every entry of the map has a property of its own.
  abbrev pub AllEntries : (K → V → Type 0) → List (K × V) → Type 0
  AllEntries P m = (k : K) (v : V) → get k m ≡ some v → P k v

  pub AllEntries-put :
      (P : K → V → Type 0) (k : K) (v : V) (m : List (K × V))
      → AllEntries P m
      → P k v
      → AllEntries P (put k v m)
  AllEntries-put P k v m h p j w found = elim (Bool-cases (k == j)) [
    | inl same ↦ ground (arith, get-put k j v m, (eq_iff k j).0 same)
    | inr other ↦ h j w (ground (arith, get-put k j v m))
  ]
