-- ===== src/Base/Maps.antt =====
-- A Go map as an association list. The program reads it by key, and where it ranges over it the
-- order of the entries is Go's choice.
use mathlib.Core.Path.{◌≡◌, refl, ◌∙◌}
use mathlib.Core.Bool.{Bool, true, false}
use mathlib.Core.Option.{Option, none, some}
use mathlib.Core.List.{List, [], ◌∷◌}
use native.Mathlib.Omega.{arith}
use mathlib.Core.Logic.{inl, inr}
use cvms.Base.Tests.{Option-cases, beq_self, Testable, ◌==◌, if◌then◌else◌}

abbrev pub Map {ℓ κ} : Type ℓ → Type κ → Type (ℓ ⊔ κ)
Map K V = List (K × V)

module _ {ℓ κ} {K : Type ℓ} {V : Type κ} ⦃e : Testable K⦄ where
  -- v, exist := m[k]
  unfoldable pub lookup : K → Map K V → Option V
  lookup k [] = none
  lookup k ((j, v) ∷ m) = if j == k then some v else lookup k m

  -- m[k] = v
  unfoldable pub put : K → V → Map K V → Map K V
  put k v [] = (k, v) ∷ []
  put k v ((j, w) ∷ m) = if j == k then (k, v) ∷ m else (j, w) ∷ put k v m

  pub lookup-put :
      (k j : K) (v : V) (m : Map K V)
      → lookup j (put k v m) ≡ (if k == j then some v else lookup j m)
  unfolding lookup put
  lookup-put k j v [] = refl
  lookup-put k j v ((i, w) ∷ m) =
      ground (arith, e.test_iff k j, e.test_iff i k, e.test_iff i j, lookup-put k j v m)

  pub lookup-put_self : (k : K) (v : V) (m : Map K V) → lookup k (put k v m) ≡ some v
  lookup-put_self k v m = lookup-put k k v m ∙ rw (beq_self k)

  pub lookup-nil : (k : K) {v : V} {B : Type 0} → lookup k [] ≡ some v → B
  unfolding lookup
  lookup-nil k e = cc

  -- _, exist := m[k]
  unfoldable pub exist : K → Map K V → Bool
  unfolding lookup
  exist k m = elim (lookup k m) [ none ↦ false | some v ↦ true ]

  pub lookup-exist : (k : K) (m : Map K V) → exist k m ≡ true → (v : V) × (lookup k m ≡ some v)
  unfolding exist
  lookup-exist k m e = elim (Option-cases (lookup k m)) [
    | inl missing ↦ let e' : false ≡ true = (rw (missing, exist) at e) in cc
    | inr found ↦ found
  ]

module _ {ℓ κ} {K : Type ℓ} {V : Type κ} where
  -- The keys, in the order in which a range over the map would meet them.
  abbrev pub keys : Map K V → List K
  keys [] = []
  keys ((j, v) ∷ m) = j ∷ keys m

  abbrev pub values : Map K V → List V
  values [] = []
  values ((j, v) ∷ m) = v ∷ values m
