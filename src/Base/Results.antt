-- ===== src/Base/Results.antt =====
-- Errors as values, and actions on a state that may fail.
use mathlib.Core.Path.{◌≡◌, refl}
use Prim.Native.String.{String}

-- A Go error: a message (its format string), or a message wrapped round another error.
pub data Error : Type 0 where
  message : String → Error
  wrapped : String → Error → Error

-- `panic` is a Go run-time panic, which no code on the modelled paths recovers unless said.
pub data Result {ℓ} (A : Type ℓ) : Type ℓ where
  ok : A → Result A
  err : Error → Result A
  panic : Result A

-- errors.Wrap
abbrev pub wrap {ℓ} : {A : Type ℓ} → String → Result A → Result A
wrap s (ok a) = ok a
wrap s (err e) = err (wrapped s e)
wrap s panic = panic

abbrev pub bind {ℓ κ} : {A : Type ℓ} {B : Type κ} → Result A → (A → Result B) → Result B
bind (ok a) f = f a
bind (err e) f = err e
bind panic f = panic

-- What was written before a failure stays written.
abbrev pub Exec {ℓ κ} : Type ℓ → Type κ → Type (ℓ ⊔ κ)
Exec S A = S → Result A × S

module _ {ℓ κ} {S : Type ℓ} {A : Type κ} where
  abbrev pub pure : A → Exec S A
  pure a s = (ok a, s)

  abbrev pub lift : Result A → Exec S A
  lift r s = (r, s)

  abbrev pub gets : (S → A) → Exec S A
  gets f s = (ok (f s), s)

module _ {ℓ κ ι} {S : Type ℓ} {A : Type κ} {B : Type ι} where
  abbrev pub continue : Result A → (A → Exec S B) → Exec S B
  continue (ok a) f s = f a s
  continue (err e) f s = (err e, s)
  continue panic f s = (panic, s)

  infixl 5 ◌>>=◌ ◌>>◌
  abbrev pub ◌>>=◌ : Exec S A → (A → Exec S B) → Exec S B
  ◌>>=◌ m f s = continue (m s).0 f (m s).1

  abbrev pub ◌>>◌ : Exec S A → Exec S B → Exec S B
  m >> k = m >>= λ _. k

-- Inversions, for proofs where the parts stay shut.
pub wrap-eq-ok {ℓ} : {A : Type ℓ} (m : String) (r : Result A) {a : A} → wrap m r ≡ ok a → r ≡ ok a
wrap-eq-ok m (ok b) h = h
wrap-eq-ok m (err e) h = cc
wrap-eq-ok m panic h = cc

module _ {ℓ κ ι} {S : Type ℓ} {A : Type κ} {B : Type ι} where
  pub continue-eq-ok :
      (r : Result A) (f : A → Exec S B) (s : S) {b : B}
      → (continue r f s).0 ≡ ok b
      → (a : A) × (r ≡ ok a) × (continue r f s ≡ f a s)
  continue-eq-ok (ok a) f s h = (a, refl, refl)
  continue-eq-ok (err e) f s h = cc
  continue-eq-ok panic f s h = cc

pub ok_injective {ℓ} : {A : Type ℓ} {a b : A} → ok a ≡ ok b → a ≡ b
ok_injective h = cc

pub bind-eq-ok {ℓ κ} :
    {A : Type ℓ} {B : Type κ} (r : Result A) (f : A → Result B) {b : B}
    → bind r f ≡ ok b
    → (a : A) × (r ≡ ok a) × (f a ≡ ok b)
bind-eq-ok (ok a) f e = (a, refl, e)
bind-eq-ok (err x) f e = cc
bind-eq-ok panic f e = cc
