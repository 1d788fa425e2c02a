-- ===== src/Base/Post.antt =====
-- Postconditions of actions: `P` of the value and the state behind a success, `E` of the state
-- behind an error or a panic.
use mathlib.Core.Path.{◌≡◌, refl, subst}
use mathlib.Core.Logic.{◌≢◌}
use mathlib.Core.Bool.{Bool, true, false}
use Prim.Native.String.{String}
use cvms.Base.Tests.{if◌then◌else◌}
use cvms.Base.Results.{Result, ok, err, panic, wrap, Exec, lift, continue, ◌>>=◌}

abbrev pub Post {ℓ κ ι} :
    {S : Type ℓ} {A : Type κ} → (A → S → Type ι) → (S → Type ι) → Result A → S → Type ι
Post P E (ok a) s = P a s
Post P E (err e) s = E s
Post P E panic s = E s

-- `m`, started in `s`, meets the postcondition.
abbrev pub Ends {ℓ κ ι} :
    {S : Type ℓ} {A : Type κ} → (A → S → Type ι) → (S → Type ι) → Exec S A → S → Type ι
Ends P E m s = Post P E (m s).0 (m s).1

module _ {ℓ κ ι ρ} {S : Type ℓ} {A : Type κ} {B : Type ρ} (P : A → S → Type ι) (Q : B → S → Type ι)
    (E : S → Type ι) where
  pub Post-continue :
      (r : Result A) (f : A → Exec S B) (s : S)
      → Post P E r s
      → ((a : A) (s' : S) → P a s' → Ends Q E (f a) s')
      → Post Q E (continue r f s).0 (continue r f s).1
  Post-continue (ok a) f s h k = k a s h
  Post-continue (err e) f s h k = h
  Post-continue panic f s h k = h

  pub Ends-bind :
      (m : Exec S A) (f : A → Exec S B) (s : S)
      → Ends P E m s
      → ((a : A) (s' : S) → P a s' → Ends Q E (f a) s')
      → Ends Q E (m >>= f) s
  Ends-bind m f s h k = Post-continue (m s).0 f (m s).1 h k

module _ {ℓ κ ι ρ} {S : Type ℓ} {A : Type κ} {B : Type ρ} (Q : B → S → Type ι)
    (E : S → Type ι) where
  pub Ends-lift :
      (r : Result A) (f : A → Exec S B) (s : S)
      → E s
      → ((a : A) → r ≡ ok a → Ends Q E (f a) s)
      → Ends Q E (lift r >>= f) s
  Ends-lift (ok a) f s h k = k a refl
  Ends-lift (err e) f s h k = h
  Ends-lift panic f s h k = h

module _ {ℓ κ ι} {S : Type ℓ} {A : Type κ} (P : A → S → Type ι) (E : S → Type ι) where
  pub Post-wrap : (text : String) (r : Result A) (s : S) → Post P E r s → Post P E (wrap text r) s
  Post-wrap text (ok a) s h = h
  Post-wrap text (err e) s h = h
  Post-wrap text panic s h = h

  pub Ends-if :
      (b : Bool) (x y : Result A × S)
      → (b ≡ true → Post P E x.0 x.1)
      → (b ≡ false → Post P E y.0 y.1)
      → Post P E (if b then x else y).0 (if b then x else y).1
  Ends-if true x y h k = h refl
  Ends-if false x y h k = k refl

  -- A value that was computed with no effect.
  pub Post-lift : (r : Result A) (s : S) → ((a : A) → r ≡ ok a → P a s) → E s → Post P E r s
  Post-lift (ok a) s h e = h a refl
  Post-lift (err _) s h e = e
  Post-lift panic s h e = e

  pub Post-weaken :
      (P' : A → S → Type ι) (E' : S → Type ι) (r : Result A) (s : S)
      → Post P' E' r s
      → ((a : A) → P' a s → P a s)
      → (E' s → E s)
      → Post P E r s
  Post-weaken P' E' (ok a) s h f g = f a h
  Post-weaken P' E' (err _) s h f g = g h
  Post-weaken P' E' panic s h f g = g h

-- Of an action that only succeeds or fails.
pub Post-split {ℓ ι} :
    {S : Type ℓ} (P : Unit {0} → S → Type ι) (E : S → Type ι) (r : Result (Unit {0})) (s : S)
    → (r ≡ ok tt → P tt s)
    → (r ≢ ok tt → E s)
    → Post P E r s
Post-split P E (ok _) s h k = h refl
Post-split P E (err e) s h k = k (λ p. cc)
Post-split P E panic s h k = k (λ p. cc)

pub Post-always {ℓ κ ι} :
    {S : Type ℓ} {A : Type κ} (E : S → Type ι) (r : Result A) (s : S)
    → E s
    → Post (λ _ s'. E s') E r s
Post-always E (ok a) s h = h
Post-always E (err e) s h = h
Post-always E panic s h = h

module _ {ℓ κ ι} {S : Type ℓ} {A : Type κ} (P : A → S → Type ι) (E : S → Type ι) where
  -- What a postcondition says of an outcome that is known, or of any outcome.
  pub Post-ok : (r : Result A) (s : S) (a : A) → Post P E r s → r ≡ ok a → P a s
  Post-ok r s a h e = subst (λ r'. Post P E r' s) e h

  pub Post-either {ρ} :
      {C : Type ρ} (r : Result A) (s : S) → Post P E r s → ((a : A) → P a s → C) → (E s → C) → C
  Post-either (ok a) s h f g = f a h
  Post-either (err _) s h f g = g h
  Post-either panic s h f g = g h

-- A postcondition of a part of the state.
pub Post-view {ℓ κ ι ρ} :
    {S : Type ℓ} {T : Type ρ} {A : Type κ} (P : A → S → Type ι) (E : S → Type ι) (part : T → S)
    (r : Result A) (t : T)
    → Post P E r (part t)
    → Post (λ a t'. P a (part t')) (λ t'. E (part t')) r t
Post-view P E part (ok a) t h = h
Post-view P E part (err _) t h = h
Post-view P E part panic t h = h

-- A property of the state that both halves of an action keep.
pub bind-keeps {ℓ κ ι ρ} :
    {S : Type ℓ} {A : Type κ} {B : Type ρ} (Q : S → Type ι) (m : Exec S A) (f : A → Exec S B)
    (s : S)
    → Q (m s).1
    → ((a : A) (s' : S) → Q s' → Q (f a s').1)
    → Q ((m >>= f) s).1
bind-keeps {S = S} {A = A} {B = B} Q m f s h k = of_result (m s).0
  where
    of_result : (r : Result A) → Q (continue r f (m s).1).1
    of_result (ok a) = k a (m s).1 h
    of_result (err _) = h
    of_result panic = h

pub Post-failed {ℓ ι} :
    {S : Type ℓ} (P : Unit {0} → S → Type ι) (E : S → Type ι) (r : Result (Unit {0})) (s : S)
    → Post P E r s
    → r ≢ ok tt
    → E s
Post-failed P E (ok _) s h failed = absurd (failed refl)
Post-failed P E (err e) s h failed = h
Post-failed P E panic s h failed = h

-- What the last step of an action returns, whatever the steps before it do.
pub Ends-last {ℓ κ ρ ι} :
    {S : Type ℓ} {A : Type κ} {B : Type ρ} (P : B → Type ι) (m : Exec S A) (f : A → Exec S B)
    (s : S)
    → ((a : A) (s' : S) → Ends (λ b _. P b) (λ _. Unit {ι}) (f a) s')
    → Ends (λ b _. P b) (λ _. Unit {ι}) (m >>= f) s
Ends-last {S = S} {A = A} {B = B} P m f s h = of_result (m s).0
  where
    of_result :
        (r : Result A)
        → Post (λ b _. P b) (λ _. Unit {ι}) (continue r f (m s).1).0 (continue r f (m s).1).1
    of_result (ok a) = h a (m s).1
    of_result (err _) = tt
    of_result panic = tt
