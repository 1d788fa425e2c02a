-- ===== src/Indexer/Infos/Answers.antt =====
-- What one query behind the first adds to the map of staking validators in
-- internal/common/function/function.go.
use mathlib.Core.Path.{subst}
use cvms.Base.{
  sym, ok_injective, ◌≡◌, ◌≢◌, refl, ◌∙◌, inl, inr, String, Bool-cases, true, some, List, [], ◌∷◌,
  ◌==◌, All, Error, put, exist, lookup, lookup-put, lookup-put_self, lookup-exist, string_eq,
  Result, ok, err, panic,
}
use cvms.Indexer.Infos.{
  StakingMap, StakingValidator, StakingValidatorMetaInfo, add_validators, drop_error,
  get_staking_validators,
}

-- An answer names an address: one of its validators has it, and each validator before has one.
pub data Names (a : String) : List StakingValidator → Type 0 where
  named_here :
      (v : StakingValidator) (l : List StakingValidator) → v.hex_address ≡ ok a → Names a (v ∷ l)
  named_later :
      (v : StakingValidator) (l : List StakingValidator) (b : String)
      → v.hex_address ≡ ok b
      → Names a l
      → Names a (v ∷ l)

-- Neither the query nor the addresses of its keys panic.
pub record Calmly (r : Result (List StakingValidator)) : Type 0 where
  pub calm_query : r ≢ panic
  pub calm_keys :
      (l : List StakingValidator)
      → r ≡ ok l
      → All (λ (v : StakingValidator). v.hex_address ≢ panic) l

exist-some :
    (a : String) (v : StakingValidatorMetaInfo) (m : StakingMap)
    → lookup a m ≡ some v
    → exist a m ≡ true
unfolding exist
exist-some a v m e = rw (e, exist) refl

exist-put_self :
    (a : String) (v : StakingValidatorMetaInfo) (m : StakingMap) → exist a (put a v m) ≡ true
exist-put_self a v m = exist-some a v (put a v m) (lookup-put_self a v m)

exist-put :
    (a b : String) (v : StakingValidatorMetaInfo) (m : StakingMap)
    → exist a m ≡ true
    → exist a (put b v m) ≡ true
exist-put a b v m e =
    let (w, found) = lookup-exist a m e in
    elim (Bool-cases (b == a)) [
      | inl same ↦ exist-some a v (put b v m) (lookup-put b a v m ∙ rw same)
      | inr other ↦ exist-some a w (put b v m) (lookup-put b a v m ∙ rw other found)
    ]

-- What the map `m'` behind a query has: what `m` had, and what the validators `l` name.
pub record Adds (l : List StakingValidator) (m m' : StakingMap) : Type 0 where
  pub keeps : (a : String) → exist a m ≡ true → exist a m' ≡ true
  pub finds : (a : String) → Names a l → exist a m' ≡ true

no_names : {B : Type 0} (a : String) → Names a [] → B
no_names a n = elim n [ ]

found_first :
    (v : StakingValidator) (l : List StakingValidator) (b : String) (m m' : StakingMap)
    → v.hex_address ≡ ok b
    → Adds l (put b v.info m) m'
    → (a : String) → Names a (v ∷ l)
    → exist a m' ≡ true
found_first v l b m m' e adds a (named_here _ _ here) =
    let same : a ≡ b = cc in rw same (adds.keeps b (exist-put_self b v.info m))
found_first v l b m m' e adds a (named_later _ _ c _ later) = adds.finds a later

unread :
    {B : Type 0} (v : StakingValidator) (l : List StakingValidator) (x : Error)
    → v.hex_address ≡ err x
    → (a : String) → Names a (v ∷ l)
    → B
unread v l x e a (named_here _ _ here) = cc
unread v l x e a (named_later _ _ b here later) = cc

add_validators-Adds :
    (l : List StakingValidator) (m : StakingMap)
    → All (λ (v : StakingValidator). v.hex_address ≢ panic) l
    → (m' : StakingMap) × (drop_error (add_validators l m) ≡ ok m') × Adds l m m'
unfolding add_validators
add_validators-Adds [] m h = (m, refl, record { keeps = λ a e. e; finds = λ a n. no_names a n })
add_validators-Adds (v ∷ l) m (p, h) =
    go v.hex_address refl (λ b. add_validators-Adds l (put b v.info m) h)
  where
    Goal : Result String → Type 0
    Goal r =
        (m' : StakingMap) × (drop_error (elim r [
          | ok a ↦ add_validators l (put a v.info m)
          | err e ↦ (err e, m)
          | panic ↦ (panic, m)
        ])
          ≡ ok m')
        × Adds (v ∷ l) m m'

    go :
        (r : Result String)
        → v.hex_address ≡ r
        → ((b : String)
            → (m' : StakingMap) × (drop_error (add_validators l (put b v.info m)) ≡ ok m')
              × Adds l (put b v.info m) m')
        → Goal r
    go (ok b) e rest =
        let (m', done, adds) = rest b in
        (
          m',
          done,
          record {
            keeps = λ a k. adds.keeps a (exist-put a b v.info m k);
            finds = λ a n. found_first v l b m m' e adds a n;
          },
        )
    go (err x) e rest = (m, refl, record { keeps = λ a k. k; finds = λ a n. unread v l x e a n })
    go panic e rest = absurd (p e)

-- A query that does not panic keeps what the map has and adds what its answer names.
pub get_staking_validators-Adds :
    (r : Result (List StakingValidator)) (m : StakingMap)
    → Calmly r
    → (m' : StakingMap) × (get_staking_validators r m ≡ ok m')
      × ((a : String) → exist a m ≡ true → exist a m' ≡ true)
      × ((a : String) (l : List StakingValidator) → r ≡ ok l → Names a l → exist a m' ≡ true)
unfolding get_staking_validators
get_staking_validators-Adds (ok l) m calm =
    let (m', done, adds) = add_validators-Adds l m (calm.calm_keys l refl) in
    (
      m',
      done,
      adds.keeps,
      λ a k e n. adds.finds a (subst (λ x. Names a x) (sym (ok_injective e)) n),
    )
get_staking_validators-Adds (err x) m calm = (m, refl, (λ a e. e), λ a k e n. cc)
get_staking_validators-Adds panic m calm = absurd (calm.calm_query refl)
