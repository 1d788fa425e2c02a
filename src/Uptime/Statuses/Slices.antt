-- ===== src/Uptime/Statuses/Slices.antt =====
-- sliceStakingValidatorByVP of uptime/api/uptime.go: which validators are kept.
use mathlib.Core.List.{Permᴰ}
use mathlib.Core.Path.{subst}
use cvms.Base.{
  ltb, Bool, true, false, ℕ, zero, suc, ◌+◌, ◌≤◌, ◌<◌, ◌≡◌, refl, sym, ap, List, [], ◌∷◌, ◌++◌,
  arith, ok, panic, length, length-append, take, drop, All,
}
use cvms.Indexer.Fetch.Honest.{length-perm}
use cvms.Uptime.{CosmosStakingValidator, UptimeCodecs}
use cvms.Uptime.Statuses.{GoSlice, SortSlice, more_tokens, slice_to, slice_staking_validator_by_vp}

module _ {A : Type 0} where
  take_short :
      (n : ℕ) (l m : List A)
      → n ≤ length l
      → (take n (l ++ m) ≡ take n l) × (take n l ++ drop n l ≡ l) × (length (take n l) ≡ n)
  take_short zero l m h = (refl, refl, refl)
  take_short (suc n) [] m h = absurd (omega (arith, h))
  take_short (suc n) (x ∷ l) m h =
      let (a, b, c) = take_short n l m (omega (arith, h)) in
      (ap (λ k. x ∷ k) a, ap (λ k. x ∷ k) b, ap suc c)

-- An order as sort.Slice wants it: `less` is asymmetric, and so is being not less transitive.
pub record StrictWeak (less : CosmosStakingValidator → CosmosStakingValidator → Bool) : Type 0 where
  pub asymmetric : (v w : CosmosStakingValidator) → less v w ≡ true → less w v ≡ false
  pub transitive_not :
      (u v w : CosmosStakingValidator) → less u v ≡ false → less v w ≡ false → less u w ≡ false

-- No element is less than one before it.
abbrev pub Ascending :
    (CosmosStakingValidator → CosmosStakingValidator → Bool) → List CosmosStakingValidator → Type 0
Ascending less [] = Unit
Ascending less (v ∷ l) = All (λ w. less w v ≡ false) l × Ascending less l

-- What sort.Slice documents: it keeps the elements, and orders them by any such `less`.
pub record Sorts (sort : SortSlice) : Type 0 where
  pub sort_keeps :
      (less : CosmosStakingValidator → CosmosStakingValidator → Bool)
      (l : List CosmosStakingValidator)
      → Permᴰ (sort less l) l
  pub sort_orders :
      (less : CosmosStakingValidator → CosmosStakingValidator → Bool)
      (l : List CosmosStakingValidator)
      → StrictWeak less
      → Ascending less (sort less l)

lt→not_ltb : (a b : ℕ) → ltb a b ≡ true → ltb b a ≡ false
lt→not_ltb a b e = ground arith

not_ltb→le : (a b : ℕ) → ltb a b ≡ false → b ≤ a
not_ltb→le a b e = ground arith

not_ltb_trans : (a b c : ℕ) → ltb b a ≡ false → ltb c b ≡ false → ltb c a ≡ false
not_ltb_trans a b c e f = ground arith

module _ {F : Type 0} (codecs : UptimeCodecs F) where
  abbrev pub tokens_of : CosmosStakingValidator → ℕ
  tokens_of v = (codecs.parse_int v.tokens).0

  -- `v` has at least the tokens of each of `l`.
  abbrev pub AtLeast : CosmosStakingValidator → List CosmosStakingValidator → Type 0
  AtLeast v l = All (λ w. tokens_of w ≤ tokens_of v) l

  abbrev pub Descending : List CosmosStakingValidator → Type 0
  Descending [] = Unit
  Descending (v ∷ l) = AtLeast v l × Descending l

  more_tokens-StrictWeak : StrictWeak (more_tokens codecs)
  unfolding more_tokens
  more_tokens-StrictWeak = record {
    asymmetric = λ v w e. lt→not_ltb (tokens_of w) (tokens_of v) e;
    transitive_not = λ u v w e f. not_ltb_trans (tokens_of u) (tokens_of v) (tokens_of w) e f;
  }

  Ascending-AtLeast :
      (v : CosmosStakingValidator) (l : List CosmosStakingValidator)
      → All (λ w. more_tokens codecs w v ≡ false) l
      → AtLeast v l
  unfolding more_tokens
  Ascending-AtLeast v [] h = tt
  Ascending-AtLeast v (w ∷ l) (e, h) =
      (not_ltb→le (tokens_of v) (tokens_of w) e, Ascending-AtLeast v l h)

  -- What is sorted by the code's order has its tokens descending.
  Ascending-Descending :
      (l : List CosmosStakingValidator) → Ascending (more_tokens codecs) l → Descending l
  Ascending-Descending [] h = tt
  Ascending-Descending (v ∷ l) (e, h) = (Ascending-AtLeast v l e, Ascending-Descending l h)

  All-drop :
      (P : CosmosStakingValidator → Type 0) (n : ℕ) (l : List CosmosStakingValidator)
      → All P l
      → All P (drop n l)
  All-drop P zero l h = h
  All-drop P (suc n) [] h = tt
  All-drop P (suc n) (x ∷ l) (p, h) = All-drop P n l h

  Descending-take :
      (n : ℕ) (l : List CosmosStakingValidator)
      → Descending l
      → All (λ v. AtLeast v (drop n l)) (take n l)
  Descending-take zero l h = tt
  Descending-take (suc n) [] h = tt
  Descending-take (suc n) (x ∷ l) (p, h) =
      (All-drop (λ w. tokens_of w ≤ tokens_of x) n l p, Descending-take n l h)

  -- `chosen` are `n` of the validators `l`, each with at least the tokens of any other.
  pub record TopOf (l : List CosmosStakingValidator) (n : ℕ) (chosen : List CosmosStakingValidator)
      : Type 0 where
    pub others : List CosmosStakingValidator
    pub all_of : Permᴰ (chosen ++ others) l
    pub as_many : length chosen ≡ n
    pub heaviest : All (λ v. AtLeast v others) chosen

  module _ (sort : SortSlice) (sorts : Sorts sort) where
    -- If there are as many staking validators as asked for, the call returns that many of them, each
    -- with at least the tokens of any that it leaves out.
    pub slice_staking_validator_by_vp-TopOf :
        (staking : GoSlice CosmosStakingValidator) (n : ℕ)
        → n ≤ length staking.elements
        → (chosen : List CosmosStakingValidator) × (slice_staking_validator_by_vp codecs sort
              staking n
            ≡ ok chosen)
          × TopOf staking.elements n chosen
    unfolding slice_staking_validator_by_vp slice_to
    slice_staking_validator_by_vp-TopOf staking n h =
        let l = sort (more_tokens codecs) staking.elements in
        let same = length-perm (sorts.sort_keeps (more_tokens codecs) staking.elements) in
        let (whole, parts, many) = take_short n l staking.spare (omega (arith, h, same)) in
        let sum = length-append l staking.spare in
        let fits : n ≤ length (l ++ staking.spare) = omega (arith, h, same, sum) in
        let keeps = sorts.sort_keeps (more_tokens codecs) staking.elements in
        (
          take n l,
          ground (arith, whole, fits),
          record {
            others = drop n l;
            all_of = subst (λ k. Permᴰ k staking.elements) (sym parts) keeps;
            as_many = many;
            heaviest = Descending-take n l (
                Ascending-Descending l
                  (sorts.sort_orders (more_tokens codecs) staking.elements more_tokens-StrictWeak));
          },
        )

    -- Past the capacity it panics.
    pub slice_staking_validator_by_vp-panics :
        (staking : GoSlice CosmosStakingValidator) (n : ℕ)
        → length staking.elements + length staking.spare < n
        → slice_staking_validator_by_vp codecs sort staking n ≡ panic
    unfolding slice_staking_validator_by_vp slice_to
    slice_staking_validator_by_vp-panics staking n h =
        let same = length-perm (sorts.sort_keeps (more_tokens codecs) staking.elements) in
        let sum = length-append (sort (more_tokens codecs) staking.elements) staking.spare in
        let less : length (sort (more_tokens codecs) staking.elements ++ staking.spare) < n =
          omega (arith, h, same, sum) in
        ground (arith, less)
