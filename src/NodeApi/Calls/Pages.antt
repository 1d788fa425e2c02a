-- ===== src/NodeApi/Calls/Pages.antt =====
-- The paging of GetValidators in internal/common/api/api.go, and the calls that lose an error.
use cvms.Base.{
  sym, bind-eq-ok, ok_injective, le→leb, lt→not_leb, lt→not_beq, ℕ, zero, suc, ◌+◌, ◌*◌, ◌≤◌, ◌<◌,
  ◌≡◌, refl, ap, arith, true, false, List, [], ◌∷◌, ◌++◌, if◌then◌else◌, ◌==◌, leb, nat_eq,
  beq_self, length, take, drop, Result, ok, err, message, ◌⊎◌, inl, inr,
}
use cvms.Indexer.Types.{CosmosValidator}
use cvms.NodeApi.Parser.{cosmos_validator_parser}
use cvms.NodeApi.Calls.{HttpAnswer, ApiDecoders, parsed, validator_pages, get_validators}

module _ {ℓ} {A : Type ℓ} where
  take-drop : (n m : ℕ) (l : List A) → take n l ++ take m (drop n l) ≡ take (n + m) l
  take-drop zero m l = let e : 0 + m ≡ m = omega arith in rw e
  take-drop (suc n) zero [] = let e : suc n + 0 ≡ suc n = omega arith in rw e
  take-drop (suc n) (suc m) [] = let e : suc n + suc m ≡ suc (n + suc m) = omega arith in rw e
  take-drop (suc n) m (x ∷ l) =
      let e : suc n + m ≡ suc (n + m) = omega arith in rw e (ap (λ k. x ∷ k) (take-drop n m l))

  length-take : (n : ℕ) (l : List A) → n ≤ length l → length (take n l) ≡ n
  length-take zero l h = refl
  length-take (suc n) [] h = omega (arith, h)
  length-take (suc n) (x ∷ l) h = ap suc (length-take n l (omega (arith, h)))

  take_all : (n : ℕ) (l : List A) → length l ≤ n → take n l ≡ l
  take_all zero [] h = refl
  take_all zero (x ∷ l) h = ground (arith, h)
  take_all (suc n) [] h = refl
  take_all (suc n) (x ∷ l) h = ap (λ k. x ∷ k) (take_all n l (omega (arith, h)))

le_or_lt : (m n : ℕ) → (m ≤ n) ⊎ (n < m)
le_or_lt m n = ground arith

module _ (a : ApiDecoders) (answer : ℕ → HttpAnswer) (all : List CosmosValidator) where
  -- A node some of whose pages fail: one that is read is of `all`, a hundred to a page, with their
  -- number.
  abbrev pub PagesOf : Type 0
  PagesOf =
      (k : ℕ) (page : List CosmosValidator) (total : ℕ)
      → (100 * k < length all) ⊎ (k ≡ 0)
      → parsed (cosmos_validator_parser a.decoders) (answer (k + 1)) ≡ ok (page, total)
      → (page ≡ take 100 (drop (100 * k) all)) × (total ≡ length all)

  validator_pages_honest :
      (left k : ℕ) (v : List CosmosValidator)
      → PagesOf
      → (100 * k < length all) ⊎ (k ≡ 0)
      → validator_pages a answer left (k + 1) (take (100 * k) all) ≡ ok v
      → v ≡ all
  unfolding validator_pages
  validator_pages_honest zero k v pages asked e = cc
  validator_pages_honest (suc left) k v pages asked e =
      let ((page, total), got, rest) =
        bind-eq-ok (parsed (cosmos_validator_parser a.decoders) (answer (k + 1))) _ e in
      let (same, number) = pages k page total asked got in
      let rest' = (rw (same, number, take-drop (100 * k) 100 all) at rest) in
      elim (le_or_lt (length all) (100 * k + 100)) [
        | inl fits ↦
            sym (
              ok_injective (rw (take_all (100 * k + 100) all fits, beq_self (length all)) at rest'))
        | inr more ↦
            let short : length (take (100 * k + 100) all) ≡ 100 * k + 100 =
              length-take (100 * k + 100) all (omega (arith, more)) in
            let unequal : (100 * k + 100 == length all) ≡ false = lt→not_beq _ _ more in
            let next : 100 * k + 100 ≡ 100 * (k + 1) = omega arith in
            let next_more : 100 * (k + 1) < length all = omega (arith, more) in
            validator_pages_honest left (k + 1) v pages (inl next_more)
              (rw (short, unequal, next) at rest')
      ]

  -- Whatever pages fail, validators that are returned are all.
  pub get_validators_honest :
      (v : List CosmosValidator) → PagesOf → get_validators a answer ≡ ok v → v ≡ all
  unfolding get_validators
  get_validators_honest v pages e = validator_pages_honest 5 0 v pages (inr refl) e

  -- A node that has `all` validators at a height gives them a hundred to a page, and with each page
  -- their number. It is asked for no page behind the last.
  pub record IsPaged : Type 0 where
    pub first_page :
        parsed (cosmos_validator_parser a.decoders) (answer 1) ≡ ok (take 100 all, length all)
    pub later_page :
        (k : ℕ)
        → 100 * k < length all
        → parsed (cosmos_validator_parser a.decoders) (answer (k + 1))
          ≡ ok (take 100 (drop (100 * k) all), length all)

  module _ (paged : IsPaged) where
    abbrev expected : ℕ → Result (List CosmosValidator)
    expected most =
        if leb (length all) most
        then ok all
        else err (message "failed to find out all cosmos validators in this height")

    page_at :
        (k : ℕ)
        → (100 * k < length all) ⊎ (k ≡ 0)
        → parsed (cosmos_validator_parser a.decoders) (answer (k + 1))
          ≡ ok (take 100 (drop (100 * k) all), length all)
    page_at k (inl lt) = paged.later_page k lt
    page_at k (inr e) = rw e paged.first_page

    validator_pages_from :
        (left k : ℕ)
        → (100 * k < length all) ⊎ ((k ≡ 0) × (1 ≤ left))
        → validator_pages a answer left (k + 1) (take (100 * k) all) ≡ expected (100 * (k + left))
    unfolding validator_pages
    validator_pages_from zero k (inl lt) =
        let more : leb (length all) (100 * (k + 0)) ≡ false = lt→not_leb _ _ (omega (arith, lt)) in
        rw more
    validator_pages_from zero k (inr (e, le)) = ground (arith, le)
    validator_pages_from (suc left) k h =
        let asked : (100 * k < length all) ⊎ (k ≡ 0) = elim h [
          | inl lt ↦ inl lt
          | inr (e, _) ↦ inr e
        ] in
        rw (page_at k asked, take-drop (100 * k) 100 all)
          (elim (le_or_lt (length all) (100 * k + 100)) [
            | inl fits ↦
                let within : leb (length all) (100 * (k + suc left)) ≡ true =
                  le→leb _ _ (omega (arith, fits)) in
                rw (take_all (100 * k + 100) all fits, beq_self (length all), within)
            | inr more ↦
                let short : length (take (100 * k + 100) all) ≡ 100 * k + 100 =
                  length-take (100 * k + 100) all (omega (arith, more)) in
                let unequal : (100 * k + 100 == length all) ≡ false = lt→not_beq _ _ more in
                let next : 100 * k + 100 ≡ 100 * (k + 1) = omega arith in
                let same : k + 1 + left ≡ k + suc left = omega arith in
                let next_more : 100 * (k + 1) < length all = omega (arith, more) in
                rw (short, unequal, next)
                  (rw same at (validator_pages_from left (k + 1) (inl next_more)))
          ])

  -- If the node pages the validators of a height like this, then all of them are returned, in
  -- order, if there are at most 500. If there are more the call fails, though it has fetched 500.
  pub get_validators_all :
      IsPaged
      → get_validators a answer ≡ (
          if leb (length all) 500
          then ok all
          else err (message "failed to find out all cosmos validators in this height"))
  unfolding get_validators
  get_validators_all paged = validator_pages_from paged 5 0 (inr (refl, omega arith))
