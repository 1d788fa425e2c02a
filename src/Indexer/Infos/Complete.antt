-- ===== src/Indexer/Infos/Complete.antt =====
-- Three further queries are enough for every address that one of the answers has.
use cvms.Base.{
  ℕ, ◌≡◌, refl, ap, inl, inr, String, true, List, [], ◌∷◌, map, Bool-cases, All, exist, string_eq,
  Result, ok, bind, bind-eq-ok, ok_injective,
}
use cvms.Indexer.Types.{ValidatorInfo}
use cvms.Indexer.Infos.Answers.{Names, Calmly, get_staking_validators-Adds}
use cvms.Indexer.Infos.{
  unbonding, unbonded, unspecified, StakingMap, StakingValidator, BondStatus, all_retries,
  get_staking_validators, retry_loop, info_of, collect_infos, make_validator_info_list,
}

module _ (query : BondStatus → Result (List StakingValidator)) where
  -- the map once all of these queries have been made
  abbrev pub refreshed : List BondStatus → StakingMap → Result StakingMap
  refreshed [] m = ok m
  refreshed (status ∷ retries) m =
      bind (get_staking_validators (query status) m) λ m'. refreshed retries m'

  retry_loop_finds :
      (a : String) (retries : List BondStatus) (m last : StakingMap)
      → refreshed retries m ≡ ok last
      → exist a last ≡ true
      → (retries' : List BondStatus) × (m' : StakingMap) × (retry_loop query a retries m
          ≡ ok (retries', m'))
        × (refreshed retries' m' ≡ ok last)
        × (exist a m' ≡ true)
  unfolding retry_loop
  retry_loop_finds a [] m last r e =
      let same : m ≡ last = ok_injective r in
      let e' : exist a m ≡ true = rw same e in ([], m, rw e' refl, refl_ok same, e')
    where
      refl_ok : {x y : StakingMap} → x ≡ y → ok x ≡ ok y
      refl_ok p = ap ok p
  retry_loop_finds a (status ∷ retries) m last r e = elim (Bool-cases (exist a m)) [
    | inl here ↦ (status ∷ retries, m, rw here refl, r, here)
    | inr missing ↦
        let (next, asked, r') = bind-eq-ok (get_staking_validators (query status) m) _ r in
        let (retries', m', found, same, there) = retry_loop_finds a retries next last r' e in
        (retries', m', rw (missing, asked) found, same, there)
  ]

  collect_infos_finds :
      (c : ℕ) (addresses : List String) (retries : List BondStatus) (m last : StakingMap)
      → refreshed retries m ≡ ok last
      → All (λ a. exist a last ≡ true) addresses
      → (infos : List ValidatorInfo) × (collect_infos query c addresses retries m ≡ ok infos)
        × (map (λ (i : ValidatorInfo). i.hex_address) infos ≡ addresses)
        × All (λ (i : ValidatorInfo). i.chain_info_id ≡ c) infos
  unfolding collect_infos
  collect_infos_finds c [] retries m last r h = ([], refl, refl, tt)
  collect_infos_finds c (a ∷ addresses) retries m last r (e, h) =
      let (retries', m', found, same, _) = retry_loop_finds a retries m last r e in
      let (infos, rest, names, chains) = collect_infos_finds c addresses retries' m' last same h in
      (info_of c a m' ∷ infos, rw (found, rest) refl, ap (λ l. a ∷ l) names, (refl, chains))

  -- The first answer's map has an address, or the answer to one of the further queries names it.
  pub data Named (m : StakingMap) (a : String) : Type 0 where
    in_first : exist a m ≡ true → Named m a
    in_retry :
        (status : BondStatus) (l : List StakingValidator)
        → query status ≡ ok l
        → Names a l
        → Named m a

  All-map :
      (P Q : String → Type 0) (l : List String) → ((a : String) → P a → Q a) → All P l → All Q l
  All-map P Q [] f h = tt
  All-map P Q (a ∷ l) f (p, h) = (f a p, All-map P Q l f h)

  refreshed-Named :
      (m : StakingMap)
      → ((status : BondStatus) → Calmly (query status))
      → (last : StakingMap) × (refreshed all_retries m ≡ ok last)
        × ((a : String) → Named m a → exist a last ≡ true)
  refreshed-Named m calm =
      let (m1, e1, k1, f1) = get_staking_validators-Adds (query unbonding) m (calm unbonding) in
      let (m2, e2, k2, f2) = get_staking_validators-Adds (query unbonded) m1 (calm unbonded) in
      let (m3, e3, k3, f3) =
        get_staking_validators-Adds (query unspecified) m2 (calm unspecified) in
      let all : (a : String) → Named m a → exist a m3 ≡ true = λ a n. elim n [
        | in_first here ↦ k3 a (k2 a (k1 a here))
        | in_retry status l asked names ↦ by_status m1 m2 m3 k2 k3 f1 f2 f3 a status l asked names
      ] in
      (m3, rw (e1, e2, e3) refl, all)
    where
      by_status :
          (m1 m2 m3 : StakingMap)
          → ((a : String) → exist a m1 ≡ true → exist a m2 ≡ true)
          → ((a : String) → exist a m2 ≡ true → exist a m3 ≡ true)
          → ((a : String) (l : List StakingValidator)
              → query unbonding ≡ ok l
              → Names a l
              → exist a m1 ≡ true)
          → ((a : String) (l : List StakingValidator)
              → query unbonded ≡ ok l
              → Names a l
              → exist a m2 ≡ true)
          → ((a : String) (l : List StakingValidator)
              → query unspecified ≡ ok l
              → Names a l
              → exist a m3 ≡ true)
          → (a : String) (status : BondStatus) (l : List StakingValidator) → query status ≡ ok l
          → Names a l
          → exist a m3 ≡ true
      by_status m1 m2 m3 k2 k3 f1 f2 f3 a unbonding l e n = k3 a (k2 a (f1 a l e n))
      by_status m1 m2 m3 k2 k3 f1 f2 f3 a unbonded l e n = k3 a (f2 a l e n)
      by_status m1 m2 m3 k2 k3 f1 f2 f3 a unspecified l e n = f3 a l e n

  -- If the first query answers, and none of the queries for unbonding, unbonded and unspecified
  -- validators panics, though any may fail, and every new address is in the map of the first answer
  -- or among the validators that another of them answers with, behind none whose key has no
  -- address: the list is made, with one info of the chain for each address, in order.
  pub make_validator_info_list_complete :
      (c : ℕ) (m : StakingMap) (addresses : List String)
      → ((status : BondStatus) → Calmly (query status))
      → All (Named m) addresses
      → (infos : List ValidatorInfo) × (make_validator_info_list query c (ok m) addresses
          ≡ ok infos)
        × (map (λ (i : ValidatorInfo). i.hex_address) infos ≡ addresses)
        × All (λ (i : ValidatorInfo). i.chain_info_id ≡ c) infos
  unfolding make_validator_info_list
  make_validator_info_list_complete c m addresses calm named =
      let (last, refresh, found) = refreshed-Named m calm in
      collect_infos_finds c addresses all_retries m last refresh
        (All-map (Named m) (λ a. exist a last ≡ true) addresses found named)
