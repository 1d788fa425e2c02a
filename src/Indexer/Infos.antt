-- ===== src/Indexer/Infos.antt =====
-- MakeValidatorInfoList of internal/common/function/function.go, for a chain with a staking module
-- and for a consumer chain: the infos of new addresses, with up to three further queries for those
-- that are not among the first. The queries (internal/common/api, and sdkhelper.MakeProposerAddress
-- on their keys) are a parameter.
pub mod Answers
pub mod Complete
use cvms.Base.{
  ℕ, String, Bool, true, false, Option, none, some, List, [], ◌∷◌, if◌then◌else◌, Map, put, lookup,
  exist, string_eq, Result, ok, err, panic, message, bind,
}
use cvms.Indexer.Types.{ValidatorInfo}

-- types.StakingValidatorMetaInfo
pub record StakingValidatorMetaInfo : Type 0 where
  pub moniker : String
  pub operator_address : String

-- A validator of an answer, with what MakeProposerAddress makes of its key.
pub record StakingValidator : Type 0 where
  pub hex_address : Result String
  pub info : StakingValidatorMetaInfo

-- types.BondStatus, of the queries behind the first
pub data BondStatus : Type 0 where
  unbonding unbonded unspecified : BondStatus

abbrev pub StakingMap : Type 0
StakingMap = Map String StakingValidatorMetaInfo

-- newStakingValidatorMap[hexAddress] = .., up to the first key without an address
unfoldable pub add_validators : List StakingValidator → StakingMap → Result (Unit {0}) × StakingMap
add_validators [] m = (ok tt, m)
add_validators (v ∷ l) m = elim v.hex_address [
  | ok a ↦ add_validators l (put a v.info m)
  | err e ↦ (err e, m)
  | panic ↦ (panic, m)
]

-- Its error is dropped, a panic is not.
abbrev pub drop_error : Result (Unit {0}) × StakingMap → Result StakingMap
drop_error (ok _, m) = ok m
drop_error (err e, m) = ok m
drop_error (panic, m) = panic

-- GetStakingValidators, whose error its callers drop: an error leaves what was added before it.
unfoldable pub get_staking_validators :
    Result (List StakingValidator) → StakingMap → Result StakingMap
unfolding add_validators
get_staking_validators (ok l) m = drop_error (add_validators l m)
get_staking_validators (err e) m = ok m
get_staking_validators panic m = panic

-- The statuses that retryCount has not reached yet.
abbrev pub all_retries : List BondStatus
all_retries = unbonding ∷ unbonded ∷ unspecified ∷ []

abbrev pub meta_or_zero : Option StakingValidatorMetaInfo → StakingValidatorMetaInfo
meta_or_zero none = record { moniker = ""; operator_address = "" }
meta_or_zero (some i) = i

abbrev pub info_of : ℕ → String → StakingMap → ValidatorInfo
info_of chain_info_id address m = record {
  id = 0;
  chain_info_id = chain_info_id;
  hex_address = address;
  operator_address = (meta_or_zero (lookup address m)).operator_address;
  moniker = (meta_or_zero (lookup address m)).moniker;
}

module _ (query : BondStatus → Result (List StakingValidator)) where
  -- from the label on: query while the address is missing and a retry is left
  unfoldable pub retry_loop :
      String → List BondStatus → StakingMap → Result (List BondStatus × StakingMap)
  unfolding get_staking_validators
  retry_loop address [] m =
      if exist address m
      then ok ([], m)
      else err (message "unexpected error while collecting validator info data")
  retry_loop address (status ∷ retries) m =
      let rest =
        bind (get_staking_validators (query status) m) λ m'. retry_loop address retries m' in
      if exist address m then ok (status ∷ retries, m) else rest

  -- the range over newValidatorAddressMap
  unfoldable pub collect_infos :
      ℕ → List String → List BondStatus → StakingMap → Result (List ValidatorInfo)
  unfolding retry_loop lookup
  collect_infos chain_info_id [] retries m = ok []
  collect_infos chain_info_id (a ∷ addresses) retries m =
      bind (retry_loop a retries m) λ (retries', m').
        bind (collect_infos chain_info_id addresses retries' m')
          λ infos. ok (info_of chain_info_id a m' ∷ infos)

  -- `first` is the map of the first answer, or its error.
  unfoldable pub make_validator_info_list :
      ℕ → Result StakingMap → List String → Result (List ValidatorInfo)
  unfolding collect_infos
  make_validator_info_list chain_info_id first addresses =
      bind first λ m. collect_infos chain_info_id addresses all_retries m
