-- ===== src/Uptime.antt =====
-- The uptime exporter, internal/packages/consensus/uptime: its types, and the parsers of
-- internal/common/parser (cosmos.go, story.go) for it. A float64 is an element of a type that is a
-- parameter, with the two constants that the code writes and strconv.ParseFloat.
pub mod Statuses
pub mod Api
use cvms.Base.{
  Option, ℕ, String, Bool, List, [], ◌∷◌, if◌then◌else◌, ◌==◌, string_eq, Result, ok, err, panic,
  message, wrap, bind, Error, wrapped,
}

-- types.CosmosStakingValidator, as far as it is read
pub record CosmosStakingValidator : Type 0 where
  pub operator_address : String
  pub consensus_pubkey_key : String
  pub moniker : String
  pub tokens : String

-- the validators of types.StoryStakingValidatorsQueryResponse, likewise
pub record StoryStakingValidator : Type 0 where
  pub story_operator_address : String
  pub story_moniker : String
  pub story_pubkey_type : String
  pub story_pubkey_value : String

-- the validators of types.InitiaStakingValidatorsQueryResponse, likewise
pub record InitiaStakingValidator : Type 0 where
  pub initia_validator : CosmosStakingValidator
  pub initia_status : String

-- types.ValidatorUptimeStatus
pub record ValidatorUptimeStatus (F : Type 0) : Type 0 where
  pub status_moniker : String
  pub proposer_address : String
  pub validator_operator_address : String
  pub validator_consensus_address : String
  pub missed_block_counter : F
  pub voting_power : F
  pub is_tomstoned : F
  pub consumer_consensus_address : String

-- types.CommonUptimeStatus
pub record CommonUptimeStatus (F : Type 0) : Type 0 where
  pub min_signed_per_window : F
  pub signed_blocks_window : F
  pub validators : List (ValidatorUptimeStatus F)

-- ValidatorSigningInfo of types.CosmosSlashingResponse and types.StorySlashingResponse
pub record ValidatorSigningInfo : Type 0 where
  pub info_consensus_address : String
  pub info_index_offset : String
  pub info_missed_blocks_counter : String
  pub tombstoned : Bool

-- Params of their parameter responses
pub record SlashingParams : Type 0 where
  pub params_signed_blocks_window : String
  pub params_min_signed_per_window : String

-- types.ConsumerChain
pub record ConsumerChain : Type 0 where
  pub chain_id : String
  pub consumer_id : String

pub record UptimeCodecs (F : Type 0) : Type 0 where
  pub zero_float : F
  pub one_float : F
  pub parse_float : String → Result F
  -- json.Unmarshal
  pub cosmos_signing_info : String → Result ValidatorSigningInfo
  pub story_signing_info : String → Result ValidatorSigningInfo
  pub cosmos_params : String → Result SlashingParams
  pub story_params : String → Result SlashingParams
  pub story_validators : String → Result (List StoryStakingValidator)
  pub initia_validators : String → Result (List InitiaStakingValidator)
  pub cosmos_validators : String → Result (List CosmosStakingValidator)
  pub consumer_chains : String → Result (List ConsumerChain)
  -- internal/helper/sdk: ExportBech32ValconsPrefix; ConvertAndEncode of a prefix and a hex address;
  -- ProposerAddressFromPublicKey and MakeValconsAddressFromPubeky, whose errors the code drops
  pub export_bech32_valcons_prefix : String → Result String
  pub convert_and_encode : String → String → Result String
  pub proposer_address_from_public_key : String → String
  pub make_valcons_address_from_pubkey : String → String → String
  -- strconv.ParseInt to 64 bits, of a number that is not negative: with an error, too, it returns a
  -- number, 0 for a text that is none and the largest one for a number out of range
  pub parse_int : String → ℕ × Option Error

-- errors.Cause
unfoldable pub root_cause : Error → Error
root_cause (message s) = message s
root_cause (wrapped s e) = root_cause e

abbrev pub cause {ℓ} : {A : Type ℓ} → Result A → Result A
cause (ok a) = ok a
cause (err e) = err (root_cause e)
cause panic = panic

-- common.ErrFailedJsonUnmarshal
abbrev pub failed_json_unmarshal : Error
failed_json_unmarshal = message "%s: failed to unmarshing json data"

-- the error of a call that is replaced
abbrev pub replace_error {ℓ} : {A : Type ℓ} → Error → Result A → Result A
replace_error e (ok a) = ok a
replace_error e (err _) = err e
replace_error e panic = panic

-- sdkhelper.TendermintSecp256k1
abbrev pub tendermint_secp256k1 : String
tendermint_secp256k1 = "tendermint/PubKeySecp256k1"

module _ {F : Type 0} (codecs : UptimeCodecs F) where
  -- isTomstoned
  abbrev pub tombstoned_float : Bool → F
  tombstoned_float b = if b then codecs.one_float else codecs.zero_float

  -- isTomstoned and missedBlocksCounter: no caller reads the other two results.
  unfoldable pub cosmos_slashing_parser : String → Result (F × F)
  cosmos_slashing_parser body = bind (codecs.cosmos_signing_info body) λ info.
      bind (codecs.parse_float info.info_index_offset) λ _.
        bind (codecs.parse_float info.info_missed_blocks_counter)
          λ missed. ok (tombstoned_float info.tombstoned, missed)

  -- A counter that is not in the response is 0.
  abbrev pub parse_counter : String → Result F
  parse_counter s = if s == "" then ok codecs.zero_float else codecs.parse_float s

  unfoldable pub story_slashing_parser : String → Result (F × F)
  story_slashing_parser body = bind (codecs.story_signing_info body) λ info.
      bind (wrap "no index_offset key in the response" (codecs.parse_float info.info_index_offset))
        λ _.
          bind (parse_counter info.info_missed_blocks_counter)
            λ missed. ok (tombstoned_float info.tombstoned, missed)

  abbrev pub parse_params : SlashingParams → Result (F × F)
  parse_params p = bind (codecs.parse_float p.params_signed_blocks_window) λ window.
      bind (codecs.parse_float p.params_min_signed_per_window) λ minimum. ok (window, minimum)

  -- signedBlocksWindow and minSignedPerWindow
  unfoldable pub cosmos_slashing_params_parser : String → Result (F × F)
  cosmos_slashing_params_parser body = bind (codecs.cosmos_params body) parse_params

  unfoldable pub story_slashing_params_parser : String → Result (F × F)
  story_slashing_params_parser body = bind (codecs.story_params body) parse_params

  -- Tokens is left out, and so "".
  abbrev pub of_story : StoryStakingValidator → CosmosStakingValidator
  of_story v = record {
    operator_address = v.story_operator_address;
    consensus_pubkey_key = v.story_pubkey_value;
    moniker = v.story_moniker;
    tokens = "";
  }

  unfoldable pub story_validator_list :
      List StoryStakingValidator → Result (List CosmosStakingValidator)
  story_validator_list [] = ok []
  story_validator_list (v ∷ l) =
      let rest = story_validator_list l in
      if v.story_pubkey_type == tendermint_secp256k1
      then bind rest (λ vs. ok (of_story v ∷ vs))
      else err (message "unexpected key type for story validators")

  unfoldable pub story_staking_validator_parser : String → Result (List CosmosStakingValidator)
  unfolding story_validator_list
  story_staking_validator_parser body =
      bind (replace_error failed_json_unmarshal (codecs.story_validators body)) story_validator_list

  -- types.BOND_STATUS_BONDED
  abbrev pub bond_status_bonded : String
  bond_status_bonded = "BOND_STATUS_BONDED"

  -- Tokens is "" here, too.
  unfoldable pub bonded_validators : List InitiaStakingValidator → List CosmosStakingValidator
  bonded_validators [] = []
  bonded_validators (v ∷ l) =
      let rest = bonded_validators l in
      if v.initia_status == bond_status_bonded
      then (record v.initia_validator { tokens = "" }) ∷ rest
      else rest

  unfoldable pub initia_staking_validator_parser : String → Result (List CosmosStakingValidator)
  unfolding bonded_validators
  initia_staking_validator_parser body =
      bind (cause (codecs.initia_validators body)) λ l. ok (bonded_validators l)

  unfoldable pub cosmos_staking_validator_parser : String → Result (List CosmosStakingValidator)
  cosmos_staking_validator_parser body =
      replace_error failed_json_unmarshal (codecs.cosmos_validators body)
