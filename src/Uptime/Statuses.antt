-- ===== src/Uptime/Statuses.antt =====
-- uptime/api/uptime.go: the statuses of the validators of a chain, and of a consumer chain. The
-- node's answers, the order of the goroutines' messages and sort.Slice are parameters.
pub mod Collected
pub mod Slices
pub mod Reads
pub mod Exact
pub mod Keys
pub mod Untokened
use cvms.Base.{
  ℕ, String, Bool, List, [], ◌∷◌, ◌++◌, ◌+◌, none, some, Option, if◌then◌else◌, ◌==◌, ltb, leb,
  string_eq, nat_eq, length, take, concat_map, Map, put, lookup, Result, ok, err, panic, message,
  Error, bind,
}
use cvms.Indexer.Types.{CosmosValidator}
use cvms.Indexer.Fetch.{FetchResult, success, failure, sent, Schedule}
use cvms.NodeApi.Calls.{HttpAnswer, failed, answered, status_ok, ProviderValidator}
use cvms.Uptime.{
  CosmosStakingValidator, ValidatorUptimeStatus, UptimeCodecs, cause, replace_error,
  cosmos_slashing_parser, story_slashing_parser, cosmos_slashing_params_parser,
  story_slashing_params_parser,
}

-- A slice: its elements, and those between its length and its capacity.
pub record GoSlice {ℓ} (A : Type ℓ) : Type ℓ where
  pub elements : List A
  pub spare : List A

-- s[:n]
unfoldable pub slice_to {ℓ} : {A : Type ℓ} → ℕ → GoSlice A → Result (List A)
slice_to n s =
    if leb n (length (s.elements ++ s.spare)) then ok (take n (s.elements ++ s.spare)) else panic

-- common.ErrFailedHttpRequest and common.ErrFailedConvertTypes
abbrev pub failed_http_request : Error
failed_http_request = message "%s: failed to request from node"

abbrev pub failed_convert_types : Error
failed_convert_types = message "%s: failed to converting number types"

-- the two tests behind each request
abbrev pub uptime_body : HttpAnswer → Result String
uptime_body (failed e) = err e
uptime_body (answered code body) =
    if code == status_ok then ok body else err (message "api error: got %d code from %s")

-- The loop over the channel: validatorResult and errorCount.
module _ {ℓ} {Item : Type ℓ} where
  unfoldable pub collect_items : List (FetchResult Item) → List Item × ℕ → List Item × ℕ
  collect_items [] acc = acc
  collect_items (success item ∷ rest) (found, errors) =
      collect_items rest (found ++ (item ∷ []), errors)
  collect_items (failure ∷ rest) (found, errors) = collect_items rest (found, errors + 1)

  -- errorCount > 0 ends the call
  unfoldable pub all_or_error : List (FetchResult Item) → Result (List Item)
  unfolding collect_items
  all_or_error messages =
      let (found, errors) = collect_items messages ([], 0) in
      if ltb 0 errors then err failed_http_request else ok found

-- sort.Slice: what it makes of the elements, in place, by a function `less` on two of them.
abbrev pub SortSlice : Type 0
SortSlice =
    (CosmosStakingValidator → CosmosStakingValidator → Bool)
    → List CosmosStakingValidator
    → List CosmosStakingValidator

module _ {F : Type 0} (codecs : UptimeCodecs F) where
  -- tokensI > tokensJ, of the numbers that ParseInt returns whatever its errors
  unfoldable pub more_tokens : CosmosStakingValidator → CosmosStakingValidator → Bool
  more_tokens v w = ltb (codecs.parse_int w.tokens).0 (codecs.parse_int v.tokens).0

  unfoldable pub slice_staking_validator_by_vp :
      SortSlice → GoSlice CosmosStakingValidator → ℕ → Result (List CosmosStakingValidator)
  unfolding more_tokens slice_to
  slice_staking_validator_by_vp sort staking total =
      slice_to total
        (record { elements = sort more_tokens staking.elements; spare = staking.spare })

  -- The loop that ends with the first validator.
  unfoldable pub valcons_prefix : List CosmosStakingValidator → Result String
  valcons_prefix [] = ok ""
  valcons_prefix (v ∷ _) = cause (codecs.export_bech32_valcons_prefix v.operator_address)

  -- pubkeysMap and vpMap
  abbrev pub KeyMaps : Type 0
  KeyMaps = Map String String × Map String F

  abbrev pub add_key : CosmosValidator → KeyMaps → String → F → KeyMaps
  add_key v (addresses, powers) address vp =
      (put v.pubkey_value address addresses, put v.pubkey_value vp powers)

  unfoldable pub make_key_maps : String → List CosmosValidator → KeyMaps → Result KeyMaps
  make_key_maps prefix [] maps = ok maps
  make_key_maps prefix (v ∷ l) maps =
      bind (replace_error failed_convert_types (codecs.convert_and_encode prefix v.address))
        λ address.
          bind (replace_error failed_convert_types (codecs.parse_float v.voting_power))
            λ vp. make_key_maps prefix l (add_key v maps address vp)

  -- a key that a Go map does not have is the type's zero value
  abbrev pub value_or {ℓ} : {A : Type ℓ} → A → Option A → A
  value_or z none = z
  value_or z (some a) = a

  abbrev pub address_at : KeyMaps → String → String
  address_at (addresses, powers) k = value_or "" (lookup k addresses)

  abbrev pub power_at : KeyMaps → String → F
  power_at (addresses, powers) k = value_or codecs.zero_float (lookup k powers)

  -- the parser that the chain's name selects
  abbrev pub slashing_parser : String → String → Result (F × F)
  slashing_parser chain_name body =
      if chain_name == "story"
      then story_slashing_parser codecs body
      else cosmos_slashing_parser codecs body

  -- What the goroutine of a validator comes to.
  unfoldable pub uptime_of :
      String
      → (String → HttpAnswer)
      → KeyMaps
      → CosmosStakingValidator
      → Result (ValidatorUptimeStatus F)
  uptime_of chain_name answer maps item =
      bind (uptime_body (answer (address_at maps item.consensus_pubkey_key))) λ body.
        bind (slashing_parser chain_name body) λ (p : F × F). ok (record {
          status_moniker = item.moniker;
          proposer_address = codecs.proposer_address_from_public_key item.consensus_pubkey_key;
          validator_operator_address = item.operator_address;
          validator_consensus_address = address_at maps item.consensus_pubkey_key;
          missed_block_counter = p.1;
          voting_power = power_at maps item.consensus_pubkey_key;
          is_tomstoned = p.0;
          consumer_consensus_address = "";
        })

  -- `answer` is what the node says at the slashing path of a consensus address.
  unfoldable pub get_validator_uptime_status :
      SortSlice
      → Schedule (ValidatorUptimeStatus F)
      → (String → HttpAnswer)
      → String
      → List CosmosValidator
      → GoSlice CosmosStakingValidator
      → Result (List (ValidatorUptimeStatus F))
  unfolding valcons_prefix make_key_maps slice_staking_validator_by_vp uptime_of all_or_error
  get_validator_uptime_status sort arrive answer chain_name validators staking =
      bind (valcons_prefix staking.elements) λ prefix.
        bind (make_key_maps prefix validators ([], [])) λ maps.
          bind (slice_staking_validator_by_vp sort staking (length validators)) λ ordered.
            all_or_error
              (arrive (concat_map (λ v. sent (uptime_of chain_name answer maps v)) ordered))

  -- The goroutine of a provider's validator; the consumer chain is parsed as a Cosmos chain.
  unfoldable pub consumer_uptime_of :
      (String → HttpAnswer) → String → ProviderValidator → Result (ValidatorUptimeStatus F)
  consumer_uptime_of answer prefix pv =
      let address = codecs.make_valcons_address_from_pubkey pv.consumer_pubkey prefix in
      bind (uptime_body (answer address)) λ body.
        bind (cosmos_slashing_parser codecs body) λ (p : F × F). ok (record {
          status_moniker = pv.provider_moniker;
          proposer_address = codecs.proposer_address_from_public_key pv.consumer_pubkey;
          validator_operator_address = pv.provider_valoper_address;
          validator_consensus_address = pv.provider_valcons_address;
          missed_block_counter = p.1;
          voting_power = codecs.zero_float;
          is_tomstoned = p.0;
          consumer_consensus_address = address;
        })

  unfoldable pub get_consumer_validator_uptime_status :
      Schedule (ValidatorUptimeStatus F)
      → (String → HttpAnswer)
      → List ProviderValidator
      → String
      → Result (List (ValidatorUptimeStatus F))
  unfolding consumer_uptime_of all_or_error
  get_consumer_validator_uptime_status arrive answer validators prefix =
      all_or_error (arrive (concat_map (λ v. sent (consumer_uptime_of answer prefix v)) validators))

  -- signedBlocksWindow and minSignedPerWindow; `answer` is the node's at the parameters' path
  unfoldable pub get_uptime_params : HttpAnswer → String → Result (F × F)
  get_uptime_params answer chain_name = cause (
      bind (uptime_body answer) λ body.
        if chain_name == "story"
        then story_slashing_params_parser codecs body
        else cosmos_slashing_params_parser codecs body)
