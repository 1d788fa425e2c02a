-- ===== src/Uptime/Api.antt =====
-- uptime/api/api.go and uptime/router/router.go: the status of a chain, and of a consumer chain,
-- with GetStakingValidators and GetConsumerChainID of internal/common/api/api.go.
use cvms.Base.{
  String, Bool, List, [], ◌∷◌, if◌then◌else◌, ◌==◌, string_eq, Result, ok, err, message, wrap,
  wrapped, bind, nat_eq, ℕ,
}
use cvms.Indexer.Fetch.{Schedule}
use cvms.NodeApi.Calls.{
  HttpAnswer, failed, answered, status_ok, ApiDecoders, get_validators, get_provider_validators,
  get_consumer_chain_hrp,
}
use cvms.Uptime.{
  CosmosStakingValidator, ValidatorUptimeStatus, CommonUptimeStatus, ConsumerChain, UptimeCodecs,
  cause, story_staking_validator_parser, initia_staking_validator_parser,
  cosmos_staking_validator_parser,
}
use cvms.Uptime.Statuses.{
  GoSlice, SortSlice, uptime_body, get_validator_uptime_status,
  get_consumer_validator_uptime_status, get_uptime_params,
}

-- The answers of one client: to the query of the staking validators, to each page of the
-- consensus validators, at the slashing path of an address, and at the parameters' path.
pub record UptimeNode : Type 0 where
  pub staking_answer : HttpAnswer
  pub page_answer : ℕ → HttpAnswer
  pub slashing_answer : String → HttpAnswer
  pub params_answer : HttpAnswer
  -- the list of consumer chains, and the validators of a consumer id, on a provider
  pub chains_answer : HttpAnswer
  pub provider_answer : String → HttpAnswer
  -- the infos from which GetConsumerChainHRP takes a prefix
  pub infos_answer : HttpAnswer

module _ {F : Type 0} (decoders : ApiDecoders) (codecs : UptimeCodecs F) (sort : SortSlice)
    (arrive : Schedule (ValidatorUptimeStatus F))
    (spare : List CosmosStakingValidator → List CosmosStakingValidator) where
  abbrev pub staking_parser : String → String → Result (List CosmosStakingValidator)
  staking_parser chain_name body =
      if chain_name == "initia"
      then initia_staking_validator_parser codecs body
      else (if chain_name == "story"
          then story_staking_validator_parser codecs body
          else cosmos_staking_validator_parser codecs body)

  abbrev pub staking_list : String → HttpAnswer → Result (List CosmosStakingValidator)
  staking_list chain_name (failed e) = err (wrapped "failed in api" e)
  staking_list chain_name (answered code body) =
      if code == status_ok
      then wrap "failed in api" (staking_parser chain_name body)
      else err (message "got %d code from %s")

  -- `spare` is what append or encoding/json leave between the length and the capacity.
  unfoldable pub get_staking_validators :
      HttpAnswer → String → Result (GoSlice CosmosStakingValidator)
  get_staking_validators answer chain_name =
      bind (staking_list chain_name answer) λ l. ok (record { elements = l; spare = spare l })

  abbrev pub common_status : List (ValidatorUptimeStatus F) → F × F → CommonUptimeStatus F
  common_status statuses (window, minimum) = record {
    min_signed_per_window = minimum;
    signed_blocks_window = window;
    validators = statuses;
  }

  unfoldable pub get_uptime_status : UptimeNode → String → Result (CommonUptimeStatus F)
  unfolding get_staking_validators
  get_uptime_status node chain_name = cause (
      bind (get_staking_validators node.staking_answer chain_name) λ staking.
        bind (get_validators decoders node.page_answer) λ validators.
          bind
            (get_validator_uptime_status codecs sort arrive node.slashing_answer chain_name
              validators staking)
            λ statuses.
              bind (get_uptime_params codecs node.params_answer chain_name)
                λ params. ok (common_status statuses params))

  unfoldable pub get_consumer_chain_id : HttpAnswer → Result (List ConsumerChain)
  get_consumer_chain_id answer = bind (uptime_body answer) codecs.consumer_chains

  -- the id of the first chain with this chain id
  unfoldable pub find_consumer_id : String → List ConsumerChain → String
  find_consumer_id chain [] = ""
  find_consumer_id chain (c ∷ l) =
      if c.chain_id == chain then c.consumer_id else find_consumer_id chain l

  -- validation check
  abbrev pub checked_id : String → Result String
  checked_id id =
      if id == ""
      then err (message "failed to find consumer id, check again your chain-id: %s")
      else ok id

  unfoldable pub get_consumer_uptime_status :
      UptimeNode → UptimeNode → String → String → Result (CommonUptimeStatus F)
  unfolding get_consumer_chain_id find_consumer_id
  get_consumer_uptime_status provider consumer chain_name chain =
      bind (wrap "failed to get consumer chain id" (get_consumer_chain_id provider.chains_answer))
        λ chains. bind (checked_id (find_consumer_id chain chains)) λ id. cause (
          bind (get_provider_validators decoders (provider.provider_answer id)) λ validators.
            bind (get_consumer_chain_hrp decoders consumer.infos_answer) λ hrp.
              bind
                (get_consumer_validator_uptime_status codecs arrive consumer.slashing_answer
                  validators hrp)
                λ statuses.
                  bind (get_uptime_params codecs consumer.params_answer chain_name)
                    λ params. ok (common_status statuses params))

  -- GetStatus of router.go
  unfoldable pub get_status :
      String → Bool → UptimeNode → UptimeNode → String → String → Result (CommonUptimeStatus F)
  unfolding get_uptime_status get_consumer_uptime_status
  get_status protocol is_consumer provider node chain_name chain =
      if protocol == "cosmos"
      then (if is_consumer
          then get_consumer_uptime_status provider node chain_name chain
          else get_uptime_status node chain_name)
      else err (message "%s: out of switch case in router")
