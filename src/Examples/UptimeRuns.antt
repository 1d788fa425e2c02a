-- ===== src/Examples/UptimeRuns.antt =====
-- The uptime exporter on a small chain, whose floats are natural numbers.
use mathlib.Core.List.{Permᴰ}
use cvms.Base.{
  ℕ, ◌≡◌, refl, inl, inr, String, List, [], ◌∷◌, if◌then◌else◌, ◌==◌, string_eq, nat_eq, ok, err,
  panic, message, arith, lookup, put,
}
use cvms.Indexer.Types.{CosmosValidator}
use cvms.NodeApi.Calls.{HttpAnswer, answered, failed, ProviderValidator}
use cvms.Uptime.{
  CosmosStakingValidator, ValidatorUptimeStatus, story_staking_validator_parser,
  cosmos_slashing_parser,
}
use cvms.Uptime.Statuses.{
  more_tokens, GoSlice, make_key_maps, get_validator_uptime_status, KeyMaps,
  get_consumer_validator_uptime_status, failed_http_request, valcons_prefix, consumer_uptime_of,
}
use cvms.Uptime.Statuses.Slices.{Descending}
use cvms.Uptime.Statuses.Exact.{
  StatusesOf, get_validator_uptime_status_exact, get_validator_uptime_status_panics,
  one_failure_fails_all,
}
use cvms.Uptime.Statuses.Keys.{Holds, last_with_key, make_key_maps_last}
use cvms.Uptime.Statuses.Untokened.{of_a_story, untokened_any_order}
use cvms.Examples.Database.{in_order, in_order-Delivers}
use cvms.Examples.UptimeChain.{
  staking_of, toy_codecs, insertion_sort, insertion_sort-Sorts, toy_codecs-Reports,
}

abbrev consensus_of : String → String → String → CosmosValidator
consensus_of address key power = record {
  address = address;
  pubkey_type = "ed25519";
  pubkey_value = key;
  voting_power = power;
  proposer_priority = "0";
}

abbrev two_validators : List CosmosValidator
two_validators = consensus_of "AA" "K1" "10" ∷ consensus_of "BB" "K2" "20" ∷ []

abbrev three_staking : GoSlice CosmosStakingValidator
three_staking = record {
  elements = staking_of "o3" "K3" "1" ∷ staking_of "o1" "K1" "10" ∷ staking_of "o2" "K2" "20" ∷ [];
  spare = [];
}

abbrev one_staking : GoSlice CosmosStakingValidator
one_staking = record { elements = staking_of "o1" "K1" "10" ∷ []; spare = [] }

abbrev all_answer : String → HttpAnswer
all_answer address = answered 200 "{}"

abbrev status_of : String → String → String → ℕ → ValidatorUptimeStatus ℕ
status_of operator key address power = record {
  status_moniker = operator;
  proposer_address = key;
  validator_operator_address = operator;
  validator_consensus_address = address;
  missed_block_counter = 20;
  voting_power = power;
  is_tomstoned = 1;
  consumer_consensus_address = "";
}

-- the two with the most tokens
abbrev two_statuses : List (ValidatorUptimeStatus ℕ)
two_statuses = status_of "o2" "K2" "BB" 20 ∷ status_of "o1" "K1" "AA" 10 ∷ []

two_found :
    get_validator_uptime_status toy_codecs insertion_sort in_order all_answer "cosmos"
      two_validators three_staking
    ≡ ok two_statuses
unfolding get_validator_uptime_status cosmos_slashing_parser more_tokens lookup put
two_found = refl

get_validator_uptime_status_exact_example :
    StatusesOf toy_codecs all_answer "cosmos" two_validators three_staking.elements two_statuses
get_validator_uptime_status_exact_example =
    get_validator_uptime_status_exact toy_codecs insertion_sort insertion_sort-Sorts in_order
      all_answer "cosmos" two_validators three_staking toy_codecs-Reports in_order-Delivers
      (omega arith) two_statuses two_found

abbrev two_maps : KeyMaps toy_codecs
two_maps = (("K1", "AA") ∷ ("K2", "BB") ∷ [], ("K1", 10) ∷ ("K2", 20) ∷ [])

two_maps_made : make_key_maps toy_codecs "cosmosvalcons" two_validators ([], []) ≡ ok two_maps
unfolding make_key_maps put
two_maps_made = refl

one_prefix : valcons_prefix toy_codecs one_staking.elements ≡ ok "cosmosvalcons"
unfolding valcons_prefix
one_prefix = refl

-- one staking validator for two consensus validators
get_validator_uptime_status_panics_example :
    get_validator_uptime_status toy_codecs insertion_sort in_order all_answer "cosmos"
      two_validators one_staking
    ≡ panic
get_validator_uptime_status_panics_example =
    get_validator_uptime_status_panics toy_codecs insertion_sort insertion_sort-Sorts in_order
      all_answer "cosmos" two_validators one_staking "cosmosvalcons" two_maps one_prefix
      two_maps_made (omega arith)

make_key_maps_last_example :
    Holds toy_codecs "cosmosvalcons" "K2" ([], []) two_maps (last_with_key "K2" two_validators)
make_key_maps_last_example =
    make_key_maps_last toy_codecs "cosmosvalcons" "K2" two_validators two_maps two_maps_made

abbrev provider_of : String → ProviderValidator
provider_of key = record {
  provider_valcons_address = key;
  consumer_pubkey = key;
  provider_moniker = key;
  provider_valoper_address = key;
}

abbrev two_providers : List ProviderValidator
two_providers = provider_of "P1" ∷ provider_of "P2" ∷ []

abbrev second_fails : String → HttpAnswer
second_fails key = if key == "P2" then failed (message "timeout") else answered 200 "{}"

second_failed :
    consumer_uptime_of toy_codecs second_fails "cosmosvalcons" (provider_of "P2")
    ≡ err (message "timeout")
unfolding consumer_uptime_of
second_failed = refl

one_failure_fails_all_example :
    get_consumer_validator_uptime_status toy_codecs in_order second_fails two_providers
      "cosmosvalcons"
    ≡ err failed_http_request
one_failure_fails_all_example =
    one_failure_fails_all toy_codecs in_order second_fails two_providers "cosmosvalcons"
      (provider_of "P2") (message "timeout") in_order-Delivers (inr (inl refl)) second_failed

abbrev story_staking : List CosmosStakingValidator
story_staking = staking_of "story1" "K1" "" ∷ staking_of "story2" "K2" "" ∷ []

story_parsed : story_staking_validator_parser toy_codecs "{}" ≡ ok story_staking
unfolding story_staking_validator_parser
story_parsed = refl

untokened_any_order_example :
    Descending toy_codecs (staking_of "story2" "K2" "" ∷ staking_of "story1" "K1" "" ∷ [])
untokened_any_order_example =
    untokened_any_order toy_codecs "{}" story_staking _ (of_a_story story_parsed)
      (Permᴰ.swap refl refl)
