-- ===== src/NodeApi/Parser.antt =====
-- internal/common/parser/cosmos.go. encoding/json, strconv and encoding/base64 are a parameter: a
-- response is a text, and what json.Unmarshal makes of it as each type is an answer of the decoders.
pub mod Versions
use cvms.Base.{
  ℕ, String, Bool, true, false, List, [], ◌∷◌, ◌++◌, map, if◌then◌else◌, ◌==◌, string_eq, Result,
  ok, err, panic, message, wrap, bind, concat_map,
}
use cvms.Indexer.Types.{Signature, CosmosValidator}
use cvms.Indexer.Fetch.{Block}
use cvms.LightClient.Events.{Attribute, BlockEvent}

-- types.CosmosBlock, as far as it is read
pub record CosmosBlock : Type 0 where
  pub header_height : String
  pub header_time : ℕ
  pub header_proposer_address : String
  pub data_txs : List String
  pub last_commit_height : String
  pub last_commit_signatures : List Signature

-- types.CosmosStatus, likewise
pub record CosmosStatus : Type 0 where
  pub latest_block_height : String
  pub latest_block_time : ℕ

-- types.CosmosValidators
pub record CosmosValidators : Type 0 where
  pub validators : List CosmosValidator
  pub total : String

-- types.CosmosUpgradeResponse
pub record UpgradePlan : Type 0 where
  pub plan_name : String
  pub plan_height : String

-- types.CosmosBlockResultResponse, but its consensus parameters
pub record BlockResults : Type 0 where
  pub txs_results : List (List BlockEvent)
  pub begin_block_events : List BlockEvent
  pub end_block_events : List BlockEvent
  pub finalize_block_events : List BlockEvent

pub record Decoders : Type 0 where
  -- whether "jsonrpc" is a string in the response as a map
  pub has_jsonrpc : String → Result Bool
  pub block_v34 : String → Result CosmosBlock
  pub block_v37 : String → Result CosmosBlock
  pub status_v34 : String → Result CosmosStatus
  pub status_v37 : String → Result CosmosStatus
  pub validators_v34 : String → Result CosmosValidators
  pub validators_v37 : String → Result CosmosValidators
  pub upgrade_plan : String → Result UpgradePlan
  pub block_results : String → Result BlockResults
  -- strconv.ParseInt, of a number that is not negative
  pub parse_int : String → Result ℕ
  -- base64.StdEncoding
  pub decode_base64 : String → Result String
  pub encode_base64 : String → String

module _ (d : Decoders) where
  -- the branch for v0.34, behind json.Unmarshal
  abbrev pub read_block_v34 : CosmosBlock → Result Block
  read_block_v34 b = bind (d.parse_int b.header_height) λ height.
      bind (d.parse_int b.last_commit_height) λ last_commit_height. ok (record {
        height = height;
        timestamp = b.header_time;
        proposer_address = b.header_proposer_address;
        txs = b.data_txs;
        last_commit_height = last_commit_height;
        signatures = b.last_commit_signatures;
      })

  -- the branch for v0.37, likewise
  abbrev pub read_block_v37 : CosmosBlock → Result Block
  read_block_v37 b = bind (d.parse_int b.header_height) λ height.
      bind (d.parse_int b.last_commit_height) λ last_commit_height. ok (record {
        height = height;
        timestamp = b.header_time;
        proposer_address = b.header_proposer_address;
        txs = b.data_txs;
        last_commit_height = last_commit_height;
        signatures = b.last_commit_signatures;
      })

  unfoldable pub cosmos_block_parser : String → Result Block
  cosmos_block_parser resp = bind (d.has_jsonrpc resp) λ is_v34.
      if is_v34
      then bind (d.block_v34 resp) read_block_v34
      else bind (d.block_v37 resp) read_block_v37

  -- the latest height and its time: the branch for v0.34, behind json.Unmarshal
  abbrev pub read_status_v34 : CosmosStatus → Result (ℕ × ℕ)
  read_status_v34 s =
      bind
        (wrap "failed to convert from stirng to float in parser"
          (d.parse_int s.latest_block_height))
        λ height. ok (height, s.latest_block_time)

  -- the branch for v0.37, likewise
  abbrev pub read_status_v37 : CosmosStatus → Result (ℕ × ℕ)
  read_status_v37 s =
      bind
        (wrap "failed to convert from stirng to float in parser"
          (d.parse_int s.latest_block_height))
        λ height. ok (height, s.latest_block_time)

  unfoldable pub cosmos_status_parser : String → Result (ℕ × ℕ)
  cosmos_status_parser resp =
      bind (wrap "failed to unmarshal json in parser" (d.has_jsonrpc resp)) λ is_v34.
        if is_v34
        then bind (wrap "failed to unmarshal json in parser" (d.status_v34 resp)) read_status_v34
        else bind (wrap "failed to unmarshal json in parser" (d.status_v37 resp)) read_status_v37

  -- the validators, and how many there are in all
  abbrev pub read_validators : CosmosValidators → Result (List CosmosValidator × ℕ)
  read_validators v = bind (d.parse_int v.total) λ total. ok (v.validators, total)

  abbrev pub or_v37 : String → CosmosValidators → Result (List CosmosValidator × ℕ)
  or_v37 resp v = elim v.validators [
    | [] ↦ bind (d.validators_v37 resp) read_validators
    | _ ∷ _ ↦ read_validators v
  ]

  unfoldable pub cosmos_validator_parser : String → Result (List CosmosValidator × ℕ)
  cosmos_validator_parser resp = bind (d.validators_v34 resp) (or_v37 resp)

  abbrev pub read_plan : UpgradePlan → Result (ℕ × String)
  read_plan p = if p.plan_height == "" then ok (0, "") else elim (d.parse_int p.plan_height) [
    | ok height ↦ ok (height, p.plan_name)
    | err e ↦ err (message "converting error: %s")
    | panic ↦ panic
  ]

  unfoldable pub cosmos_upgrade_parser : String → Result (ℕ × String)
  cosmos_upgrade_parser resp = elim (d.upgrade_plan resp) [
    | ok p ↦ read_plan p
    | err e ↦ err (message "parsing error: %s")
    | panic ↦ panic
  ]

  unfoldable pub decode_base64_if_possible : String → String
  decode_base64_if_possible text = if text == "" then text else elim (d.decode_base64 text) [
    | ok decoded ↦ if d.encode_base64 decoded == text then decoded else text
    | err e ↦ text
    | panic ↦ text
  ]

  unfoldable pub decode_attributes : List Attribute → List Attribute
  unfolding decode_base64_if_possible
  decode_attributes attributes =
      map
        (λ a. record {
          key = decode_base64_if_possible a.key;
          value = decode_base64_if_possible a.value;
        })
        attributes

  unfoldable pub decode_events : List BlockEvent → List BlockEvent
  unfolding decode_attributes
  decode_events events =
      map (λ e. record { type_name = e.type_name; attributes = decode_attributes e.attributes })
        events

  -- the events of the transactions, and those of the block
  abbrev pub split_events : BlockResults → Result (List BlockEvent × List BlockEvent)
  split_events r = ok (
    decode_events (concat_map (λ events. events) r.txs_results),
    decode_events (r.begin_block_events ++ r.end_block_events ++ r.finalize_block_events),
  )

  unfoldable pub cosmos_block_results_parser : String → Result (List BlockEvent × List BlockEvent)
  unfolding decode_events
  cosmos_block_results_parser resp = bind (d.has_jsonrpc resp) λ known.
      if known
      then bind (d.block_results resp) split_events
      else err (message "unexpected response data in block results")
