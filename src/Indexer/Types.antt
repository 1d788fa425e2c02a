-- ===== src/Indexer/Types.antt =====
-- internal/common/indexer.go, internal/common/types/cosmos.go,
-- internal/common/indexer/types/types.go and internal/common/indexer/model/meta.go.
-- Heights, ids and times are numbers that are not negative; a time is in seconds.
use cvms.Base.{ℕ, String, Bool, Option, List, [], Map}

-- BatchSyncLimit
abbrev pub batch_sync_limit : ℕ
batch_sync_limit = 10

-- types.Signature; a null signature is `none`.
pub record Signature : Type 0 where
  pub block_id_flag : ℕ
  pub validator_address : String
  pub timestamp : ℕ
  pub signature : Option String

-- types.CosmosValidator; the two fields of its public key stand side by side.
pub record CosmosValidator : Type 0 where
  pub address : String
  pub pubkey_type : String
  pub pubkey_value : String
  pub voting_power : String
  pub proposer_priority : String

-- types.BlockSummary
pub record BlockSummary : Type 0 where
  pub block_height : ℕ
  pub block_timestamp : ℕ
  pub block_proposer_address : String
  pub txs : List String
  pub last_commit_block_height : ℕ
  pub block_signatures : List Signature
  pub cosmos_validators : List CosmosValidator

-- What a Go map of summaries gives for a missing height.
abbrev pub zero_summary : BlockSummary
zero_summary = record {
  block_height = 0;
  block_timestamp = 0;
  block_proposer_address = "";
  txs = [];
  last_commit_block_height = 0;
  block_signatures = [];
  cosmos_validators = [];
}

-- model.ValidatorInfo
pub record ValidatorInfo : Type 0 where
  pub id : ℕ
  pub chain_info_id : ℕ
  pub hex_address : String
  pub operator_address : String
  pub moniker : String

-- Lh.LatestHeight as one batch reads it, three times over, while another goroutine writes it.
pub record Latest : Type 0 where
  pub at_guard : ℕ
  pub at_end : ℕ
  pub at_limit : ℕ

-- common.Indexer: the fields that the sync of a batch reads or writes, but Lh.
pub record Indexer : Type 0 where
  pub chain_name : String
  pub chain_id : String
  pub chain_info_id : ℕ
  pub is_consumer : Bool
  pub monikers : List String
  pub moniker_id_map : Map ℕ Bool
  pub vim : Map String ℕ
