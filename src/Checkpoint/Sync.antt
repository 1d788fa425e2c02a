-- ===== src/Checkpoint/Sync.antt =====
-- batchSync of checkpoint/indexer/batch_sync.go. An epoch is a number that is not negative. The
-- node is a parameter (HTTP, internal/common/api and, for the epochs, parser.go on the answers).
pub mod Epochs
pub mod Stores
use cvms.Base.{
  ℕ, ◌+◌, ◌-◌, String, Bool, false, List, [], ◌∷◌, if◌then◌else◌, ltb, Map, Result, ok, err,
  message, wrap, Error, wrapped, Exec, pure, lift, ◌>>=◌, ◌>>◌, range_from, suc,
}
use cvms.Indexer.Types.{CosmosValidator, ValidatorInfo}
use cvms.Indexer.Tables.{Tables, InfoTable}
use cvms.Indexer.Tables.Insert.{InsertText, insert_batch}
use cvms.Indexer.Fetch.{Block, Node}
use cvms.Indexer.Monikers.{World, on_db, filter_for_monikers}
use cvms.Indexer.Validators.{NewAddresses, note_address, note_validators, register_new}
use cvms.Checkpoint.Votes.{
  BlockTxsResponse, CheckpointCodecs, EpochVotes, BabylonVoteExtension,
  extract_babylon_extend_vote_and_block_info, make_babylon_extension_vote,
}

abbrev pub init_epoch_interval : ℕ
init_epoch_interval = 5

-- The repository's index name is the subsystem's.
abbrev pub checkpoint_text : InsertText
checkpoint_text = record {
  index_name = "babylon_checkpoint";
  failed_insert = "failed to insert validator_miss list";
  failed_tx = "failed to exec validator miss in a transaction: %v";
}

pub record EpochNode : Type 0 where
  -- the call, and then the first number of ParseCurrentEpoch
  pub current_epoch : Result (Result ℕ)
  -- the first number of ParseEpoch at an epoch
  pub first_block_height : ℕ → Result ℕ
  pub node : Node
  -- the transactions of a block: the call, and json.Unmarshal
  pub block_txs : ℕ → Result BlockTxsResponse

-- newIndexerPointerEpoch. `persistence` says that RetentionPeriod is PersistenceMode.
unfoldable pub next_epoch : Bool → ℕ → ℕ → ℕ
next_epoch persistence current last =
    if persistence
    then last + 1
    else (if ltb init_epoch_interval (current - (last + 1))
        then current - init_epoch_interval
        else last + 1)

-- for epoch := 0; epoch <= lastFinalizedEpoch; epoch++: the first epoch that is not skipped ends it.
unfoldable pub epoch_loop {ℓ} : {S : Type ℓ} → (ℕ → Exec S ℕ) → ℕ → List ℕ → Exec S ℕ
epoch_loop body new [] w = (err (message "unexpected errors"), w)
epoch_loop body new (epoch ∷ epochs) w =
    let rest = epoch_loop body new epochs w in
    if ltb epoch 1 then rest else (if ltb epoch new then rest else body epoch w)

abbrev pub insert_error : Error → Error
insert_error e = wrapped "failed to insert new hex address list" e

-- isNewValidator and newValidatorAddressMap
abbrev pub new_addresses : Map String ℕ → Block → List CosmosValidator → NewAddresses
new_addresses vim block validators =
    note_validators vim validators (note_address vim block.proposer_address ([], false))

module _ {State : Type 0} (t : Tables State BabylonVoteExtension)
    (infos : InfoTable State ValidatorInfo) (codecs : CheckpointCodecs)
    (make_infos : ℕ → List String → Result (List ValidatorInfo)) (answers : EpochNode) where
  -- the rows that are kept, and the insert
  unfoldable pub store_rows : ℕ → ℕ → List BabylonVoteExtension → Exec (World State) ℕ
  store_rows epoch height rows w =
      (do
        kept ←
            filter_for_monikers infos (λ (i : ValidatorInfo). i.id)
              (λ (v : BabylonVoteExtension). v.validator_hex_address_id) rows
        on_db (insert_batch t checkpoint_text w.indexer.chain_info_id height kept)
        pure epoch)
        w

  -- from the votes of an epoch on
  unfoldable pub store_votes : ℕ → ℕ → EpochVotes → Exec (World State) ℕ
  unfolding store_rows
  store_votes epoch height found w =
      (lift (
            wrap "failed to make babylon vote extension list at %d epoch" (
              make_babylon_extension_vote codecs w.indexer.chain_info_id w.indexer.vim
                found.block_height found.block_timestamp epoch found.votes))
          >>= store_rows epoch height)
        w

  -- the votes of an epoch are in the first block of the next one
  unfoldable pub sync_votes : ℕ → ℕ → Exec (World State) ℕ
  unfolding store_votes
  sync_votes epoch height w =
      (lift (extract_babylon_extend_vote_and_block_info codecs (answers.block_txs height))
          >>= store_votes epoch height)
        w

  unfoldable pub sync_epoch : ℕ → Exec (World State) ℕ
  unfolding sync_votes
  sync_epoch epoch w =
      (do
        height ← lift (wrap "failed to get epoch data" (answers.first_block_height (epoch + 1)))
        block ← lift (answers.node.get_block (height - 1))
        validators ← lift (answers.node.get_validators block.height)
        register_new infos insert_error (make_infos block.height)
            (new_addresses w.indexer.vim block validators)
        sync_votes epoch height)
        w

  unfoldable pub sync_finalized : Bool → ℕ → ℕ → Exec (World State) ℕ
  unfolding sync_epoch epoch_loop
  sync_finalized persistence last current w =
      let new = next_epoch persistence current last in
      if ltb (current - 1) new
      then (ok last, w)
      else epoch_loop sync_epoch new (range_from 0 (suc (current - 1))) w

  unfoldable pub checkpoint_batch_sync : Bool → ℕ → Exec (World State) ℕ
  unfolding sync_finalized
  checkpoint_batch_sync persistence last w =
      (do
        parsed ← lift (wrap "failed to call current epoch api" answers.current_epoch)
        current ← lift (wrap "failed to parse current epoch response" parsed)
        sync_finalized persistence last current)
        w
