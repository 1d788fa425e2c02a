-- ===== src/Examples/CheckpointRuns.antt =====
-- An epoch of the checkpoint indexer with two votes.
use cvms.Base.{
  ℕ, ◌<◌, ◌≡◌, refl, true, false, none, some, List, [], ◌∷◌, if◌then◌else◌, ◌==◌, nat_eq, string_eq,
  put, exist, lookup, lookup-nil, Result, ok, wrap, lift, ◌>>=◌, length,
}
use cvms.Base.Post.{Ends}
use cvms.Indexer.Tables.{SameTables}
use cvms.Indexer.Tables.Insert.{insert_batch}
use cvms.Indexer.Monikers.{World, filter_for_monikers}
use cvms.Indexer.Validators.{register_new, note_validators}
use cvms.Checkpoint.Votes.{
  BabylonExtendVote, BabylonVoteExtension, CheckpointCodecs, EpochVotes, injected_checkpoint,
  extract_babylon_extend_vote_and_block_info, make_babylon_extension_vote,
}
use cvms.Checkpoint.Sync.{EpochNode, next_epoch, sync_epoch, checkpoint_batch_sync}
use cvms.Checkpoint.Sync.Epochs.{NewEpoch, next_epoch_bounds, sync_next, checkpoint_batch_direct}
use cvms.Checkpoint.Sync.Stores.{EpochStored, sync_epoch_exact}
use cvms.Examples.Database.{
  Db, db_tables, db_laws, toy_infos, toy-InfoLaws, toy_id, toy_lists, toy_make_infos, good_node,
}
use cvms.Examples.VoteRuns.{toy_db, toy_indexer}

abbrev toy_votes : List BabylonExtendVote
toy_votes =
    record { validator_address = "A"; extension_signature = "s"; block_id_flag = "commit" }
    ∷ record { validator_address = "B"; extension_signature = ""; block_id_flag = "absent" }
    ∷ []

abbrev checkpoint_codecs : CheckpointCodecs
checkpoint_codecs = record {
  raw_type = λ raw. if raw == "bare" then ok none else ok (some injected_checkpoint);
  injected_votes = λ raw. ok toy_votes;
  parse_int = λ text. ok 721;
  decode_address = λ a. ok a;
  flag_value = λ f. if f == "commit" then 2 else 1;
}

-- the 8th epoch starts at height 721, and the 9th is the current one
abbrev toy_epochs : EpochNode
toy_epochs = record {
  current_epoch = ok (ok 9);
  first_block_height = λ e. ok 721;
  node = good_node;
  block_txs = λ h. ok (record {
    txs = ("bare" ∷ []) ∷ ("checkpoint" ∷ []) ∷ [];
    header_height = "721";
    header_time = 50;
  });
}

abbrev checkpoint_world : World (Db BabylonVoteExtension)
checkpoint_world = record { indexer = toy_indexer []; db = toy_db "babylon_checkpoint" }

abbrev found_votes : EpochVotes
found_votes = record { block_height = 721; block_timestamp = 50; votes = toy_votes }

toy_votes_found :
    extract_babylon_extend_vote_and_block_info checkpoint_codecs (toy_epochs.block_txs 721)
    ≡ ok found_votes
unfolding extract_babylon_extend_vote_and_block_info
toy_votes_found = refl

sync_epoch_exact_example :
    Ends
      (EpochStored db_tables toy_infos db_laws toy-InfoLaws toy_id toy_lists checkpoint_codecs
        (λ h. toy_make_infos)
        toy_epochs
        7
        721
        found_votes
        checkpoint_world)
      (λ w'. SameTables db_tables checkpoint_world.db w'.db)
      (sync_epoch db_tables toy_infos checkpoint_codecs (λ h. toy_make_infos) toy_epochs 7)
      checkpoint_world
sync_epoch_exact_example =
    sync_epoch_exact db_tables toy_infos db_laws toy-InfoLaws toy_id toy_lists checkpoint_codecs
      (λ h. toy_make_infos) toy_epochs 7 721 found_votes checkpoint_world refl toy_votes_found
      (λ a i e. lookup-nil a e) refl

next_epoch_bounds_example :
    (3 < next_epoch false 20 3) × NewEpoch 20 3 false (next_epoch false 20 3)
next_epoch_bounds_example = next_epoch_bounds false 20 3

checkpoint_batch_direct_example :
    checkpoint_batch_sync db_tables toy_infos checkpoint_codecs
      (λ h. toy_make_infos)
      toy_epochs
      true
      6
      checkpoint_world
    ≡ (lift (wrap "failed to call current epoch api" (ok (ok 9))) >>= λ parsed.
          lift (wrap "failed to parse current epoch response" parsed)
          >>= sync_next db_tables toy_infos checkpoint_codecs
              (λ h. toy_make_infos)
              toy_epochs
              true
              6)
        checkpoint_world
checkpoint_batch_direct_example =
    checkpoint_batch_direct db_tables toy_infos checkpoint_codecs (λ h. toy_make_infos) toy_epochs
      true 6 checkpoint_world

abbrev after_epoch : Result ℕ × World (Db BabylonVoteExtension)
after_epoch =
    checkpoint_batch_sync db_tables toy_infos checkpoint_codecs (λ h. toy_make_infos) toy_epochs
      true 6 checkpoint_world

after_epoch_rows : (after_epoch.0 ≡ ok 7) × (length after_epoch.1.db.stored ≡ 2)
unfolding checkpoint_batch_sync register_new put exist lookup
    extract_babylon_extend_vote_and_block_info make_babylon_extension_vote filter_for_monikers
    insert_batch next_epoch note_validators
after_epoch_rows = (refl, refl)
