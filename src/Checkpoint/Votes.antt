-- ===== src/Checkpoint/Votes.antt =====
-- checkpoint/indexer/parser.go, and makeBabylonExtensionVote of batch_sync.go. encoding/json,
-- encoding/base64 and the flag numbers of cometbft (BlockIDFlag_value) are a parameter.
use cvms.Base.{
  ℕ, String, Option, none, some, List, [], ◌∷◌, if◌then◌else◌, ◌==◌, string_eq, Map, lookup, Result,
  ok, err, panic, message, bind,
}

-- BabylonExtendVote, as far as it is read
pub record BabylonExtendVote : Type 0 where
  pub validator_address : String
  pub extension_signature : String
  pub block_id_flag : String

-- model.BabylonVoteExtension, without the id that the database gives
pub record BabylonVoteExtension : Type 0 where
  pub chain_info_id : ℕ
  pub epoch : ℕ
  pub height : ℕ
  pub timestamp : ℕ
  pub validator_hex_address_id : ℕ
  pub status : ℕ

-- A response that json.Unmarshal has read: the raw messages of each transaction, and the header.
pub record BlockTxsResponse : Type 0 where
  pub txs : List (List String)
  pub header_height : String
  pub header_time : ℕ

pub record CheckpointCodecs : Type 0 where
  -- json.Unmarshal of a message, and of its field "@type": `none` without that field
  pub raw_type : String → Result (Option String)
  -- json.Unmarshal into a MsgInjectedCheckpoint, and the votes of its commit
  pub injected_votes : String → Result (List BabylonExtendVote)
  -- strconv.ParseInt
  pub parse_int : String → Result ℕ
  -- base64.StdEncoding.DecodeString, and then Sprintf("%X", ..)
  pub decode_address : String → Result String
  -- tmtypes.BlockIDFlag_value, with 0 for a missing key
  pub flag_value : String → ℕ

abbrev pub injected_checkpoint : String
injected_checkpoint = "/babylon.checkpointing.v1.MsgInjectedCheckpoint"

-- the results of ExtractBabylonExtendVoteAndBlockInfo
pub record EpochVotes : Type 0 where
  pub block_height : ℕ
  pub block_timestamp : ℕ
  pub votes : List BabylonExtendVote

-- An error of the decoder becomes another error.
abbrev pub or_vote_error {ℓ} : {A : Type ℓ} → Result A → Result A
or_vote_error (ok a) = ok a
or_vote_error (err e) = err (message "failed to make babylon extension vote")
or_vote_error panic = panic

module _ (codecs : CheckpointCodecs) where
  unfoldable pub parse_dynamic_message : String → String → Result (List BabylonExtendVote)
  parse_dynamic_message raw type_url =
      if type_url == injected_checkpoint
      then codecs.injected_votes raw
      else err (message "unknown message type: %s")

  -- the first message with a type
  abbrev pub with_type :
      BlockTxsResponse → String → Option String → Result EpochVotes → Result EpochVotes
  with_type response raw none rest = rest
  with_type response raw (some type_value) rest =
      bind (parse_dynamic_message raw type_value) λ votes.
        bind (codecs.parse_int response.header_height) λ height.
          ok (record {
            block_height = height;
            block_timestamp = response.header_time;
            votes = votes;
          })

  -- the loop over the messages of one transaction, and `rest` behind it
  unfoldable pub scan_messages :
      BlockTxsResponse → List String → Result EpochVotes → Result EpochVotes
  unfolding parse_dynamic_message
  scan_messages response [] rest = rest
  scan_messages response (raw ∷ messages) rest =
      bind (codecs.raw_type raw)
        λ type_value. with_type response raw type_value (scan_messages response messages rest)

  unfoldable pub scan_txs : BlockTxsResponse → List (List String) → Result EpochVotes
  unfolding scan_messages
  scan_txs response [] = err (message "unexpected errors")
  scan_txs response (messages ∷ txs) = scan_messages response messages (scan_txs response txs)

  unfoldable pub extract_babylon_extend_vote_and_block_info :
      Result BlockTxsResponse → Result EpochVotes
  unfolding scan_txs
  extract_babylon_extend_vote_and_block_info answer =
      bind answer λ response. scan_txs response response.txs

  abbrev pub vote_row : ℕ → ℕ → ℕ → ℕ → BabylonExtendVote → ℕ → BabylonVoteExtension
  vote_row chain_info_id height timestamp epoch vote id = record {
    chain_info_id = chain_info_id;
    epoch = epoch;
    height = height;
    timestamp = timestamp;
    validator_hex_address_id = id;
    status = codecs.flag_value vote.block_id_flag;
  }

  unfoldable pub make_babylon_extension_vote :
      ℕ → Map String ℕ → ℕ → ℕ → ℕ → List BabylonExtendVote → Result (List BabylonVoteExtension)
  make_babylon_extension_vote chain_info_id vim height timestamp epoch [] = ok []
  make_babylon_extension_vote chain_info_id vim height timestamp epoch (vote ∷ votes) =
      bind (or_vote_error (codecs.decode_address vote.validator_address)) λ address.
        elim (lookup address vim) [
          | none ↦
              err (message "failed to find missed validators hex address id in validator id maps")
          | some id ↦
              bind (make_babylon_extension_vote chain_info_id vim height timestamp epoch votes)
                λ rows. ok (vote_row chain_info_id height timestamp epoch vote id ∷ rows)
        ]
