-- ===== src/Extension/Votes.antt =====
-- makeValidatorExtensionList of veindexer/indexer/batch_sync.go, and one height of its batch.
use cvms.Base.{
  ltb, ℕ, String, Option, none, some, List, [], ◌∷◌, if◌then◌else◌, ◌==◌, nat_eq, string_eq, length,
  Map, lookup, Result, ok, err, panic, message, wrap, bind,
}
use cvms.Indexer.Types.{BlockSummary}
use cvms.Extension.Codec.{VoteExtension, Packages, decoding_vote_extension_tx}
use cvms.Vote.Votes.{Voting, no_validator_id}

-- model.ValidatorExtensionVote, without the id that the database gives
pub record ValidatorExtensionVote : Type 0 where
  pub chain_info_id : ℕ
  pub height : ℕ
  pub validator_hex_address_id : ℕ
  pub status : ℕ
  pub ve_length : ℕ
  pub timestamp : ℕ

abbrev pub extension_with : Voting → ℕ → VoteExtension → ValidatorExtensionVote
extension_with v id ve = record {
  chain_info_id = v.chain_info_id;
  height = v.last_height;
  validator_hex_address_id = id;
  status = ve.block_commit_flag;
  ve_length = length ve.vote_extension;
  timestamp = v.last_timestamp;
}

-- one round of the loop over the extensions; its two branches, without and with a signature, store
-- the same row
unfoldable pub extension_of :
    Voting → Map String ℕ → VoteExtension → Option (List ℕ) → Result ValidatorExtensionVote
extension_of v vim ve none = elim (lookup ve.address vim) [
  | none ↦ err (message no_validator_id)
  | some id ↦ ok (extension_with v id ve)
]
extension_of v vim ve (some signature) = elim (lookup ve.address vim) [
  | none ↦ err (message no_validator_id)
  | some id ↦ ok (extension_with v id ve)
]

unfoldable pub extensions_of :
    Voting → Map String ℕ → List VoteExtension → Result (List ValidatorExtensionVote)
unfolding extension_of
extensions_of v vim [] = ok []
extensions_of v vim (ve ∷ ves) =
    bind (extension_of v vim ve ve.signature)
      λ row. bind (extensions_of v vim ves) λ rows. ok (row ∷ rows)

-- `blockTxs[0]` panics on an empty block.
unfoldable pub make_validator_extension_list :
    Packages → ℕ → Map String ℕ → ℕ → ℕ → List String → Result (List ValidatorExtensionVote)
unfolding extensions_of
make_validator_extension_list p chain_info_id vim height timestamp [] = panic
make_validator_extension_list p chain_info_id vim height timestamp (tx ∷ txs) =
    bind (wrap "failed to decode vote extension from txs[0]" (decoding_vote_extension_tx p tx))
      λ ves.
        extensions_of
          (record {
            chain_info_id = chain_info_id;
            last_height = height;
            last_timestamp = timestamp;
          })
          vim ves

-- One height of the batch: the block has the extended commit of the one before it.
unfoldable pub pair_extensions :
    Packages → ℕ → Map String ℕ → BlockSummary → BlockSummary → Result (List ValidatorExtensionVote)
unfolding make_validator_extension_list
pair_extensions p chain_info_id vim last now =
    if now.last_commit_block_height == last.block_height
    then (if ltb (length now.txs) 1
        then err (message "VE should be a first tx, but there is no txs in the block at %d height")
        else wrap "failed to make temp validator extension list at %d height" (
            make_validator_extension_list p chain_info_id vim last.block_height last.block_timestamp
              now.txs))
    else panic
