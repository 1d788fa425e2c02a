-- ===== src/Vote/Votes.antt =====
-- makeValidatorVoteList of voteindexer/indexer/batch_sync.go, and the loop over a batch.
use cvms.Base.{
  ℕ, String, Option, none, some, List, [], ◌∷◌, if◌then◌else◌, ◌==◌, nat_eq, string_eq, Map, lookup,
  Result, ok, err, panic, message, wrap, bind,
}
use cvms.Indexer.Types.{Signature, CosmosValidator, BlockSummary}

-- model.VoteStatus
pub data VoteStatus : Type 0 where
  missed voted proposed : VoteStatus

-- model.ValidatorVote, without the id that the database gives
pub record ValidatorVote : Type 0 where
  pub chain_info_id : ℕ
  pub height : ℕ
  pub validator_hex_address_id : ℕ
  pub status : VoteStatus
  pub timestamp : ℕ

abbrev pub no_validator_id : String
no_validator_id = "failed to find missed validators hex address id in validator id maps"

abbrev pub no_proposer_id : String
no_proposer_id = "failed to find block proposer hex address id in validator id maps"

-- The block that the signatures are about, and the chain.
pub record Voting : Type 0 where
  pub chain_info_id : ℕ
  pub last_height : ℕ
  pub last_timestamp : ℕ

abbrev pub vote_with : Voting → ℕ → VoteStatus → ValidatorVote
vote_with v id status = record {
  chain_info_id = v.chain_info_id;
  height = v.last_height;
  validator_hex_address_id = id;
  status = status;
  timestamp = v.last_timestamp;
}

-- one round of the loop over the validators; `proposer` is the proposer's id
unfoldable pub vote_of :
    Voting → Map String ℕ → ℕ → CosmosValidator → Option String → Result ValidatorVote
vote_of v vim proposer validator none = elim (lookup validator.address vim) [
  | none ↦ err (message no_validator_id)
  | some id ↦ ok (vote_with v id missed)
]
vote_of v vim proposer validator (some signature) = elim (lookup validator.address vim) [
  | none ↦ err (message no_validator_id)
  | some id ↦ if proposer == id then ok (vote_with v id proposed) else ok (vote_with v id voted)
]

-- `blockSignatures[idx]` panics out of range.
unfoldable pub votes_of :
    Voting → Map String ℕ → ℕ → List CosmosValidator → List Signature → Result (List ValidatorVote)
unfolding vote_of
votes_of v vim proposer [] signatures = ok []
votes_of v vim proposer (validator ∷ validators) [] = panic
votes_of v vim proposer (validator ∷ validators) (s ∷ signatures) =
    bind (vote_of v vim proposer validator s.signature)
      λ vote. bind (votes_of v vim proposer validators signatures) λ votes. ok (vote ∷ votes)

unfoldable pub make_validator_vote_list :
    ℕ
    → Map String ℕ
    → ℕ
    → ℕ
    → String
    → List CosmosValidator
    → List Signature
    → Result (List ValidatorVote)
unfolding votes_of
make_validator_vote_list chain_info_id vim height timestamp proposer validators signatures =
    elim (lookup proposer vim) [
      | none ↦ err (message no_proposer_id)
      | some id ↦
          votes_of
            (record {
              chain_info_id = chain_info_id;
              last_height = height;
              last_timestamp = timestamp;
            })
            vim id validators signatures
    ]

-- One height of the batch: its last commit is about the block before it.
unfoldable pub pair_votes :
    ℕ → Map String ℕ → BlockSummary → BlockSummary → Result (List ValidatorVote)
unfolding make_validator_vote_list
pair_votes chain_info_id vim last now =
    if now.last_commit_block_height == last.block_height
    then wrap "failed to make temp validator miss list at %d height" (
        make_validator_vote_list chain_info_id vim last.block_height last.block_timestamp
          last.block_proposer_address last.cosmos_validators now.block_signatures)
    else panic
