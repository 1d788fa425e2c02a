-- ===== src/FinalityProvider/Votes.antt =====
-- What a goroutine of finality-provider/indexer/batch_sync.go fetches for one height, and
-- makeBabylonFinalityProviderVoteList. The node is a parameter (internal/common/api/babylon.go).
use cvms.Base.{
  ℕ, String, none, some, List, [], ◌∷◌, Map, put, lookup, string_eq, Result, ok, err, panic,
  message, bind,
}
use cvms.Indexer.Fetch.{FetchResult, success, failure}

abbrev pub FpVoteMap : Type 0
FpVoteMap = Map String ℕ

pub record FinalityVoteSummary : Type 0 where
  pub block_height : ℕ
  pub finality_provider_votes : FpVoteMap

-- model.BabylonFinalityProviderVote, without the id that the database gives
pub record BabylonFinalityProviderVote : Type 0 where
  pub chain_info_id : ℕ
  pub height : ℕ
  pub finality_provider_pk_id : ℕ
  pub status : ℕ
  pub created_time : ℕ

-- BTC public keys, in hex: of the active providers at a height, and of those who voted for it
pub record FpNode : Type 0 where
  pub get_active_finality_provider_by_height : ℕ → Result (List String)
  pub get_finality_votes_by_height : ℕ → Result (List String)

-- fpVoteMap[pk] = status, for each
unfoldable pub mark : ℕ → List String → FpVoteMap → FpVoteMap
mark status [] votes = votes
mark status (pk ∷ pks) votes = mark status pks (put pk status votes)

-- 0 for each active provider, then 1 for each that voted
unfoldable pub vote_map : List String → List String → FpVoteMap
unfolding mark
vote_map fps btc_pks = mark 1 btc_pks (mark 0 fps [])

-- What is sent once both calls have answered: without a vote a failure, and then the summary too.
unfoldable pub sent_votes : ℕ → List String → List String → List (FetchResult FinalityVoteSummary)
unfolding vote_map
sent_votes height fps [] =
    failure
    ∷ success (record { block_height = height; finality_provider_votes = vote_map fps [] })
    ∷ []
sent_votes height fps (pk ∷ btc_pks) =
    success
      (record { block_height = height; finality_provider_votes = vote_map fps (pk ∷ btc_pks) })
    ∷ []

-- An error of a call sends a failure; a panic is recovered before anything is sent.
abbrev pub or_failure {ℓ} :
    {A : Type 0} {Item : Type ℓ}
    → Result A
    → (A → List (FetchResult Item))
    → List (FetchResult Item)
or_failure (ok a) f = f a
or_failure (err e) f = failure ∷ []
or_failure panic f = []

unfoldable pub fetch_votes : FpNode → ℕ → List (FetchResult FinalityVoteSummary)
unfolding sent_votes
fetch_votes node height = or_failure (node.get_active_finality_provider_by_height height) λ fps.
    or_failure (node.get_finality_votes_by_height height) λ btc_pks. sent_votes height fps btc_pks

-- the range over the map of one height's votes
unfoldable pub make_babylon_finality_provider_vote_list :
    ℕ → Map String ℕ → ℕ → ℕ → FpVoteMap → Result (List BabylonFinalityProviderVote)
make_babylon_finality_provider_vote_list chain_info_id vim now height [] = ok []
make_babylon_finality_provider_vote_list chain_info_id vim now height ((pk, status) ∷ votes) =
    let rest = make_babylon_finality_provider_vote_list chain_info_id vim now height votes in
    elim (lookup pk vim) [
      | none ↦ err (message "failed %s's id in validatorIDMap")
      | some id ↦ bind rest λ rows. ok (
          record {
            chain_info_id = chain_info_id;
            height = height;
            finality_provider_pk_id = id;
            status = status;
            created_time = now;
          }
          ∷ rows)
    ]
