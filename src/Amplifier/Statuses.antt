-- ===== src/Amplifier/Statuses.antt =====
-- amplifier-verifier/model/model.go.
use cvms.Base.{ℕ, ◌≡◌, refl, String, if◌then◌else◌, ◌==◌, string_eq}

pub data VerifierVoteStatus : Type 0 where
  poll_start failed_on_chain not_found succeeded_on_chain : VerifierVoteStatus

-- model.AxelarAmplifierVerifierVote, without the id and the time of creation
pub record AmplifierVote : Type 0 where
  pub chain_info_id : ℕ
  pub chain_and_poll_id : String
  pub poll_start_height : ℕ
  pub poll_vote_height : ℕ
  pub verifier_id : ℕ
  pub status : VerifierVoteStatus

unfoldable pub string_to_poll_vote : String → VerifierVoteStatus
string_to_poll_vote str =
    if str == "failed_on_chain"
    then failed_on_chain
    else (if str == "not_found"
        then not_found
        else (if str == "succeeded_on_chain" then succeeded_on_chain else poll_start))

unfoldable pub status_to_string : VerifierVoteStatus → String
status_to_string poll_start = "did_not_vote"
status_to_string failed_on_chain = "failed_on_chain"
status_to_string not_found = "not_found"
status_to_string succeeded_on_chain = "succeeded_on_chain"

-- Each of the four statuses is read back from what it is written as.
pub string_to_poll_vote-status_to_string :
    (s : VerifierVoteStatus) → string_to_poll_vote (status_to_string s) ≡ s
unfolding string_to_poll_vote status_to_string
string_to_poll_vote-status_to_string poll_start = refl
string_to_poll_vote-status_to_string failed_on_chain = refl
string_to_poll_vote-status_to_string not_found = refl
string_to_poll_vote-status_to_string succeeded_on_chain = refl
