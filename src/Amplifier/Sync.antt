-- ===== src/Amplifier/Sync.antt =====
-- batchSync of amplifier-verifier/indexer/sync.go. The map of addresses by id (VAM), which only the
-- metrics read, is left out.
pub mod Batch
pub mod Points
use cvms.Base.{
  ℕ, ◌+◌, ◌-◌, String, Option, none, some, List, [], ◌∷◌, ◌++◌, map, if◌then◌else◌, ltb, nat_eq,
  string_eq, Map, put, lookup, Result, ok, err, message, bind, concat_map,
}
use cvms.Indexer.Types.{batch_sync_limit}
use cvms.Indexer.Fetch.{FetchResult, sent}
use cvms.Indexer.Validators.{NewAddresses, note_address}
use cvms.LightClient.Events.{BlockEvent}
use cvms.Amplifier.Statuses.{AmplifierVote, poll_start, string_to_poll_vote}
use cvms.Amplifier.Polls.{
  Poll, PollVote, PollCodecs, extract_poll, poll_start_filter, concat_chain_and_poll_id,
}
use cvms.Amplifier.Contracts.{ContractInfo}

pub record PollDataSummary : Type 0 where
  pub height : ℕ
  pub polls : List Poll
  pub poll_votes : List PollVote

-- model.VerifierInfo
pub record VerifierInfo : Type 0 where
  pub id : ℕ
  pub chain_info_id : ℕ
  pub verifier_address : String
  pub moniker : String

-- api.GetBlockResults, its events of transactions, and api.GetBlockAndTxs, its raw messages
pub record PollNode : Type 0 where
  pub get_block_results : ℕ → Result (List BlockEvent)
  pub get_block_and_txs : ℕ → Result (List (List String))

-- The end of the window from `start` on, if there is one. `latest` is LatestHeight, read once.
unfoldable pub poll_window : ℕ → ℕ → Option ℕ
poll_window latest start =
    if ltb latest start
    then none
    else (if ltb batch_sync_limit (latest - start)
        then some (start + batch_sync_limit)
        else some latest)

module _ (c : PollCodecs) (node : PollNode) where
  -- without events there are no votes to ask for
  unfoldable pub poll_data : ℕ → List BlockEvent → Result PollDataSummary
  poll_data height [] =
      ok (record { height = height; polls = poll_start_filter c []; poll_votes = [] })
  poll_data height (e ∷ events) = bind (node.get_block_and_txs height) λ txs.
      bind (extract_poll c txs) λ votes.
        ok
          (record { height = height; polls = poll_start_filter c (e ∷ events); poll_votes = votes })

  unfoldable pub fetch_polls : ℕ → List (FetchResult PollDataSummary)
  unfolding poll_data
  fetch_polls height = sent (bind (node.get_block_results height) (poll_data height))

abbrev pub no_data : PollDataSummary
no_data = record { height = 0; polls = []; poll_votes = [] }

abbrev pub data_or_none : Option PollDataSummary → PollDataSummary
data_or_none none = no_data
data_or_none (some d) = d

-- summary[h]
abbrev pub data_at : ℕ → Map ℕ PollDataSummary → PollDataSummary
data_at h m = data_or_none (lookup h m)

-- newVerifierMap and isNewVerifier
unfoldable pub note_participants : Map String ℕ → List String → NewAddresses → NewAddresses
note_participants vim [] acc = acc
note_participants vim (p ∷ participants) acc =
    note_participants vim participants (note_address vim p acc)

unfoldable pub note_polls : Map String ℕ → List Poll → NewAddresses → NewAddresses
unfolding note_participants
note_polls vim [] acc = acc
note_polls vim (p ∷ polls) acc = note_polls vim polls (note_participants vim p.participants acc)

unfoldable pub note_heights :
    Map String ℕ → Map ℕ PollDataSummary → List ℕ → NewAddresses → NewAddresses
unfolding note_polls
note_heights vim m [] acc = acc
note_heights vim m (h ∷ hs) acc = note_heights vim m hs (note_polls vim (data_at h m).polls acc)

-- Vim[v.VerifierAddress] = v.ID, for each
unfoldable pub learn_verifiers : List VerifierInfo → Map String ℕ → Map String ℕ
learn_verifiers [] vim = vim
learn_verifiers (v ∷ l) vim = learn_verifiers l (put v.verifier_address v.id vim)

abbrev pub id_or_zero : Option ℕ → ℕ
id_or_zero none = 0
id_or_zero (some id) = id

-- One participant of a poll; one without an id would get the zero of the Go map.
abbrev pub init_vote : ℕ → Map String ℕ → String → ℕ → String → AmplifierVote
init_vote chain_info_id vim chain_and_poll_id h verifier = record {
  chain_info_id = chain_info_id;
  chain_and_poll_id = chain_and_poll_id;
  poll_start_height = h;
  poll_vote_height = 0;
  verifier_id = id_or_zero (lookup verifier vim);
  status = poll_start;
}

module _ (c : PollCodecs) where
  unfoldable pub init_votes : ℕ → Map String ℕ → ℕ → List Poll → List AmplifierVote
  init_votes chain_info_id vim h polls =
      concat_map
        (λ (p : Poll).
          map (init_vote chain_info_id vim (concat_chain_and_poll_id c p.source_chain p.poll_id) h)
            p.participants)
        polls

  abbrev pub cast_vote : ℕ → ℕ → ContractInfo → PollVote → ℕ → AmplifierVote
  cast_vote chain_info_id h info pv verifier_id = record {
    chain_info_id = chain_info_id;
    chain_and_poll_id = concat_chain_and_poll_id c info.contract_chain_name pv.voted_poll_id;
    poll_start_height = 0;
    poll_vote_height = h;
    verifier_id = verifier_id;
    status = string_to_poll_vote pv.status_str;
  }

  -- A vote of a verifier without an id is skipped; one on an unknown contract ends the batch.
  unfoldable pub cast_votes :
      ℕ → Map String ContractInfo → Map String ℕ → ℕ → List PollVote → Result (List AmplifierVote)
  cast_votes chain_info_id contracts vim h [] = ok []
  cast_votes chain_info_id contracts vim h (pv ∷ votes) =
      let rest = cast_votes chain_info_id contracts vim h votes in
      elim (lookup pv.contract_address contracts) [
        | none ↦ err (message "unexpected poll voted was occured: %v")
        | some info ↦ elim (lookup pv.verifier_address vim) [
          | none ↦ rest
          | some id ↦ bind rest λ rows. ok (cast_vote chain_info_id h info pv id ∷ rows)
        ]
      ]

  -- initPollVoteList and pollVoteList
  unfoldable pub window_votes :
      ℕ
      → Map String ContractInfo
      → Map String ℕ
      → Map ℕ PollDataSummary
      → List ℕ
      → Result (List AmplifierVote × List AmplifierVote)
  unfolding init_votes cast_votes
  window_votes chain_info_id contracts vim m [] = ok ([], [])
  window_votes chain_info_id contracts vim m (h ∷ hs) =
      bind (cast_votes chain_info_id contracts vim h (data_at h m).poll_votes) λ votes.
        bind (window_votes chain_info_id contracts vim m hs) λ (init, rest).
          ok (init_votes chain_info_id vim h (data_at h m).polls ++ init, votes ++ rest)

-- the rows of newVerifierMap
abbrev pub new_verifiers : ℕ → List String → List VerifierInfo
new_verifiers chain_info_id addresses =
    map (λ a. record { id = 0; chain_info_id = chain_info_id; verifier_address = a; moniker = a })
      addresses
