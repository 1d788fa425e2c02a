-- ===== src/Vote/Rows.antt =====
-- What the vote indexer is to store of a chain, stated without its maps and its error paths, and
-- what it makes of a pair of blocks against it.
use cvms.Base.{
  bind-eq-ok, ℕ, suc, ◌≡◌, ◌≢◌, ap, ◌∙◌, inl, inr, String, Option, none, some, List, [], ◌∷◌, arith,
  if◌then◌else◌, ◌==◌, nat_eq, string_eq, Option-cases, ok, wrap-eq-ok, Map, lookup,
}
use cvms.Indexer.Types.{Signature, CosmosValidator, zero_summary}
use cvms.Indexer.Fetch.Honest.{Chain, summary_of}
use cvms.Indexer.Calm.{Agrees}
use cvms.Indexer.Batch.Rows.{Implements}
use cvms.Vote.Sync.{vote_scheme}
use cvms.Vote.Votes.{
  VoteStatus, missed, voted, proposed, ValidatorVote, Voting, vote_with, vote_of, votes_of,
  make_validator_vote_list, pair_votes,
}

-- `id_of` is the id of a validator's hex address in the database, which never changes.
module _ (id_of : String → ℕ) where
  abbrev status_of : String → String → Option String → VoteStatus
  status_of proposer validator none = missed
  status_of proposer validator (some s) =
      if id_of proposer == id_of validator then proposed else voted

  -- One row for each validator and its signature.
  abbrev pub rows_of_signatures :
      Voting → String → List CosmosValidator → List Signature → List ValidatorVote
  rows_of_signatures v proposer (a ∷ validators) (s ∷ signatures) =
      vote_with v (id_of a.address) (status_of proposer a.address s.signature)
      ∷ rows_of_signatures v proposer validators signatures
  rows_of_signatures v proposer [] signatures = []
  rows_of_signatures v proposer (a ∷ validators) [] = []

  -- The rows of the block at height `h`: its validators, and their signatures in the next block.
  unfoldable pub block_rows : Chain → ℕ → ℕ → List ValidatorVote
  block_rows chain c h =
      rows_of_signatures
        (record { chain_info_id = c; last_height = h; last_timestamp = (chain.block h).timestamp })
        (chain.block h).proposer_address (chain.validators h) (chain.block (suc h)).signatures

  module _ (vim : Map String ℕ) (agrees : Agrees id_of vim) where
    vote_of_known :
        (v : Voting) (pid : ℕ) (proposer : String) (a : CosmosValidator) (s : Option String)
        (vote : ValidatorVote)
        → pid ≡ id_of proposer
        → vote_of v vim pid a s ≡ ok vote
        → vote ≡ vote_with v (id_of a.address) (status_of proposer a.address s)
    unfolding vote_of
    vote_of_known v pid proposer a none vote p e = elim (Option-cases (lookup a.address vim)) [
      | inl m ↦ ground arith
      | inr (i, m) ↦ ground (arith, agrees a.address i m)
    ]
    vote_of_known v pid proposer a (some s) vote p e = elim (Option-cases (lookup a.address vim)) [
      | inl m ↦ ground arith
      | inr (i, m) ↦ ground (arith, agrees a.address i m)
    ]

    votes_of_known :
        (v : Voting) (pid : ℕ) (proposer : String) (vs : List CosmosValidator) (ss : List Signature)
        (votes : List ValidatorVote)
        → pid ≡ id_of proposer
        → votes_of v vim pid vs ss ≡ ok votes
        → votes ≡ rows_of_signatures v proposer vs ss
    unfolding votes_of
    votes_of_known v pid proposer [] ss votes p e = cc
    votes_of_known v pid proposer (a ∷ vs) [] votes p e = cc
    votes_of_known v pid proposer (a ∷ vs) (s ∷ ss) votes p e =
        let (vote, one, e') = bind-eq-ok (vote_of v vim pid a s.signature) _ e in
        let (rest, more, e'') = bind-eq-ok (votes_of v vim pid vs ss) _ e' in
        cc (
          vote_of_known v pid proposer a s.signature vote p one,
          votes_of_known v pid proposer vs ss rest p more,
          e'',
        )

    -- What `makeValidatorVoteList` returns without an error.
    pub make_validator_vote_list_known :
        (c h ts : ℕ) (proposer : String) (vs : List CosmosValidator) (ss : List Signature)
        (votes : List ValidatorVote)
        → make_validator_vote_list c vim h ts proposer vs ss ≡ ok votes
        → votes
          ≡ rows_of_signatures
              (record { chain_info_id = c; last_height = h; last_timestamp = ts })
              proposer
              vs
              ss
    unfolding make_validator_vote_list
    make_validator_vote_list_known c h ts proposer vs ss votes e =
        elim (Option-cases (lookup proposer vim)) [
          | inl m ↦ ground arith
          | inr (i, m) ↦
              votes_of_known _ i proposer vs ss votes (agrees proposer i m)
                (rw (m, make_validator_vote_list) at e)
        ]

    pair_votes_known :
        (chain : Chain) (c h : ℕ) (votes : List ValidatorVote)
        → pair_votes c vim (summary_of chain h) (summary_of chain (suc h)) ≡ ok votes
        → votes ≡ block_rows chain c h
    unfolding pair_votes block_rows
    pair_votes_known chain c h votes e =
        let made =
          make_validator_vote_list c vim (chain.block h).height (chain.block h).timestamp
            (chain.block h).proposer_address (chain.validators h)
            (chain.block (suc h)).signatures in
        let plain : made ≡ ok votes = ground (
          arith,
          chain.block_height h,
          chain.last_commit h,
          wrap-eq-ok "failed to make temp validator miss list at %d height" made {a = votes},
        ) in
        make_validator_vote_list_known c (chain.block h).height (chain.block h).timestamp
          (chain.block h).proposer_address (chain.validators h) (chain.block (suc h)).signatures
          votes plain
        ∙ ap
            (λ k.
              rows_of_signatures
                (record {
                  chain_info_id = c;
                  last_height = k;
                  last_timestamp = (chain.block h).timestamp;
                })
                (chain.block h).proposer_address (chain.validators h)
                (chain.block (suc h)).signatures)
            (chain.block_height h)

pair_votes_missing :
    (vim : Map String ℕ) (chain : Chain) (c h : ℕ) (votes : List ValidatorVote)
    → pair_votes c vim (summary_of chain (suc h)) zero_summary ≢ ok votes
unfolding pair_votes
pair_votes_missing vim chain c h votes e = ground (arith, chain.block_height (suc h))

-- What `vote_scheme` makes of a pair of blocks is what the chain says.
pub vote_scheme-Implements :
    (id_of : String → ℕ) (chain : Chain)
    → Implements vote_scheme id_of chain (block_rows id_of chain)
vote_scheme-Implements id_of chain = record {
  pair_known = λ vim agrees c h rows e. pair_votes_known id_of vim agrees chain c h rows e;
  pair_missing = λ vim c h rows e. pair_votes_missing vim chain c h rows e;
}
