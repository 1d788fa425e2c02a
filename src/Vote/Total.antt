-- ===== src/Vote/Total.antt =====
-- makeValidatorVoteList returns when every validator has an id and a signature, and so a turn of
-- the vote indexer's loop advances.
use cvms.Base.{
  ap, lookup-exist, Bool-cases, beq_self, wrap, ℕ, suc, ◌≤◌, ◌<◌, ◌≡◌, refl, inl, inr, String,
  Option, none, some, List, [], ◌∷◌, arith, ok, Map, exist, true, All, length, ◌==◌, nat_eq,
  string_eq,
}
use cvms.Indexer.Types.{Signature, CosmosValidator, ValidatorInfo}
use cvms.Indexer.Tables.{Tables, InfoTable}
use cvms.Indexer.Tables.Serves.{Serves}
use cvms.Indexer.Fetch.{end_height}
use cvms.Indexer.Fetch.Honest.{Chain, summary_of}
use cvms.Indexer.Validators.Known.{Known}
use cvms.Indexer.Loop.{LoopState, turn}
use cvms.Indexer.Batch.Once.{Turn, round_of}
use cvms.Indexer.Batch.Total.{Makes, window_rows}
use cvms.Indexer.Calm.{Agrees}
use cvms.Vote.Rows.{block_rows, vote_scheme-Implements}
use cvms.Indexer.Batch.Advances.{Ready, turn_advances}
use cvms.Vote.Votes.{
  ValidatorVote, Voting, vote_of, vote_with, missed, voted, proposed, votes_of,
  make_validator_vote_list, pair_votes,
}
use cvms.Vote.Sync.{vote_scheme}

-- The next block's commit has a place for each validator of the block at `h`.
abbrev pub Signed : Chain → ℕ → Type 0
Signed chain h = length (chain.validators h) ≤ length (chain.block (suc h)).signatures

vote_of_total :
    (v : Voting) (vim : Map String ℕ) (id : ℕ) (a : CosmosValidator) (s : Option String)
    → exist a.address vim ≡ true
    → (vote : ValidatorVote) × (vote_of v vim id a s ≡ ok vote)
unfolding vote_of
vote_of_total v vim id a none e =
    let (i, m) = lookup-exist a.address vim e in (vote_with v i missed, rw (m, vote_of))
vote_of_total v vim id a (some s) e =
    let (i, m) = lookup-exist a.address vim e in
    elim (Bool-cases (id == i)) [
      | inl same ↦ (vote_with v i proposed, rw (m, same, vote_of))
      | inr other ↦ (vote_with v i voted, rw (m, other, vote_of))
    ]

votes_of_total :
    (v : Voting) (vim : Map String ℕ) (id : ℕ) (vs : List CosmosValidator) (ss : List Signature)
    → All (λ (a : CosmosValidator). exist a.address vim ≡ true) vs
    → length vs ≤ length ss
    → (votes : List ValidatorVote) × (votes_of v vim id vs ss ≡ ok votes)
unfolding votes_of
votes_of_total v vim id [] ss h l = ([], refl)
votes_of_total v vim id (a ∷ vs) [] h l = absurd (none_left l)
  where
    none_left : {n : ℕ} → suc n ≤ 0 → ⊥
    none_left p = omega (arith, p)
votes_of_total v vim id (a ∷ vs) (s ∷ ss) (e, h) l =
    let (vote, p) = vote_of_total v vim id a s.signature e in
    let (rest, q) = votes_of_total v vim id vs ss h (omega (arith, l)) in (vote ∷ rest, rw (p, q))

pair_votes_total :
    (chain : Chain) (c : ℕ) (vim : Map String ℕ) (h : ℕ)
    → Known vim (summary_of chain h)
    → Signed chain h
    → Makes vote_scheme chain c vim h
unfolding pair_votes make_validator_vote_list
pair_votes_total chain c vim h k signed =
    let (i, m) = lookup-exist (chain.block h).proposer_address vim k.known_proposer in
    let (votes, e) =
      votes_of_total
        (record {
          chain_info_id = c;
          last_height = (chain.block h).height;
          last_timestamp = (chain.block h).timestamp;
        })
        vim i (chain.validators h) (chain.block (suc h)).signatures k.known_validators signed in
    let same : ((chain.block (suc h)).last_commit_height == (chain.block h).height) ≡ true =
      rw (chain.block_height h, chain.last_commit h) (beq_self h) in
    (votes, rw (same, m, make_validator_vote_list) (ap (wrap _) e))

module _ {State : Type 0} (t : Tables State ValidatorVote) (infos : InfoTable State ValidatorInfo)
    (chain : Chain) (id_of : String → ℕ) where
  -- Outside solo mode, behind index point `h + 1`: let there be blocks ahead and a latest height that
  -- does not fall within the batch, healthy endpoints, a node that answers over the window with the
  -- chain's blocks, a channel that delivers each message once, ids for the window's validators,
  -- all as `id_of` numbers them, a signature entry for each validator, and a database whose state
  -- takes the votes that the chain has, under these ids, for the window's blocks. Then a turn of the vote indexer's loop ends without an error, and its new index point,
  -- which is higher, is the end of the window: the latest height, or 10 blocks from its start on.
  pub vote_turn_advances :
      (v : Turn) (s : LoopState State) (h : ℕ)
      → Ready vote_scheme t infos chain v s h
      → Agrees id_of s.world.indexer.vim
      → Serves t
          (window_rows
            (block_rows id_of chain)
            s.world.indexer.chain_info_id
            (suc h)
            (end_height v.latest (suc (suc h))))
          s.world.db
      → ((j : ℕ) → suc h ≤ j → j < end_height v.latest (suc (suc h)) → Signed chain j)
      → ((turn (round_of vote_scheme t infos v) s).0 ≡ ok tt)
        × ((turn (round_of vote_scheme t infos v) s).1.index_point
            ≡ end_height v.latest (suc (suc h)))
        × (s.index_point < (turn (round_of vote_scheme t infos v) s).1.index_point)
  vote_turn_advances v s h r agrees serves signed =
      turn_advances vote_scheme t infos chain id_of (block_rows id_of chain)
        (vote_scheme-Implements id_of chain) v s h r agrees serves
        λ j lo hi.
          pair_votes_total chain s.world.indexer.chain_info_id s.world.indexer.vim j
            (r.known j lo (omega (arith, hi))) (signed j lo hi)
