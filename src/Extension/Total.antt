-- ===== src/Extension/Total.antt =====
-- makeValidatorExtensionList returns when the block's first transaction decodes and every address
-- in it has an id, and so a turn of the vote-extension indexer's loop advances.
use cvms.Base.{
  ltb, length, false, ap, ℕ, suc, ◌≤◌, ◌<◌, ◌≡◌, refl, String, Option, none, some, List, [], ◌∷◌,
  arith, ok, wrap, Map, lookup-exist, exist, true, All, ◌==◌, nat_eq, string_eq, beq_self,
}
use cvms.Indexer.Types.{ValidatorInfo}
use cvms.Indexer.Tables.{Tables, InfoTable}
use cvms.Indexer.Tables.Serves.{Serves}
use cvms.Indexer.Fetch.{end_height}
use cvms.Indexer.Fetch.Honest.{Chain}
use cvms.Indexer.Loop.{LoopState, turn}
use cvms.Indexer.Batch.Once.{Turn, round_of}
use cvms.Indexer.Batch.Total.{Makes, window_rows}
use cvms.Indexer.Calm.{Agrees}
use cvms.Extension.Rows.{extension_rows, extension_scheme-Implements}
use cvms.Indexer.Batch.Advances.{Ready, turn_advances}
use cvms.Vote.Votes.{Voting}
use cvms.Extension.Codec.{VoteExtension, Packages, decoding_vote_extension_tx}
use cvms.Extension.Votes.{
  ValidatorExtensionVote, extension_with, extension_of, extensions_of,
  make_validator_extension_list, pair_extensions,
}
use cvms.Extension.Sync.{extension_scheme}

-- The block behind height `h` starts with a transaction that decodes to extensions whose
-- validators have ids.
pub record Extended (p : Packages) (chain : Chain) (vim : Map String ℕ) (h : ℕ) : Type 0 where
  pub first_tx : String
  pub other_txs : List String
  pub extensions : List VoteExtension
  pub has_txs : (chain.block (suc h)).txs ≡ first_tx ∷ other_txs
  pub decodes : decoding_vote_extension_tx p first_tx ≡ ok extensions
  pub has_ids : All (λ (ve : VoteExtension). exist ve.address vim ≡ true) extensions

extension_of_total :
    (v : Voting) (vim : Map String ℕ) (ve : VoteExtension) (s : Option (List ℕ))
    → exist ve.address vim ≡ true
    → (row : ValidatorExtensionVote) × (extension_of v vim ve s ≡ ok row)
unfolding extension_of
extension_of_total v vim ve none e =
    let (i, m) = lookup-exist ve.address vim e in (extension_with v i ve, rw (m, extension_of))
extension_of_total v vim ve (some s) e =
    let (i, m) = lookup-exist ve.address vim e in (extension_with v i ve, rw (m, extension_of))

extensions_of_total :
    (v : Voting) (vim : Map String ℕ) (ves : List VoteExtension)
    → All (λ (ve : VoteExtension). exist ve.address vim ≡ true) ves
    → (rows : List ValidatorExtensionVote) × (extensions_of v vim ves ≡ ok rows)
unfolding extensions_of
extensions_of_total v vim [] h = ([], refl)
extensions_of_total v vim (ve ∷ ves) (e, h) =
    let (row, p) = extension_of_total v vim ve ve.signature e in
    let (rest, q) = extensions_of_total v vim ves h in (row ∷ rest, rw (p, q))

pair_extensions_total :
    (p : Packages) (chain : Chain) (c : ℕ) (vim : Map String ℕ) (h : ℕ)
    → Extended p chain vim h
    → Makes (extension_scheme p) chain c vim h
unfolding pair_extensions make_validator_extension_list
pair_extensions_total p chain c vim h x =
    let (rows, e) =
      extensions_of_total
        (record {
          chain_info_id = c;
          last_height = (chain.block h).height;
          last_timestamp = (chain.block h).timestamp;
        })
        vim x.extensions x.has_ids in
    let same : ((chain.block (suc h)).last_commit_height == (chain.block h).height) ≡ true =
      rw (chain.block_height h, chain.last_commit h) (beq_self h) in
    let filled : ltb (length (x.first_tx ∷ x.other_txs)) 1 ≡ false = ground arith in
    (rows, rw (same, x.has_txs, filled, x.decodes) (ap (wrap _) e))

module _ {State : Type 0} (p : Packages) (t : Tables State ValidatorExtensionVote)
    (infos : InfoTable State ValidatorInfo) (chain : Chain) (id_of : String → ℕ) where
  -- Outside solo mode, behind index point `h + 1`: let there be blocks ahead and a latest height that
  -- does not fall within the batch, healthy endpoints, a node that answers over the window with the
  -- chain's blocks, a channel that delivers each message once, ids for the window's validators,
  -- all as `id_of` numbers them, an extended commit that decodes in each block, with ids for its
  -- addresses, and a database whose state takes the extensions that the chain has, under these ids,
  -- for the window's blocks. Then a turn of the vote-extension indexer's
  -- loop ends without an error, and its new index point, which is higher, is the end of the window:
  -- the latest height, or 10 blocks from its start on.
  pub extension_turn_advances :
      (v : Turn) (s : LoopState State) (h : ℕ)
      → Ready (extension_scheme p) t infos chain v s h
      → Agrees id_of s.world.indexer.vim
      → Serves t
          (window_rows
            (extension_rows id_of p chain)
            s.world.indexer.chain_info_id
            (suc h)
            (end_height v.latest (suc (suc h))))
          s.world.db
      → ((j : ℕ)
          → suc h ≤ j
          → j < end_height v.latest (suc (suc h))
          → Extended p chain s.world.indexer.vim j)
      → ((turn (round_of (extension_scheme p) t infos v) s).0 ≡ ok tt)
        × ((turn (round_of (extension_scheme p) t infos v) s).1.index_point
            ≡ end_height v.latest (suc (suc h)))
        × (s.index_point < (turn (round_of (extension_scheme p) t infos v) s).1.index_point)
  extension_turn_advances v s h r agrees serves extended =
      turn_advances (extension_scheme p) t infos chain id_of (extension_rows id_of p chain)
        (extension_scheme-Implements id_of p chain) v s h r agrees serves
        λ j lo hi.
          pair_extensions_total p chain s.world.indexer.chain_info_id s.world.indexer.vim j
            (extended j lo hi)
