-- ===== src/Indexer/Batch.antt =====
-- batchSync, for an indexer that makes rows from each pair of neighbouring blocks, as the vote
-- indexer (voteindexer/indexer/batch_sync.go) writes it. The vote-extension indexer has the same
-- text with its own rows.
pub mod Rows
pub mod Exact
pub mod Once
pub mod Total
pub mod Advances
use cvms.Base.{
  ℕ, ◌-◌, String, Option, none, some, List, [], ◌∷◌, ◌++◌, if◌then◌else◌, leb, Map, lookup, nat_eq,
  Error, Result, ok, bind, Exec, pure, lift, gets, ◌>>=◌, ◌>>◌,
}
use cvms.Indexer.Types.{BlockSummary, zero_summary, ValidatorInfo, Latest}
use cvms.Indexer.Tables.{Tables, InfoTable}
use cvms.Indexer.Tables.Insert.{InsertText, insert_batch, or_wrap}
use cvms.Indexer.Fetch.{Node, Schedule, end_height, heights, fetch_summaries}
use cvms.Indexer.Monikers.{World, on_db, filter_for_monikers}
use cvms.Indexer.Validators.{register_new_validators}

-- What an indexer brings of its own.
pub record Scheme (Row : Type 0) : Type 0 where
  pub text : InsertText
  -- what becomes of the error of InsertValidatorInfoList
  pub insert_failed : Error → Error
  -- the rows of one height, from the summary of the block before and its own
  pub pair_rows : ℕ → Map String ℕ → BlockSummary → BlockSummary → Result (List Row)
  pub row_id : Row → ℕ

abbrev pub summary_or_zero : Option BlockSummary → BlockSummary
summary_or_zero none = zero_summary
summary_or_zero (some b) = b

-- blockSummaryList[height]
abbrev pub summary_at : ℕ → Map ℕ BlockSummary → BlockSummary
summary_at height summaries = summary_or_zero (lookup height summaries)

module _ {Row : Type 0} (scheme : Scheme Row) where
  unfoldable pub height_rows : ℕ → Map String ℕ → Map ℕ BlockSummary → ℕ → Result (List Row)
  unfolding lookup
  height_rows chain_info_id vim summaries height =
      scheme.pair_rows chain_info_id vim (summary_at (height - 1) summaries)
        (summary_at height summaries)

  unfoldable pub batch_rows : ℕ → Map String ℕ → Map ℕ BlockSummary → List ℕ → Result (List Row)
  unfolding height_rows
  batch_rows chain_info_id vim summaries [] = ok []
  batch_rows chain_info_id vim summaries (h ∷ hs) =
      bind (height_rows chain_info_id vim summaries h)
        λ rows. bind (batch_rows chain_info_id vim summaries hs) λ rest. ok (rows ++ rest)

  module _ {State : Type 0} (t : Tables State Row) (infos : InfoTable State ValidatorInfo)
      (make_infos : List String → Result (List ValidatorInfo)) (node : Node)
      (arrive : Schedule BlockSummary) where
    -- The batch from `start` to `end`.
    unfoldable pub sync_range : ℕ → ℕ → Exec (World State) ℕ
    sync_range start end = do
      summaries ← lift (fetch_summaries node arrive start end)
      register_new_validators infos scheme.insert_failed make_infos summaries
      now ← gets (λ w. w.indexer)
      rows ← lift (batch_rows now.chain_info_id now.vim summaries (heights start end))
      kept ← filter_for_monikers infos (λ (i : ValidatorInfo). i.id) scheme.row_id rows
      or_wrap "failed to insert from %d to %d height" (
          on_db (
            insert_batch t scheme.text now.chain_info_id (summary_at end summaries).block_height
              kept))
      pure (summary_at end summaries).block_height

    unfoldable pub batch_sync : Latest → ℕ → ℕ → Exec (World State) ℕ
    unfolding sync_range
    batch_sync latest last start w =
        if leb latest.at_guard last
        then (ok last, w)
        else sync_range start (end_height latest start) w
