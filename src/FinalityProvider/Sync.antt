-- ===== src/FinalityProvider/Sync.antt =====
-- batchSync of finality-provider/indexer/batch_sync.go.
use cvms.Base.{
  ℕ, ◌+◌, ◌-◌, String, false, Option, none, some, List, [], ◌∷◌, ◌++◌, if◌then◌else◌, ltb, ◌==◌,
  nat_eq, string_eq, Map, put, lookup, keys, values, Result, ok, err, panic, wrap, bind, Exec, pure,
  lift, gets, ◌>>=◌, ◌>>◌, concat_map,
}
use cvms.Indexer.Types.{batch_sync_limit}
use cvms.Indexer.Tables.{Tables, InfoTable}
use cvms.Indexer.Tables.Insert.{InsertText, insert_batch, or_wrap}
use cvms.Indexer.Fetch.{Schedule, heights, collected}
use cvms.Indexer.Monikers.{World, on_db, set_indexer, filter_for_monikers}
use cvms.Indexer.Validators.{NewAddresses, note_address, or_nil}
use cvms.FinalityProvider.Votes.{
  FinalityVoteSummary, BabylonFinalityProviderVote, FpNode, fetch_votes,
  make_babylon_finality_provider_vote_list,
}

-- model.FinalityProviderInfo, but its operator address
pub record FinalityProviderInfo : Type 0 where
  pub id : ℕ
  pub chain_info_id : ℕ
  pub moniker : String
  pub btc_pks : String

abbrev pub finality_sig_timeout : ℕ
finality_sig_timeout = 3

abbrev pub fp_text : InsertText
fp_text = record {
  index_name = "babylon_finality_provider";
  failed_insert = "failed to insert validator_miss list";
  failed_tx = "failed to exec validator miss in a transaction: %v";
}

-- The end of the window from `start` on, if there is one. `latest` is LatestHeight; below 3 the
-- source's end is negative, and here 0, before every start.
unfoldable pub fp_window : ℕ → ℕ → Option ℕ
fp_window latest start =
    let end = latest - finality_sig_timeout in
    if ltb end start
    then none
    else (if ltb batch_sync_limit (end - start) then some (start + batch_sync_limit) else some end)

abbrev pub zero_votes : FinalityVoteSummary
zero_votes = record { block_height = 0; finality_provider_votes = [] }

abbrev pub votes_or_zero : Option FinalityVoteSummary → FinalityVoteSummary
votes_or_zero none = zero_votes
votes_or_zero (some s) = s

-- FinalityVoteSummaryList[height]
abbrev pub votes_at : ℕ → Map ℕ FinalityVoteSummary → FinalityVoteSummary
votes_at height m = votes_or_zero (lookup height m)

unfoldable pub fetch_window :
    FpNode → Schedule FinalityVoteSummary → ℕ → ℕ → Result (Map ℕ FinalityVoteSummary)
fetch_window node arrive start end =
    collected (λ s. s.block_height) [] (arrive (concat_map (fetch_votes node) (heights start end)))
      "failed to collect batch block data, total errors: %d"

-- newFinalityProviderMap and isNewFinalityProvider
unfoldable pub note_pks : Map String ℕ → List String → NewAddresses → NewAddresses
note_pks vim [] acc = acc
note_pks vim (pk ∷ pks) acc = note_pks vim pks (note_address vim pk acc)

unfoldable pub note_votes : Map String ℕ → List FinalityVoteSummary → NewAddresses → NewAddresses
unfolding note_pks
note_votes vim [] acc = acc
note_votes vim (s ∷ l) acc = note_votes vim l (note_pks vim (keys s.finality_provider_votes) acc)

-- Vim[fp.BTCPKs] = fp.ID, for each
unfoldable pub learn_fp_ids : List FinalityProviderInfo → Map String ℕ → Map String ℕ
learn_fp_ids [] vim = vim
learn_fp_ids (i ∷ l) vim = learn_fp_ids l (put i.btc_pks i.id vim)

-- One height: its summary has to be there.
unfoldable pub height_votes :
    ℕ → Map String ℕ → ℕ → Map ℕ FinalityVoteSummary → ℕ → Result (List BabylonFinalityProviderVote)
height_votes chain_info_id vim now m height =
    if height == (votes_at height m).block_height
    then wrap "failed to make temp validator miss list at %d height" (
        make_babylon_finality_provider_vote_list chain_info_id vim now
          (votes_at height m).block_height (votes_at height m).finality_provider_votes)
    else panic

unfoldable pub window_votes :
    ℕ
    → Map String ℕ
    → ℕ
    → Map ℕ FinalityVoteSummary
    → List ℕ
    → Result (List BabylonFinalityProviderVote)
unfolding height_votes
window_votes chain_info_id vim now m [] = ok []
window_votes chain_info_id vim now m (h ∷ hs) =
    bind (height_votes chain_info_id vim now m h)
      λ rows. bind (window_votes chain_info_id vim now m hs) λ rest. ok (rows ++ rest)

module _ {State : Type 0} (infos : InfoTable State FinalityProviderInfo) where
  unfoldable pub read_fp_ids : String → Exec (World State) (Unit {0})
  unfolding learn_fp_ids
  read_fp_ids text w =
      (do
        found ← or_wrap text (on_db (infos.list_by_chain_info_id w.indexer.chain_info_id))
        now ← gets (λ w'. w'.indexer)
        set_indexer (record now { vim = learn_fp_ids found now.vim }))
        w

  -- After a failed insert the ids are read again, whatever comes of it, and the batch fails.
  unfoldable pub insert_fps : List FinalityProviderInfo → Exec (World State) (Unit {0})
  unfolding read_fp_ids
  insert_fps l w = elim (infos.insert_list l w.db).0 [
    | ok _ ↦ (ok tt, record w { db = (infos.insert_list l w.db).1 })
    | err e ↦ (
      err e,
      (read_fp_ids "failed to get validator info list"
          (record w { db = (infos.insert_list l w.db).1 })).1,
    )
    | panic ↦ (panic, record w { db = (infos.insert_list l w.db).1 })
  ]

  unfoldable pub register_fps :
      (List String → Result (List FinalityProviderInfo))
      → NewAddresses
      → Exec (World State) (Unit {0})
  unfolding insert_fps
  register_fps make_infos (found, is_new) w =
      if is_new
      then ((do
        l ← lift (or_nil (make_infos (keys found)))
        insert_fps l
        read_fp_ids "failed to get new validator info list after inserting new hex address list")
          w)
      else (ok tt, w)

  module _ (t : Tables State BabylonFinalityProviderVote)
      (make_infos : List String → Result (List FinalityProviderInfo)) (node : FpNode)
      (arrive : Schedule FinalityVoteSummary) (now : ℕ) where
    unfoldable pub fp_sync_range : ℕ → ℕ → Exec (World State) ℕ
    unfolding register_fps fetch_window
    fp_sync_range start end = do
      m ← lift (fetch_window node arrive start end)
      indexer ← gets (λ w. w.indexer)
      register_fps make_infos (note_votes indexer.vim (values m) ([], false))
      indexer' ← gets (λ w. w.indexer)
      rows ← lift (window_votes indexer'.chain_info_id indexer'.vim now m (heights start end))
      kept ←
          filter_for_monikers infos (λ (i : FinalityProviderInfo). i.id)
            (λ (v : BabylonFinalityProviderVote). v.finality_provider_pk_id) rows
      or_wrap "failed to insert from %d to %d height"
          (on_db (insert_batch t fp_text indexer'.chain_info_id (votes_at end m).block_height kept))
      pure (votes_at end m).block_height

    abbrev pub fp_sync_window : ℕ → Option ℕ → Exec (World State) ℕ
    fp_sync_window last none w = (ok last, w)
    fp_sync_window last (some end) w = fp_sync_range (last + 1) end w

    -- `latest` is LatestHeight, which is read once.
    unfoldable pub fp_batch_sync : ℕ → ℕ → Exec (World State) ℕ
    unfolding fp_sync_range fp_window
    fp_batch_sync latest last = fp_sync_window last (fp_window latest (last + 1))
