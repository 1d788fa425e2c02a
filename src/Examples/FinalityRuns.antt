-- ===== src/Examples/FinalityRuns.antt =====
-- A finality provider that votes late.
use cvms.Base.{
  ℕ, suc, ◌+◌, ◌≤◌, ◌<◌, ◌≡◌, ◌⊎◌, refl, ◌==◌, nat_eq, string_eq, if◌then◌else◌, none, some, [],
  ◌∷◌, arith, ok, err, message, lookup, length, put, exist,
}
use cvms.Indexer.Tables.{InfoTable}
use cvms.Indexer.Tables.Insert.{insert_batch}
use cvms.Indexer.Fetch.{collected}
use cvms.Indexer.Validators.{note_address}
use cvms.Indexer.Monikers.{World, filter_for_monikers}
use cvms.FinalityProvider.Votes.{
  BabylonFinalityProviderVote, FpNode, vote_map, fetch_votes,
  make_babylon_finality_provider_vote_list,
}
use cvms.FinalityProvider.Status.{lookup-vote_map}
use cvms.FinalityProvider.Sync.{
  FinalityProviderInfo, fp_window, fp_batch_sync, note_votes, window_votes,
}
use cvms.FinalityProvider.Waits.{fp_window_bounds, fp_batch_sync_waits}
use cvms.Examples.Database.{Db, db_tables, in_order, in_order-Delivers}
use cvms.Examples.VoteRuns.{toy_db, toy_indexer}

-- two active providers, and one vote for each height but 13
abbrev fp_node : FpNode
fp_node = record {
  get_active_finality_provider_by_height = λ h. ok ("pk1" ∷ "pk2" ∷ []);
  get_finality_votes_by_height = λ h. if h == 13 then ok [] else ok ("pk2" ∷ []);
}

abbrev fp_infos : InfoTable (Db BabylonFinalityProviderVote) FinalityProviderInfo
fp_infos = record {
  list_by_chain_info_id = λ c s. (ok [], s);
  insert_list = λ l s. (ok tt, s);
  list_by_monikers = λ c ms s. (ok [], s);
}

abbrev fp_world : World (Db BabylonFinalityProviderVote)
fp_world = record {
  indexer = record (toy_indexer []) { vim = ("pk1", 1) ∷ ("pk2", 2) ∷ [] };
  db = toy_db "babylon_finality_provider";
}

lookup-vote_map_example : lookup "pk1" (vote_map ("pk1" ∷ "pk2" ∷ []) ("pk2" ∷ [])) ≡ some 0
lookup-vote_map_example = lookup-vote_map ("pk1" ∷ "pk2" ∷ []) ("pk2" ∷ []) "pk1"

fp_window_bounds_example :
    ((fp_window 16 (suc 10) ≡ none) × (16 ≤ 10 + 3))
    ⊎ ((end : ℕ) × (fp_window 16 (suc 10) ≡ some end)
        × (10 < end)
        × (end + 3 ≤ 16)
        × (end ≤ 10 + 11))
fp_window_bounds_example = fp_window_bounds 16 10

window_at_16 : fp_window 16 11 ≡ some 13
unfolding fp_window
window_at_16 = refl

fp_batch_sync_waits_example :
    fp_batch_sync fp_infos db_tables (λ l. ok []) fp_node in_order 50 16 10 fp_world
    ≡ (err (message "failed to collect batch block data, total errors: %d"), fp_world)
fp_batch_sync_waits_example =
    fp_batch_sync_waits fp_infos db_tables (λ l. ok []) fp_node in_order 50 16 10 13 13
      ("pk1" ∷ "pk2" ∷ []) fp_world in_order-Delivers window_at_16 (omega arith) (omega arith) refl
      refl

-- One height less, and the batch goes through: two rows for each of two heights.
abbrev fp_after : World (Db BabylonFinalityProviderVote)
fp_after = (fp_batch_sync fp_infos db_tables (λ l. ok []) fp_node in_order 50 15 10 fp_world).1

fp_after_rows : length fp_after.db.stored ≡ 4
unfolding fp_batch_sync collected fetch_votes note_votes put note_address exist window_votes
    make_babylon_finality_provider_vote_list filter_for_monikers insert_batch
fp_after_rows = refl
