-- ===== src/Amplifier/Sync/Batch.antt =====
-- The steps of batchSync in amplifier-verifier/indexer/sync.go that read and write the database.
use cvms.Base.{
  ℕ, ◌+◌, String, Bool, false, Option, none, some, List, [], if◌then◌else◌, ◌==◌, nat_eq, length,
  Map, keys, Result, ok, err, panic, wrap, wrapped, Exec, pure, lift, gets, ◌>>=◌, ◌>>◌, concat_map,
}
use cvms.Indexer.Tables.{InfoTable}
use cvms.Indexer.Tables.Insert.{or_wrap}
use cvms.Indexer.Fetch.{Schedule, heights, collected}
use cvms.Indexer.Monikers.{World, on_db, set_indexer, load_moniker_ids, filter_by_ids}
use cvms.Indexer.Validators.{NewAddresses}
use cvms.Amplifier.Statuses.{AmplifierVote}
use cvms.Amplifier.Polls.{PollCodecs}
use cvms.Amplifier.Contracts.{ContractInfo}
use cvms.Amplifier.Tables.{AmplifierTables, store_polls}
use cvms.Amplifier.Sync.{
  PollDataSummary, VerifierInfo, PollNode, poll_window, fetch_polls, note_heights, learn_verifiers,
  window_votes, new_verifiers,
}

abbrev pub Lists : Type 0
Lists = List AmplifierVote × List AmplifierVote

module _ {State : Type 0} (t : AmplifierTables State) (infos : InfoTable State VerifierInfo) where
  unfoldable pub read_verifier_ids : String → Exec (World State) (Unit {0})
  unfolding learn_verifiers
  read_verifier_ids text w =
      (do
        found ← or_wrap text (on_db (infos.list_by_chain_info_id w.indexer.chain_info_id))
        now ← gets (λ w'. w'.indexer)
        set_indexer (record now { vim = learn_verifiers found now.vim }))
        w

  -- After a failed insert the ids are read again, whatever comes of it, and the batch fails.
  unfoldable pub insert_verifiers : List VerifierInfo → Exec (World State) (Unit {0})
  unfolding read_verifier_ids
  insert_verifiers l w = elim (infos.insert_list l w.db).0 [
    | ok _ ↦ (ok tt, record w { db = (infos.insert_list l w.db).1 })
    | err e ↦ (
      err (wrapped "failed to insert new verifier list: %v" e),
      (read_verifier_ids "failed to get validator info list"
          (record w { db = (infos.insert_list l w.db).1 })).1,
    )
    | panic ↦ (panic, record w { db = (infos.insert_list l w.db).1 })
  ]

  unfoldable pub register_verifiers : NewAddresses → Exec (World State) (Unit {0})
  unfolding insert_verifiers
  register_verifiers (found, is_new) w =
      if is_new
      then ((do
        insert_verifiers (new_verifiers w.indexer.chain_info_id (keys found))
        read_verifier_ids
            "failed to get new reporter info list after inserting new hex address list")
          w)
      else (ok tt, w)

  abbrev pub keep_ids : Map ℕ Bool → Lists → Lists
  keep_ids ids (init, votes) = (
    filter_by_ids (λ (v : AmplifierVote). v.verifier_id) ids init,
    filter_by_ids (λ (v : AmplifierVote). v.verifier_id) ids votes,
  )

  -- if len(Monikers) > 0 { .. }, for both lists
  unfoldable pub filter_lists : Lists → Exec (World State) Lists
  filter_lists lists w =
      if length w.indexer.monikers == 0
      then (ok lists, w)
      else ((do
        load_moniker_ids infos (λ (i : VerifierInfo). i.id)
        now ← gets (λ w'. w'.indexer)
        pure (keep_ids now.moniker_id_map lists))
          w)

  module _ (c : PollCodecs) (node : PollNode) (arrive : Schedule PollDataSummary)
      (contracts : Result (Map String ContractInfo)) where
    -- the last steps: `end` is the new index point
    abbrev pub store_lists : ℕ → Lists → Exec (World State) ℕ
    store_lists end (init, votes) w =
        (do on_db (store_polls t w.indexer.chain_info_id end init votes); pure end) w

    -- from the collected heights on
    unfoldable pub store_window :
        ℕ → ℕ → Map String ContractInfo → Map ℕ PollDataSummary → Exec (World State) ℕ
    unfolding register_verifiers filter_lists
    store_window start end known m w =
        (do
          register_verifiers (note_heights w.indexer.vim m (heights start end) ([], false))
          indexer ← gets (λ w'. w'.indexer)
          lists ←
              lift (window_votes c indexer.chain_info_id known indexer.vim m (heights start end))
          kept ← filter_lists lists
          store_lists end kept)
          w

    unfoldable pub fetch_window : ℕ → ℕ → Result (Map ℕ PollDataSummary)
    fetch_window start end =
        collected (λ d. d.height) [] (arrive (concat_map (fetch_polls c node) (heights start end)))
          "failed to collect batch poll data, total errors: %d"

    -- `contracts` is what GetVerifierContractAddressMap returns.
    unfoldable pub sync_window : ℕ → Option ℕ → Exec (World State) ℕ
    unfolding store_window fetch_window
    sync_window last none w = (ok last, w)
    sync_window last (some end) w =
        (do
          known ← lift (wrap "failed get verifier register contract address" contracts)
          m ← lift (fetch_window (last + 1) end)
          store_window (last + 1) end known m)
          w

    unfoldable pub amplifier_batch_sync : ℕ → ℕ → Exec (World State) ℕ
    unfolding sync_window poll_window
    amplifier_batch_sync latest last = sync_window last (poll_window latest (last + 1))
