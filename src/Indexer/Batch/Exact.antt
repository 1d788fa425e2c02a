-- ===== src/Indexer/Batch/Exact.antt =====
-- One batch of an indexer against a chain: what a batch that succeeds has stored, and what
-- one that fails has left alone.
use cvms.Base.{
  ℕ, suc, ◌+◌, ◌-◌, ◌≡◌, ap, ◌∙◌, String, List, [], arith, Map, Result, wrap, pure, ◌>>◌,
  range_from, concat_map,
}
use cvms.Base.Post.{
  Post, Ends, Ends-bind, Post-wrap, Post-split, Post-continue, Ends-lift, Post-always,
}
use cvms.Indexer.Types.{BlockSummary, ValidatorInfo}
use cvms.Indexer.Tables.{Tables, InfoTable, Stored, TableLaws, InfoLaws}
use cvms.Indexer.Tables.Insert.{
  insert_batch, insert_batch-Stored, insert_batch-SameTables, SameTables-Stored, or_wrap,
}
use cvms.Indexer.Fetch.{Node, Schedule, heights, fetch_summaries}
use cvms.Indexer.Fetch.Honest.{Chain, IsHonest, Delivers, FromChain, Has, fetch_summaries_honest}
use cvms.Indexer.Monikers.{World, on_db}
use cvms.Indexer.Validators.{register_new_validators}
use cvms.Indexer.Calm.{Agrees, ListsIds, Calm, Calm-refl, Calm-trans, Calm-db}
use cvms.Indexer.Calm.Steps.{register_new_validators-Calm, filter_for_monikers_full}
use cvms.Indexer.Batch.{Scheme, summary_at, summary_or_zero, batch_rows, sync_range}
use cvms.Indexer.Batch.Rows.{Implements, batch_rows_known}

module _ {State Row : Type 0} (scheme : Scheme Row) (t : Tables State Row) (id_of : String → ℕ)
    (rows_of : ℕ → ℕ → List Row) where
  -- The rows of the `k` blocks from height `p` on are stored, and the pointer is behind them.
  pub record Indexed (p k : ℕ) (w w' : World State) : Type 0 where
    pub stored :
        Stored t w.indexer.chain_info_id scheme.text.index_name
          (p + k)
          (concat_map (rows_of w.indexer.chain_info_id) (range_from p k))
          w.db
          w'.db
    pub same_chain : w'.indexer.chain_info_id ≡ w.indexer.chain_info_id
    pub same_monikers : w'.indexer.monikers ≡ w.indexer.monikers
    pub keeps_ids : Agrees id_of w'.indexer.vim

module _ {State Row : Type 0} (scheme : Scheme Row) (t : Tables State Row)
    (infos : InfoTable State ValidatorInfo) (laws : TableLaws t) (info_laws : InfoLaws t infos)
    (id_of : String → ℕ) (lists : ListsIds id_of infos) (chain : Chain) (rows_of : ℕ → ℕ → List Row)
    (good : Implements scheme id_of chain rows_of) where
  module _ (make_infos : List String → Result (List ValidatorInfo)) (node : Node)
      (arrive : Schedule BlockSummary) (honest : IsHonest chain node)
      (delivers : Delivers arrive) where
    -- the last height of the batch, in the map and as a number
    end_of :
        (m : Map ℕ BlockSummary) (h : ℕ)
        → FromChain chain m
        → Has h m
        → (summary_at h m).block_height ≡ h
    end_of m h sound (b, has) =
        ap (λ (x : BlockSummary). x.block_height) (ap summary_or_zero has ∙ sound h b has)
        ∙ chain.block_height h

    -- the insert, behind steps that were calm
    store_exact :
        (h k : ℕ) (m : Map ℕ BlockSummary) (votes : List Row) (w v : World State)
        → FromChain chain m
        → Has (suc h + suc k) m
        → Calm t id_of w v
        → Agrees id_of v.indexer.vim
        → votes ≡ concat_map (rows_of v.indexer.chain_info_id) (range_from (suc h) (suc k))
        → Ends
            (λ r w'. (r ≡ suc h + suc k) × Indexed scheme t id_of rows_of (suc h) (suc k) w w')
            (λ w'. Calm t id_of w w')
            (or_wrap "failed to insert from %d to %d height" (
                on_db (
                  insert_batch t scheme.text v.indexer.chain_info_id
                    (summary_at (suc h + suc k) m).block_height
                    votes))
              >> pure (summary_at (suc h + suc k) m).block_height)
            v
    store_exact h k m votes w v sound has calm ids rows =
        let r =
          insert_batch t scheme.text v.indexer.chain_info_id
            (summary_at (suc h + suc k) m).block_height votes v.db in
        let after : World State = record v { db = r.1 } in
        let last = end_of m (suc h + suc k) sound has in
        Post-continue (λ _ w'. Indexed scheme t id_of rows_of (suc h) (suc k) w w')
          (λ n w'. (n ≡ suc h + suc k) × Indexed scheme t id_of rows_of (suc h) (suc k) w w')
          (λ w'. Calm t id_of w w') (wrap "failed to insert from %d to %d height" r.0)
          (λ _. pure (summary_at (suc h + suc k) m).block_height) after
          (Post-wrap (λ _ w'. Indexed scheme t id_of rows_of (suc h) (suc k) w w')
            (λ w'. Calm t id_of w w') "failed to insert from %d to %d height" r.0 after
            (Post-split (λ _ w'. Indexed scheme t id_of rows_of (suc h) (suc k) w w')
              (λ w'. Calm t id_of w w') r.0 after
              (λ e. record {
                stored =
                    SameTables-Stored calm.tables
                      (insert_batch-Stored laws scheme.text v.indexer.chain_info_id
                        (summary_at (suc h + suc k) m).block_height votes v.db e)
                      calm.same_chain last
                      (rows
                        ∙ ap (λ c. concat_map (rows_of c) (range_from (suc h) (suc k)))
                            calm.same_chain);
                same_chain = calm.same_chain;
                same_monikers = calm.same_monikers;
                keeps_ids = ids;
              })
              (λ e. Calm-trans calm (
                Calm-db v r.1 (
                  insert_batch-SameTables laws scheme.text v.indexer.chain_info_id
                    (summary_at (suc h + suc k) m).block_height votes v.db e)))))
          λ _ w' i. (last, i)

    -- The batch of `k + 1` heights behind height `h + 1`.
    pub sync_range_exact :
        (h k : ℕ) (w : World State)
        → Agrees id_of w.indexer.vim
        → w.indexer.monikers ≡ []
        → Ends
            (λ r w'. (r ≡ suc h + suc k) × Indexed scheme t id_of rows_of (suc h) (suc k) w w')
            (λ w'. Calm t id_of w w')
            (sync_range scheme t infos make_infos node arrive (suc (suc h)) (suc h + suc k))
            w
    unfolding sync_range
    sync_range_exact h k w ids full =
        Ends-lift Q E (fetch_summaries node arrive (suc (suc h)) (suc h + suc k)) _ w (Calm-refl w)
          λ m fetched.
            let (sound, has) =
              fetch_summaries_honest chain node arrive (suc (suc h)) (suc h + suc k) m honest
                delivers fetched in
            Ends-bind (λ _ w'. Calm t id_of w w') Q E
              (register_new_validators infos scheme.insert_failed make_infos m) _ w
              (calm-ends (register_new_validators infos scheme.insert_failed make_infos m w) (
                register_new_validators-Calm t infos info_laws id_of lists scheme.insert_failed
                  make_infos m w))
              λ _ v calm.
                Ends-lift Q E
                  (batch_rows scheme v.indexer.chain_info_id v.indexer.vim m
                    (heights (suc (suc h)) (suc h + suc k)))
                  _ v calm
                  λ votes made.
                    let many : suc (suc h + suc k) - suc (suc h) ≡ suc k = omega arith in
                    let one : suc (suc h) - 1 ≡ suc h = omega arith in
                    let (rows, last) =
                      batch_rows_known scheme id_of chain rows_of good v.indexer.vim
                        (calm.keeps_ids ids) m v.indexer.chain_info_id h (suc k) votes sound
                        (rw one at has) (rw many at made) in
                    rw
                      (filter_for_monikers_full infos scheme.row_id votes v
                        (calm.same_monikers ∙ full))
                      (store_exact h k m votes w v sound last calm (calm.keeps_ids ids) rows)
      where
        Q : ℕ → World State → Type 0
        Q r w' = (r ≡ suc h + suc k) × Indexed scheme t id_of rows_of (suc h) (suc k) w w'

        E : World State → Type 0
        E w' = Calm t id_of w w'

        calm-ends :
            {A : Type 0} (x : Result A × World State)
            → Calm t id_of w x.1
            → Post (λ _ w'. Calm t id_of w w') E x.0 x.1
        calm-ends x h = Post-always E x.0 x.1 h
