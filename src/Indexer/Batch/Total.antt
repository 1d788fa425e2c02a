-- ===== src/Indexer/Batch/Total.antt =====
-- A batch returns its end: when the node answers over the window, the validators have ids, the
-- scheme makes rows of each pair of blocks, and the database serves.
use mathlib.Core.Path.{ap₂, subst}
use cvms.Base.{
  concat_map, sym, leb, ◌≤◌, ◌<◌, false, ℕ, zero, suc, ◌+◌, ◌-◌, ◌≤◌, ◌<◌, ◌≡◌, refl, ap, ◌∙◌,
  String, List, [], ◌++◌, arith, nat_eq, ok, Map, range_from, Result,
}
use cvms.Indexer.Types.{BlockSummary, ValidatorInfo, Latest}
use cvms.Indexer.Tables.{Tables, InfoTable}
use cvms.Indexer.Tables.Serves.{Serves, insert_batch_ok}
use cvms.Indexer.Fetch.{end_height, Node, Schedule}
use cvms.Indexer.Fetch.Honest.{
  Chain, summary_of, IsHonest, Delivers, FromChain, Has, fetch_summaries_honest,
}
use cvms.Indexer.Fetch.Answers.{Answers, fetch_summaries_answered}
use cvms.Indexer.Monikers.{World}
use cvms.Indexer.Validators.Known.{Known, register_new_validators-Known}
use cvms.Indexer.Calm.Steps.{filter_for_monikers_full}
use cvms.Indexer.Calm.{Agrees}
use cvms.Indexer.Batch.Rows.{Implements, batch_rows_known}
use cvms.Indexer.Batch.Once.{end_height_ahead}
use cvms.Indexer.Batch.{
  batch_sync, Scheme, summary_at, summary_or_zero, height_rows, batch_rows, sync_range,
}

-- The scheme makes rows of the chain's blocks at `h` and `h + 1`.
abbrev pub Makes : {Row : Type 0} → Scheme Row → Chain → ℕ → Map String ℕ → ℕ → Type 0
Makes {Row = Row} scheme chain c vim h =
    (rows : List Row) × (scheme.pair_rows c vim (summary_of chain h) (summary_of chain (suc h))
      ≡ ok rows)

-- The rows of the blocks from height `from` up to the one before `end`.
abbrev pub window_rows : {Row : Type 0} → (ℕ → ℕ → List Row) → ℕ → ℕ → ℕ → List Row
window_rows rows_of c from end = concat_map (rows_of c) (range_from from (end - from))

summary_at_found :
    (chain : Chain) (m : Map ℕ BlockSummary) (h : ℕ)
    → FromChain chain m
    → Has h m
    → summary_at h m ≡ summary_of chain h
summary_at_found chain m h sound (b, has) = ap summary_or_zero has ∙ sound h b has

module _ {Row : Type 0} (scheme : Scheme Row) (chain : Chain) (c : ℕ) (vim : Map String ℕ) where
  height_rows_made :
      (m : Map ℕ BlockSummary) (h : ℕ)
      → FromChain chain m
      → Has h m
      → Has (suc h) m
      → Makes scheme chain c vim h
      → (rows : List Row) × (height_rows scheme c vim m (suc h) ≡ ok rows)
  unfolding height_rows
  height_rows_made m h sound has has' (rows, e) =
      let same : suc h - 1 ≡ h = omega arith in
      (
        rows,
        ap₂ (scheme.pair_rows c vim)
              (ap (λ k. summary_at k m) same ∙ summary_at_found chain m h sound has)
              (summary_at_found chain m (suc h) sound has')
            ∙ e,
      )

  batch_rows_made :
      (m : Map ℕ BlockSummary) (h n : ℕ)
      → FromChain chain m
      → ((j : ℕ) → h ≤ j → j ≤ h + n → Has j m)
      → ((j : ℕ) → h ≤ j → j < h + n → Makes scheme chain c vim j)
      → (rows : List Row) × (batch_rows scheme c vim m (range_from (suc h) n) ≡ ok rows)
  unfolding batch_rows
  batch_rows_made m h zero sound has makes = ([], refl)
  batch_rows_made m h (suc n) sound has makes =
      let (first, e) =
        height_rows_made m h sound (has h (omega arith) (omega arith))
          (has (suc h) (omega arith) (omega arith)) (makes h (omega arith) (omega arith)) in
      let (rest, e') =
        batch_rows_made m (suc h) n sound (λ j lo hi. has j (omega (arith, lo)) (omega (arith, hi)))
          (λ j lo hi. makes j (omega (arith, lo)) (omega (arith, hi))) in
      let next : suc h + 1 ≡ suc (suc h) = omega arith in (first ++ rest, rw (e, next, e'))

module _ {State Row : Type 0} (scheme : Scheme Row) (t : Tables State Row)
    (infos : InfoTable State ValidatorInfo) (make_infos : List String → Result (List ValidatorInfo))
    (chain : Chain) (id_of : String → ℕ) (rows_of : ℕ → ℕ → List Row)
    (good' : Implements scheme id_of chain rows_of) (node : Node) (arrive : Schedule BlockSummary)
    (honest : IsHonest chain node) (delivers : Delivers arrive) where
  pub sync_range_ok :
      (h k : ℕ) (w : World State)
      → w.indexer.monikers ≡ []
      → Agrees id_of w.indexer.vim
      → Serves t (concat_map (rows_of w.indexer.chain_info_id) (range_from (suc h) (suc k))) w.db
      → ((j : ℕ)
          → suc h ≤ j
          → j ≤ suc h + suc k
          → Answers chain node j × Known w.indexer.vim (summary_of chain j))
      → ((j : ℕ)
          → suc h ≤ j
          → j < suc h + suc k
          → Makes scheme chain w.indexer.chain_info_id w.indexer.vim j)
      → (sync_range scheme t infos make_infos node arrive (suc (suc h)) (suc h + suc k) w).0
        ≡ ok (suc h + suc k)
  unfolding sync_range
  sync_range_ok h k w full agrees serves good makes =
      let (m, fetched, has, known) =
        fetch_summaries_answered (Known w.indexer.vim) chain node arrive h k delivers good in
      let sound =
        (fetch_summaries_honest chain node arrive (suc (suc h)) (suc h + suc k) m honest delivers
          fetched).0 in
      let many : suc (suc h + suc k) - suc (suc h) ≡ suc k = omega arith in
      let (rows, made) =
        batch_rows_made scheme chain w.indexer.chain_info_id w.indexer.vim m (suc h) (suc k) sound
          has makes in
      let (same, _) =
        batch_rows_known scheme id_of chain rows_of good' w.indexer.vim agrees m
          w.indexer.chain_info_id h (suc k) rows sound (has (suc h) (omega arith) (omega arith))
          made in
      let serves' : Serves t rows w.db = subst (λ l. Serves t l w.db) (sym same) serves in
      let last =
        summary_at_found chain m (suc h + suc k) sound
          (has (suc h + suc k) (omega arith) (omega arith)) in
      let height : (summary_at (suc h + suc k) m).block_height ≡ suc h + suc k =
        ap (λ (x : BlockSummary). x.block_height) last ∙ chain.block_height (suc h + suc k) in
      rw
        (
          fetched,
          register_new_validators-Known infos scheme.insert_failed make_infos m w known,
          many,
          made,
          filter_for_monikers_full infos scheme.row_id rows w full,
          height,
          insert_batch_ok t scheme.text w.indexer.chain_info_id (suc h + suc k) rows w.db serves',
        )
        refl

  -- batchSync from height `h + 1`, with a latest height above it that does not fall meanwhile.
  pub batch_sync_ok :
      (latest : Latest) (h : ℕ) (w : World State)
      → suc h < latest.at_guard
      → latest.at_guard ≤ latest.at_end
      → w.indexer.monikers ≡ []
      → Agrees id_of w.indexer.vim
      → Serves t
          (window_rows rows_of w.indexer.chain_info_id (suc h) (end_height latest (suc (suc h))))
          w.db
      → ((j : ℕ)
          → suc h ≤ j
          → j ≤ end_height latest (suc (suc h))
          → Answers chain node j × Known w.indexer.vim (summary_of chain j))
      → ((j : ℕ)
          → suc h ≤ j
          → j < end_height latest (suc (suc h))
          → Makes scheme chain w.indexer.chain_info_id w.indexer.vim j)
      → (batch_sync scheme t infos make_infos node arrive latest (suc h) (suc h + 1) w).0
        ≡ ok (end_height latest (suc (suc h)))
  unfolding batch_sync
  batch_sync_ok latest h w ahead fall full agrees serves good makes =
      let behind : leb latest.at_guard (suc h) ≡ false = ground (arith, ahead) in
      let (k, far) = end_height_ahead latest (suc h) fall behind in
      let next : suc h + 1 ≡ suc (suc h) = omega arith in
      let many : suc h + suc k - suc h ≡ suc k = omega arith in
      rw (behind, next, far)
        (sync_range_ok h k w full agrees (rw many at (rw far at serves))
          (λ j lo hi. good j lo (rw far hi)) (λ j lo hi. makes j lo (rw far hi)))
