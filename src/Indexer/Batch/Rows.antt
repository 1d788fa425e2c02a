-- ===== src/Indexer/Batch/Rows.antt =====
-- The rows of a batch, for a scheme whose pairs of blocks give what they ought to.
use cvms.Base.{
  bind-eq-ok, ℕ, zero, suc, ◌+◌, ◌-◌, ◌≡◌, ◌≢◌, sym, ap, ◌∙◌, inl, inr, String, List, arith, nat_eq,
  Option-cases, ok, Map, lookup, range_from, concat_map,
}
use cvms.Indexer.Types.{BlockSummary, zero_summary}
use cvms.Indexer.Fetch.Honest.{Chain, summary_of, FromChain, Has}
use cvms.Indexer.Calm.{Agrees}
use cvms.Indexer.Batch.{Scheme, summary_at, summary_or_zero, height_rows, batch_rows}

-- `rows_of` gives, for a chain's id and a height, the rows that the chain's block there ought to
-- have; a pair of the chain's blocks gives those or fails, and one without its second block fails.
pub record Implements {Row : Type 0} (scheme : Scheme Row) (id_of : String → ℕ) (chain : Chain)
    (rows_of : ℕ → ℕ → List Row) : Type 0 where
  pub pair_known :
      (vim : Map String ℕ)
      → Agrees id_of vim
      → (c h : ℕ) (rows : List Row)
      → scheme.pair_rows c vim (summary_of chain h) (summary_of chain (suc h)) ≡ ok rows
      → rows ≡ rows_of c h
  pub pair_missing :
      (vim : Map String ℕ) (c h : ℕ) (rows : List Row)
      → scheme.pair_rows c vim (summary_of chain (suc h)) zero_summary ≢ ok rows

module _ {Row : Type 0} (scheme : Scheme Row) (id_of : String → ℕ) (chain : Chain)
    (rows_of : ℕ → ℕ → List Row) (good : Implements scheme id_of chain rows_of) (vim : Map String ℕ)
    (agrees : Agrees id_of vim) where
  height_rows_known :
      (m : Map ℕ BlockSummary) (c h : ℕ) (rows : List Row)
      → FromChain chain m
      → Has (suc h) m
      → height_rows scheme c vim m (suc (suc h)) ≡ ok rows
      → (rows ≡ rows_of c (suc h)) × Has (suc (suc h)) m
  unfolding height_rows
  height_rows_known m c h rows sound (b, has) e =
      let same : suc (suc h) - 1 ≡ suc h = omega arith in
      let last : summary_at (suc h) m ≡ summary_of chain (suc h) =
        ap summary_or_zero has ∙ sound (suc h) b has in
      let e' : scheme.pair_rows c vim (summary_of chain (suc h)) (summary_at (suc (suc h)) m)
          ≡ ok rows =
        sym (
          ap (λ x. scheme.pair_rows c vim x (summary_at (suc (suc h)) m))
            (ap (λ k. summary_at k m) same ∙ last))
        ∙ e in
      elim (Option-cases (lookup (suc (suc h)) m)) [
        | inl missing ↦ absurd (
            good.pair_missing vim c h rows (
              sym (
                ap (scheme.pair_rows c vim (summary_of chain (suc h))) (ap summary_or_zero missing))
              ∙ e'))
        | inr (b', found) ↦ (
          good.pair_known vim agrees c (suc h) rows (
              sym (
                ap (scheme.pair_rows c vim (summary_of chain (suc h)))
                  (ap summary_or_zero found ∙ sound (suc (suc h)) b' found))
              ∙ e'),
          (b', found),
        )
      ]

  -- A batch that succeeds has the rows of each block from the one before its first height on.
  pub batch_rows_known :
      (m : Map ℕ BlockSummary) (c h n : ℕ) (rows : List Row)
      → FromChain chain m
      → Has (suc h) m
      → batch_rows scheme c vim m (range_from (suc (suc h)) n) ≡ ok rows
      → (rows ≡ concat_map (rows_of c) (range_from (suc h) n)) × Has (suc h + n) m
  unfolding batch_rows
  batch_rows_known m c h zero rows sound has e =
      let same : suc h + 0 ≡ suc h = omega arith in (cc, rw same has)
  batch_rows_known m c h (suc n) rows sound has e =
      let (first, one, e') = bind-eq-ok (height_rows scheme c vim m (suc (suc h))) _ e in
      let next : suc (suc h) + 1 ≡ suc (suc (suc h)) = omega arith in
      let (rest, more, e'') =
        bind-eq-ok (batch_rows scheme c vim m (range_from (suc (suc h) + 1) n)) _ e' in
      let (p, has') = height_rows_known m c h first sound has one in
      let (q, has'') =
        batch_rows_known m c (suc h) n rest sound has'
          (sym (ap (λ k. batch_rows scheme c vim m (range_from k n)) next) ∙ more) in
      let step : suc h + 1 ≡ suc (suc h) = omega arith in
      let far : suc h + suc n ≡ suc (suc h) + n = omega arith in
      (cc (p, q, e'', step), rw far has'')
