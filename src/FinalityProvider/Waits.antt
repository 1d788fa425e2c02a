-- ===== src/FinalityProvider/Waits.antt =====
-- The finality-provider indexer keeps behind the chain: its window, and what a height without votes
-- does to a batch.
use mathlib.Core.Path.{subst}
use cvms.Base.{
  nat_eq, ℕ, suc, ◌+◌, ◌-◌, ◌≤◌, ◌<◌, ◌≡◌, refl, ◌⊎◌, inl, inr, String, Bool-cases, none, some,
  List, [], ◌∷◌, ◌++◌, arith, ltb, Map, put, Result, ok, err, message, concat_map,
}
use cvms.Indexer.Fetch.{FetchResult, success, failure, Schedule, heights, collect, collected}
use cvms.Indexer.Fetch.Honest.{Delivers}
use cvms.Indexer.Fetch.Answers.{In, In-perm, In-range_from}
use cvms.Indexer.Tables.{Tables, InfoTable}
use cvms.Indexer.Monikers.{World}
use cvms.FinalityProvider.Votes.{
  FinalityVoteSummary, BabylonFinalityProviderVote, FpNode, sent_votes, fetch_votes,
}
use cvms.FinalityProvider.Sync.{
  FinalityProviderInfo, fp_window, fetch_window, fp_sync_range, fp_batch_sync,
}

-- Behind index point `last` there is no window while the latest height is at most 3 above it. Else
-- the window starts at the next height, ends at least 3 below the latest height, and has at most 11
-- heights.
pub fp_window_bounds :
    (latest last : ℕ)
    → ((fp_window latest (suc last) ≡ none) × (latest ≤ last + 3))
      ⊎ ((end : ℕ) × (fp_window latest (suc last) ≡ some end)
          × (last < end)
          × (end + 3 ≤ latest)
          × (end ≤ last + 11))
unfolding fp_window
fp_window_bounds latest last = elim (Bool-cases (ltb (latest - 3) (suc last))) [
  | inl near ↦ inl (rw near refl, ground (arith, near))
  | inr far ↦ elim (Bool-cases (ltb 10 (latest - 3 - suc last))) [
    | inl many ↦
        inr
          (suc last + 10, rw (far, many) refl, omega arith, ground (arith, far, many), omega arith)
    | inr few ↦ inr (
      latest - 3,
      rw (far, few) refl,
      ground (arith, far),
      ground (arith, far),
      ground (arith, far, few),
    )
  ]
]

In-append_left : {A : Type 0} (x : A) (l k : List A) → In x l → In x (l ++ k)
In-append_left x [] k i = absurd i
In-append_left x (y ∷ l) k (inl e) = inl e
In-append_left x (y ∷ l) k (inr i) = inr (In-append_left x l k i)

In-append_right : {A : Type 0} (x : A) (l k : List A) → In x k → In x (l ++ k)
In-append_right x [] k i = i
In-append_right x (y ∷ l) k i = inr (In-append_right x l k i)

In-concat_map :
    {A B : Type 0} (f : A → List B) (a : A) (b : B) (l : List A)
    → In a l
    → In b (f a)
    → In b (concat_map f l)
In-concat_map f a b [] i j = absurd i
In-concat_map f a b (x ∷ l) (inl e) j =
    In-append_left b (f x) (concat_map f l) (subst (λ y. In b (f y)) e j)
In-concat_map f a b (x ∷ l) (inr i) j =
    In-append_right b (f x) (concat_map f l) (In-concat_map f a b l i j)

module _ {Item : Type 0} (height_of : Item → ℕ) where
  errors_grow :
      (l : List (FetchResult Item)) (m : Map ℕ Item) (n : ℕ) → n ≤ (collect height_of l (m, n)).1
  unfolding collect
  errors_grow [] m n = omega arith
  errors_grow (success item ∷ l) m n = errors_grow l (put (height_of item) item m) n
  errors_grow (failure ∷ l) m n = omega (arith, errors_grow l m (n + 1))

  failure_counts :
      (l : List (FetchResult Item)) (m : Map ℕ Item) (n : ℕ)
      → In failure l
      → n < (collect height_of l (m, n)).1
  unfolding collect
  failure_counts [] m n i = absurd i
  failure_counts (success item ∷ l) m n (inl e) = cc
  failure_counts (success item ∷ l) m n (inr i) = failure_counts l (put (height_of item) item m) n i
  failure_counts (failure ∷ l) m n i = omega (arith, errors_grow l m (n + 1))

  collected_failure :
      (m : Map ℕ Item) (l : List (FetchResult Item)) (text : String)
      → In failure l
      → collected height_of m l text ≡ err (message text)
  unfolding collected
  collected_failure m l text i = ground (arith, failure_counts l m 0 i)

not_voted :
    (node : FpNode) (h : ℕ) (fps : List String)
    → node.get_active_finality_provider_by_height h ≡ ok fps
    → node.get_finality_votes_by_height h ≡ ok []
    → In failure (fetch_votes node h)
unfolding fetch_votes sent_votes
not_voted node h fps a v = rw (a, v) (inl refl)

collect_error : String
collect_error = "failed to collect batch block data, total errors: %d"

fetch_window_waits :
    (node : FpNode) (arrive : Schedule FinalityVoteSummary) (start end h : ℕ)
    → Delivers arrive
    → start ≤ h
    → h ≤ end
    → In failure (fetch_votes node h)
    → fetch_window node arrive start end ≡ err (message collect_error)
unfolding fetch_window collect_error
fetch_window_waits node arrive start end h delivers lo hi i =
    collected_failure (λ s. s.block_height) [] _ collect_error
      (In-perm failure (delivers (concat_map (fetch_votes node) (heights start end))) (
        In-concat_map (fetch_votes node) h failure (heights start end)
          (In-range_from h start (suc end - start) lo (omega (arith, lo, hi))) i))

-- While the votes for a height of the window are still empty, the batch fails with the error of
-- collecting and changes nothing, in whatever order the messages arrive, though a summary of that
-- height is sent too.
pub fp_batch_sync_waits :
    {State : Type 0} (infos : InfoTable State FinalityProviderInfo)
    (t : Tables State BabylonFinalityProviderVote)
    (make_infos : List String → Result (List FinalityProviderInfo)) (node : FpNode)
    (arrive : Schedule FinalityVoteSummary) (now latest last end h : ℕ) (fps : List String)
    (w : World State)
    → Delivers arrive
    → fp_window latest (last + 1) ≡ some end
    → last < h
    → h ≤ end
    → node.get_active_finality_provider_by_height h ≡ ok fps
    → node.get_finality_votes_by_height h ≡ ok []
    → fp_batch_sync infos t make_infos node arrive now latest last w
      ≡ (err (message "failed to collect batch block data, total errors: %d"), w)
unfolding fp_batch_sync fp_sync_range collect_error
fp_batch_sync_waits infos t make_infos node arrive now latest last end h fps w delivers window lo hi
      a v =
    rw
      (
        window,
        fetch_window_waits node arrive (last + 1) end h delivers (omega (arith, lo)) hi
            (not_voted node h fps a v),
      )
      refl
