-- ===== src/Amplifier/Sync/Points.antt =====
-- The index points of the amplifier-verifier indexer.
use cvms.Base.{
  ℕ, ◌+◌, ◌≤◌, ◌<◌, ◌≡◌, refl, arith, Option, none, some, Map, String, Result, wrap, Exec, lift,
  gets, pure, false, [], ◌⊎◌, inl, inr,
}
use cvms.Base.Post.{Ends, Ends-last, Post-weaken}
use cvms.Indexer.Types.{batch_sync_limit}
use cvms.Indexer.Tables.{InfoTable}
use cvms.Indexer.Fetch.{Schedule, heights}
use cvms.Indexer.Monikers.{World, on_db}
use cvms.Amplifier.Polls.{PollCodecs}
use cvms.Amplifier.Contracts.{ContractInfo}
use cvms.Amplifier.Tables.{AmplifierTables, store_polls}
use cvms.Amplifier.Sync.{
  PollDataSummary, VerifierInfo, PollNode, note_heights, poll_window, window_votes,
}
use cvms.Amplifier.Sync.Batch.{
  filter_lists, register_verifiers, store_lists, store_window, fetch_window, sync_window,
  amplifier_batch_sync,
}

-- Behind `last`, a new point is at most the latest height, and at most 11 blocks on.
pub record IsNextPoint (latest last p : ℕ) : Type 0 where
  pub ahead : last < p
  pub at_most_latest : p ≤ latest
  pub at_most_limit : p ≤ last + 1 + batch_sync_limit

poll_window-IsNextPoint :
    (latest last end : ℕ) → poll_window latest (last + 1) ≡ some end → IsNextPoint latest last end
unfolding poll_window
poll_window-IsNextPoint latest last end e = record {
  ahead = ground (arith, e);
  at_most_latest = ground (arith, e);
  at_most_limit = ground (arith, e);
}

module _ {State : Type 0} (t : AmplifierTables State) (infos : InfoTable State VerifierInfo)
    (c : PollCodecs) (node : PollNode) (arrive : Schedule PollDataSummary)
    (contracts : Result (Map String ContractInfo)) where
  -- An action that returns, if anything, `end`.
  abbrev Returns : ℕ → Exec (World State) ℕ → World State → Type 0
  Returns end m w = Ends (λ p _. p ≡ end) (λ _. Unit {0}) m w

  store_window-Returns :
      (start end : ℕ) (known : Map String ContractInfo) (m : Map ℕ PollDataSummary)
      (w : World State)
      → Returns end (store_window t infos c node arrive contracts start end known m) w
  unfolding store_window
  store_window-Returns start end known m w =
      Ends-last (λ p. p ≡ end)
        (register_verifiers t infos (note_heights w.indexer.vim m (heights start end) ([], false)))
        _ w
        λ _ w1.
          Ends-last (λ p. p ≡ end) (gets (λ (w' : World State). w'.indexer)) _ w1
            λ indexer w2.
              Ends-last (λ p. p ≡ end)
                (lift
                  (window_votes c indexer.chain_info_id known indexer.vim m (heights start end)))
                _ w2
                λ lists w3.
                  Ends-last (λ p. p ≡ end) (filter_lists t infos lists)
                    (store_lists t infos c node arrive contracts end) w3
                    λ kept w4.
                      Ends-last (λ p. p ≡ end)
                        (on_db (store_polls t w4.indexer.chain_info_id end kept.0 kept.1))
                        (λ _. pure end) w4 λ _ w5. refl

  sync_window-Returns :
      (last end : ℕ) (w : World State)
      → Returns end (sync_window t infos c node arrive contracts last (some end)) w
  unfolding sync_window
  sync_window-Returns last end w =
      Ends-last (λ p. p ≡ end)
        (lift (wrap "failed get verifier register contract address" contracts)) _ w
        λ known w1.
          Ends-last (λ p. p ≡ end)
            (lift (fetch_window t infos c node arrive contracts (last + 1) end))
            (store_window t infos c node arrive contracts (last + 1) end known) w1
            λ m w2. store_window-Returns (last + 1) end known m w2

  -- A batch that returns no error returns the point it was given, or one that lies ahead of it, at
  -- most the latest height and at most 11 blocks on.
  pub amplifier_batch_points :
      (latest last : ℕ) (w : World State)
      → Ends
          (λ p _. (p ≡ last) ⊎ IsNextPoint latest last p)
          (λ _. Unit {0})
          (amplifier_batch_sync t infos c node arrive contracts latest last)
          w
  unfolding amplifier_batch_sync sync_window
  amplifier_batch_points latest last w = go (poll_window latest (last + 1)) refl
    where
      go :
          (o : Option ℕ)
          → poll_window latest (last + 1) ≡ o
          → Ends
              (λ p _. (p ≡ last) ⊎ IsNextPoint latest last p)
              (λ _. Unit {0})
              (sync_window t infos c node arrive contracts last o)
              w
      go none e = inl refl
      go (some end) e =
          Post-weaken (λ p (_ : World State). (p ≡ last) ⊎ IsNextPoint latest last p)
            (λ _. Unit {0}) (λ p _. p ≡ end) (λ _. Unit {0}) _ _ (sync_window-Returns last end w)
            (λ p same. inr (rw same (poll_window-IsNextPoint latest last end e))) (λ x. x)
