-- ===== src/Indexer/Loop/Invariant.antt =====
-- An invariant of the index point and the world that every batch keeps, whether it returns, fails
-- or panics, holds after any turns.
use cvms.Base.{
  if_ind, String, continue, ℕ, ◌+◌, Bool, List, [], ◌∷◌, All, Result, ok, err, panic, ◌||◌,
}
use cvms.Base.Post.{Post, Ends}
use cvms.Indexer.Monikers.{World}
use cvms.Indexer.Loop.{
  Client, LoopState, Round, take_api, take_rpc, is_empty, health_check, after_sync, turn, run,
}

module _ {State : Type 0} (P : ℕ → World State → Type 0) where
  -- Of every turn: the batch moves the invariant to the index point that it returns, or keeps it.
  abbrev pub Keeps : Round State → Type 0
  Keeps r =
      (client : Client) (p : ℕ) (w : World State)
      → P p w
      → Ends (λ p' w'. P p' w') (λ w'. P p w') (r.sync client p (p + 1)) w

  abbrev pub Holds : LoopState State → Type 0
  Holds s = P s.index_point s.world

  take_api-Holds : (apis : List String) (s : LoopState State) → Holds s → Holds (take_api apis s)
  take_api-Holds [] s h = h
  take_api-Holds (a ∷ _) s h = h

  take_rpc-Holds : (rpcs : List String) (s : LoopState State) → Holds s → Holds (take_rpc rpcs s)
  take_rpc-Holds [] s h = h
  take_rpc-Holds (a ∷ _) s h = h

  health_check-Holds :
      (r : Round State) (s : LoopState State) → Holds s → Holds (health_check r s).0
  unfolding health_check
  health_check-Holds r s h =
      let taken =
        take_rpc-Holds r.health_rpcs (take_api r.health_apis s)
          (take_api-Holds r.health_apis s h) in
      if_ind (λ (z : LoopState State × Bool). Holds z.0) s.is_unhealth _ _
        (if_ind (λ (z : LoopState State × Bool). Holds z.0)
          (is_empty r.health_apis || is_empty r.health_rpcs) _ _ taken taken)
        h

  after_sync-Holds :
      (s : LoopState State) (out : Result ℕ) (w : World State)
      → Post (λ p' w'. P p' w') (λ w'. P s.index_point w') out w
      → Holds (after_sync s out w).1
  after_sync-Holds s (ok p) w h = h
  after_sync-Holds s (err e) w h = h
  after_sync-Holds s panic w h = h

  turn-Holds : (r : Round State) (s : LoopState State) → Keeps r → Holds s → Holds (turn r s).1
  unfolding turn
  turn-Holds r s keeps h =
      let s' = (health_check r s).0 in
      let checked = health_check-Holds r s h in
      let out = r.sync s'.client s'.index_point (s'.index_point + 1) s'.world in
      if_ind (λ (z : Result (Unit {0}) × LoopState State). Holds z.1) (health_check r s).1 _ _
        checked (after_sync-Holds s' out.0 out.1 (keeps s'.client s'.index_point s'.world checked))

  run_on :
      (rounds : List (Round State)) (r : Result (Unit {0})) (s : LoopState State)
      → Holds s
      → Holds (run rounds s).1
      → Holds (let x : Result (Unit {0}) × LoopState State = continue r (λ _. run rounds) s in x).1
  run_on rounds (ok _) s h k = k
  run_on rounds (err e) s h k = h
  run_on rounds panic s h k = h

  pub run-Holds :
      (rounds : List (Round State)) (s : LoopState State)
      → All Keeps rounds
      → Holds s
      → Holds (run rounds s).1
  unfolding run
  run-Holds [] s k h = h
  run-Holds (r ∷ rounds) s (k, ks) h =
      let h' = turn-Holds r s k h in
      run_on rounds (turn r s).0 (turn r s).1 h' (run-Holds rounds (turn r s).1 ks h')
