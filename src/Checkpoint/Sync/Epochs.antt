-- ===== src/Checkpoint/Sync/Epochs.antt =====
-- Which epoch a batch of checkpoint/indexer/batch_sync.go is about.
use mathlib.Core.Path.{fun_ext}
use cvms.Base.{
  ℕ, zero, suc, ◌+◌, ◌-◌, ◌≤◌, ◌<◌, ◌≡◌, refl, ap, arith, String, Bool, true, false, List,
  if◌then◌else◌, ltb, ltb→lt, tests, if_ind, Bool-cases, inl, inr, Result, ok, wrap, Exec, lift,
  ◌>>=◌, range_from,
}
use cvms.Indexer.Types.{ValidatorInfo}
use cvms.Indexer.Tables.{Tables, InfoTable}
use cvms.Indexer.Monikers.{World}
use cvms.Checkpoint.Votes.{CheckpointCodecs, BabylonVoteExtension}
use cvms.Checkpoint.Sync.{
  EpochNode, init_epoch_interval, next_epoch, epoch_loop, sync_epoch, sync_finalized,
  checkpoint_batch_sync,
}

-- The new epoch that a retention period, or none, asks for.
pub data NewEpoch (current last : ℕ) : Bool → ℕ → Type 0 where
  all_kept : (n : ℕ) → n ≡ last + 1 → NewEpoch current last true n
  next_one : (n : ℕ) → current ≤ last + 6 → n ≡ last + 1 → NewEpoch current last false n
  recent_one : (n : ℕ) → last + 6 < current → n + 5 ≡ current → NewEpoch current last false n

-- The new epoch lies behind the last one stored. If all is kept it is the one behind the last. With
-- a retention period it is that one, too, if that lies at most 5 below the current epoch, and
-- otherwise it is the one 5 below the current epoch.
pub next_epoch_bounds :
    (persistence : Bool) (current last : ℕ)
    → (last < next_epoch persistence current last)
      × NewEpoch current last persistence (next_epoch persistence current last)
unfolding next_epoch
next_epoch_bounds persistence current last = (ground arith, chosen persistence)
  where
    chosen : (b : Bool) → NewEpoch current last b (next_epoch b current last)
    chosen true = all_kept _ refl
    chosen false = elim (Bool-cases (ltb init_epoch_interval (current - (last + 1)))) [
      | inl far ↦
          let more : last + 6 < current = omega (tests, far) in
          recent_one _ more (rw far (omega (arith, more)))
      | inr near ↦
          let less : current ≤ last + 6 = ground (arith, near) in next_one _ less (rw near refl)
    ]

epoch_loop_from {ℓ} :
    {S : Type ℓ} (body : ℕ → Exec S ℕ) (new start n : ℕ) (w : S)
    → 1 ≤ new
    → start ≤ new
    → new < start + n
    → epoch_loop body new (range_from start n) w ≡ body new w
unfolding epoch_loop
epoch_loop_from body new start zero w pos le lt = ground (arith, le, lt)
epoch_loop_from body new start (suc n) w pos le lt = elim (Bool-cases (ltb start new)) [
  | inl below ↦
      let below' : start < new = ltb→lt start new below in
      let ih =
        epoch_loop_from body new (start + 1) n w pos (omega (arith, below')) (omega (arith, lt)) in
      rw (epoch_loop, below) (if_ind (λ x. x ≡ body new w) (ltb start 1) _ _ ih ih)
  | inr here ↦
      let same : start ≡ new = ground (arith, here, le) in
      let first : ltb start 1 ≡ false = ground (arith, same, pos) in
      rw (epoch_loop, first, here) (ap (λ e. body e w) same)
]

module _ {State : Type 0} (t : Tables State BabylonVoteExtension)
    (infos : InfoTable State ValidatorInfo) (codecs : CheckpointCodecs)
    (make_infos : ℕ → List String → Result (List ValidatorInfo)) (answers : EpochNode) where
  -- the loop comes to the new epoch, if that is finalized
  abbrev pub sync_next : Bool → ℕ → ℕ → Exec (World State) ℕ
  sync_next persistence last current w =
      if ltb (current - 1) (next_epoch persistence current last)
      then (ok last, w)
      else sync_epoch t infos codecs make_infos answers (next_epoch persistence current last) w

  sync_finalized_direct :
      (persistence : Bool) (last current : ℕ) (w : World State)
      → sync_finalized t infos codecs make_infos answers persistence last current w
        ≡ sync_next persistence last current w
  unfolding sync_finalized
  sync_finalized_direct persistence last current w =
      let new = next_epoch persistence current last in
      let bounds = (next_epoch_bounds persistence current last).0 in
      elim (Bool-cases (ltb (current - 1) new)) [
        | inl done ↦ rw done
        | inr ahead ↦
            let le : new ≤ current - 1 = ground (arith, ahead) in
            rw ahead (
              epoch_loop_from (sync_epoch t infos codecs make_infos answers) new 0
                (suc (current - 1)) w (omega (arith, bounds)) (omega arith) (omega (arith, le)))
      ]

  -- A batch asks for the current epoch, and then either returns the last index point, if the new
  -- epoch is not finalized yet, or it is the sync of the new epoch: the loop over all epochs comes
  -- to no other, and never to the error behind it.
  pub checkpoint_batch_direct :
      (persistence : Bool) (last : ℕ) (w : World State)
      → checkpoint_batch_sync t infos codecs make_infos answers persistence last w
        ≡ (lift (wrap "failed to call current epoch api" answers.current_epoch) >>= λ parsed.
              lift (wrap "failed to parse current epoch response" parsed)
              >>= sync_next persistence last)
            w
  unfolding checkpoint_batch_sync
  checkpoint_batch_direct persistence last w =
      ap
        (λ (f : ℕ → Exec (World State) ℕ).
          (lift (wrap "failed to call current epoch api" answers.current_epoch) >>= λ parsed.
          lift (wrap "failed to parse current epoch response" parsed) >>= f)
            w)
        (fun_ext λ current. fun_ext λ w'. sync_finalized_direct persistence last current w')
