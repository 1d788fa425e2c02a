-- ===== src/Checkpoint/Sync/Stores.antt =====
-- What the sync of one epoch in checkpoint/indexer/batch_sync.go stores, told without maps and
-- errors.
use mathlib.Core.Path.{ap₂}
use cvms.Base.{
  string_eq, ℕ, ◌+◌, ◌-◌, ◌≡◌, refl, sym, ap, message, ◌∙◌, String, Option, none, some, List, [],
  ◌∷◌, map, Map, lookup, Result, ok, err, panic, wrap, bind, bind-eq-ok, ok_injective, wrap-eq-ok,
  Exec, pure, lift, ◌>>=◌,
}
use cvms.Base.Post.{Ends, Ends-bind, Post-split, Post-continue, Ends-lift, Post-always, Post-weaken}
use cvms.Indexer.Types.{CosmosValidator, ValidatorInfo}
use cvms.Indexer.Tables.{Tables, InfoTable, Stored, SameTables, TableLaws, InfoLaws}
use cvms.Indexer.Tables.Insert.{
  insert_batch, insert_batch-Stored, insert_batch-SameTables, SameTables-Stored,
}
use cvms.Indexer.Fetch.{Block}
use cvms.Indexer.Monikers.{World}
use cvms.Indexer.Validators.{register_new}
use cvms.Indexer.Calm.{Agrees, ListsIds, Calm, Calm-refl, Calm-trans, Calm-db}
use cvms.Indexer.Calm.Steps.{register_new-Calm, filter_for_monikers_full}
use cvms.Checkpoint.Votes.{
  BabylonExtendVote, BabylonVoteExtension, CheckpointCodecs, EpochVotes, vote_row, or_vote_error,
  extract_babylon_extend_vote_and_block_info, make_babylon_extension_vote,
}
use cvms.Checkpoint.Sync.{
  EpochNode, checkpoint_text, insert_error, new_addresses, store_rows, store_votes, sync_votes,
  sync_epoch,
}

abbrev pub ok_or_empty : Result String → String
ok_or_empty (ok s) = s
ok_or_empty (err _) = ""
ok_or_empty panic = ""

-- One row for each vote, in order: the id of the validator whose address the vote has, and the
-- number of its flag.
abbrev pub rows_of_votes :
    CheckpointCodecs
    → (String → ℕ)
    → ℕ
    → ℕ
    → ℕ
    → ℕ
    → List BabylonExtendVote
    → List BabylonVoteExtension
rows_of_votes codecs id_of c height timestamp epoch votes =
    map
      (λ v.
        vote_row codecs c height timestamp epoch v
          (id_of (ok_or_empty (codecs.decode_address v.validator_address))))
      votes

or_vote_error-eq-ok : {A : Type 0} (r : Result A) {a : A} → or_vote_error r ≡ ok a → r ≡ ok a
or_vote_error-eq-ok (ok b) e = e
or_vote_error-eq-ok (err _) e = cc
or_vote_error-eq-ok panic e = cc

module _ (codecs : CheckpointCodecs) (id_of : String → ℕ) (c height timestamp epoch : ℕ)
    (vim : Map String ℕ) (agrees : Agrees id_of vim) where
  one_vote_known :
      (v : BabylonExtendVote) (i : ℕ) (o : Option ℕ) (rest : Result (List BabylonVoteExtension))
      (rows known : List BabylonVoteExtension)
      → ((id : ℕ) → o ≡ some id → id ≡ i)
      → ((rows' : List BabylonVoteExtension) → rest ≡ ok rows' → rows' ≡ known)
      → (let r : Result (List BabylonVoteExtension) = elim o [
        | none ↦
            err (message "failed to find missed validators hex address id in validator id maps")
        | some id ↦ bind rest λ rows'. ok (vote_row codecs c height timestamp epoch v id ∷ rows')
      ] in
          r)
        ≡ ok rows
      → rows ≡ vote_row codecs c height timestamp epoch v i ∷ known
  one_vote_known v i none rest rows known right tail e = cc
  one_vote_known v i (some id) rest rows known right tail e =
      let (rows', got, made) = bind-eq-ok rest _ e in
      sym (ok_injective made)
      ∙ ap₂ (λ j l. vote_row codecs c height timestamp epoch v j ∷ l) (right id refl)
          (tail rows' got)

  make_babylon_extension_vote_known :
      (votes : List BabylonExtendVote) (rows : List BabylonVoteExtension)
      → make_babylon_extension_vote codecs c vim height timestamp epoch votes ≡ ok rows
      → rows ≡ rows_of_votes codecs id_of c height timestamp epoch votes
  unfolding make_babylon_extension_vote
  make_babylon_extension_vote_known [] rows e = sym (ok_injective e)
  make_babylon_extension_vote_known (v ∷ votes) rows e =
      let (address, decoded, rest) =
        bind-eq-ok (or_vote_error (codecs.decode_address v.validator_address)) _ e in
      let same =
        ap ok_or_empty (or_vote_error-eq-ok (codecs.decode_address v.validator_address) decoded) in
      one_vote_known v _ (lookup address vim)
        (make_babylon_extension_vote codecs c vim height timestamp epoch votes) rows _
        (λ id found. agrees address id found ∙ ap id_of (sym same))
        (make_babylon_extension_vote_known votes) rest

module _ {State : Type 0} (t : Tables State BabylonVoteExtension)
    (infos : InfoTable State ValidatorInfo) (laws : TableLaws t) (info_laws : InfoLaws t infos)
    (id_of : String → ℕ) (lists : ListsIds id_of infos) (codecs : CheckpointCodecs)
    (make_infos : ℕ → List String → Result (List ValidatorInfo)) (answers : EpochNode)
    (epoch height : ℕ) (found : EpochVotes) where
  abbrev votes_rows : ℕ → List BabylonVoteExtension
  votes_rows c =
      rows_of_votes codecs id_of c found.block_height found.block_timestamp epoch found.votes

  -- behind a step that was calm, what the sync of the epoch has to reach
  abbrev pub EpochStored : World State → ℕ → World State → Type 0
  EpochStored w p w' =
      (p ≡ epoch)
      × Stored t w.indexer.chain_info_id checkpoint_text.index_name height
          (votes_rows w.indexer.chain_info_id) w.db w'.db

  abbrev Same : World State → World State → Type 0
  Same w w' = SameTables t w.db w'.db

  store_rows_exact :
      (rows : List BabylonVoteExtension) (w v : World State)
      → Calm t id_of w v
      → rows ≡ votes_rows v.indexer.chain_info_id
      → w.indexer.monikers ≡ []
      → Ends
          (EpochStored w)
          (Same w)
          (store_rows t infos codecs make_infos answers epoch height rows)
          v
  unfolding store_rows
  store_rows_exact rows w v calm known full =
      let c = v.indexer.chain_info_id in
      let r = insert_batch t checkpoint_text c height rows v.db in
      let after : World State = record v { db = r.1 } in
      let P = λ (_ : Unit {0}) (w' : World State).
        Stored t w.indexer.chain_info_id checkpoint_text.index_name height
          (votes_rows w.indexer.chain_info_id) w.db w'.db in
      rw
        (filter_for_monikers_full infos (λ (x : BabylonVoteExtension). x.validator_hex_address_id)
          rows v (calm.same_monikers ∙ full))
        (Post-continue P (EpochStored w) (Same w) r.0 (λ _. pure epoch) after
          (Post-split P (Same w) r.0 after
            (λ e.
              SameTables-Stored calm.tables
                (insert_batch-Stored laws checkpoint_text c height rows v.db e) calm.same_chain refl
                (known ∙ ap votes_rows calm.same_chain))
            (λ e.
              (Calm-trans calm (
                Calm-db v r.1
                  (insert_batch-SameTables laws checkpoint_text c height rows v.db e))).tables))
          (λ _ w' stored. (refl, stored)))

  store_votes_exact :
      (w v : World State)
      → Calm t id_of w v
      → Agrees id_of w.indexer.vim
      → w.indexer.monikers ≡ []
      → Ends
          (EpochStored w)
          (Same w)
          (store_votes t infos codecs make_infos answers epoch height found)
          v
  unfolding store_votes
  store_votes_exact w v calm ids full =
      let c = v.indexer.chain_info_id in
      let made =
        make_babylon_extension_vote codecs c v.indexer.vim found.block_height found.block_timestamp
          epoch found.votes in
      Ends-lift (EpochStored w) (Same w)
        (wrap "failed to make babylon vote extension list at %d epoch" made)
        (store_rows t infos codecs make_infos answers epoch height) v calm.tables
        λ rows e.
          store_rows_exact rows w v calm
            (make_babylon_extension_vote_known codecs id_of c found.block_height
              found.block_timestamp epoch v.indexer.vim (calm.keeps_ids ids) found.votes rows
              (wrap-eq-ok _ made e))
            full

  abbrev register : World State → Block → List CosmosValidator → Exec (World State) (Unit {0})
  register w block validators =
      register_new infos insert_error (make_infos block.height)
        (new_addresses w.indexer.vim block validators)

  abbrev votes_then : Exec (World State) ℕ
  votes_then = sync_votes t infos codecs make_infos answers epoch height

  sync_votes_exact :
      (w v : World State)
      → extract_babylon_extend_vote_and_block_info codecs (answers.block_txs height) ≡ ok found
      → Calm t id_of w v
      → Agrees id_of w.indexer.vim
      → w.indexer.monikers ≡ []
      → Ends (EpochStored w) (Same w) votes_then v
  unfolding sync_votes
  sync_votes_exact w v extracted calm ids full = rw extracted (store_votes_exact w v calm ids full)

  register-Ends :
      (w : World State) (block : Block) (validators : List CosmosValidator)
      → Ends (λ _ v. Calm t id_of w v) (Same w) (register w block validators) w
  register-Ends w block validators =
      let r = register w block validators w in
      let calm =
        register_new-Calm t infos info_laws id_of lists insert_error (make_infos block.height)
          (new_addresses w.indexer.vim block validators) w in
      Post-weaken (λ (_ : Unit {0}) v. Calm t id_of w v) (Same w) (λ _ v. Calm t id_of w v)
        (λ v. Calm t id_of w v) r.0 r.1 (Post-always (λ v. Calm t id_of w v) r.0 r.1 calm)
        (λ _ h. h) (λ h. h.tables)

  -- If the node says that the next epoch starts at `height`, and the first typed message of that
  -- block holds the votes `found`, then the sync of an epoch in a full-mode indexer whose ids are
  -- the database's ends in one of two ways. Without an error it returns the epoch, and exactly one
  -- row for each vote is stored, in order, with the index pointer at `height`. On an error or a
  -- panic neither rows nor pointers have changed.
  pub sync_epoch_exact :
      (w : World State)
      → answers.first_block_height (epoch + 1) ≡ ok height
      → extract_babylon_extend_vote_and_block_info codecs (answers.block_txs height) ≡ ok found
      → Agrees id_of w.indexer.vim
      → w.indexer.monikers ≡ []
      → Ends (EpochStored w) (Same w) (sync_epoch t infos codecs make_infos answers epoch) w
  unfolding sync_epoch
  sync_epoch_exact w first extracted ids full = rw first (
      Ends-lift (EpochStored w) (Same w) (answers.node.get_block (height - 1))
        (λ block. lift (answers.node.get_validators block.height) >>= λ validators.
          register w block validators >>= λ _. votes_then)
        w (Calm-refl {id_of = id_of} w).tables
        λ block _.
          Ends-lift (EpochStored w) (Same w) (answers.node.get_validators block.height)
            (λ validators. register w block validators >>= λ _. votes_then) w
            (Calm-refl {id_of = id_of} w).tables
            λ validators _.
              Ends-bind (λ _ v. Calm t id_of w v) (EpochStored w) (Same w)
                (register w block validators) (λ _. votes_then) w (register-Ends w block validators)
                λ _ v calm. sync_votes_exact w v extracted calm ids full)
