-- ===== src/Indexer/Validators.antt =====
-- The step of a batch that looks for validators without an id, stores them, and reads the ids
-- back into `Vim`; and FetchValidatorInfoList.
pub mod Known
use cvms.Base.{
  Error, ℕ, String, Bool, true, false, List, [], ◌∷◌, if◌then◌else◌, Map, put, exist, keys, values,
  Result, ok, err, panic, Exec, lift, gets, ◌>>=◌, ◌>>◌, string_eq,
}
use cvms.Indexer.Types.{CosmosValidator, BlockSummary, ValidatorInfo}
use cvms.Indexer.Tables.{InfoTable}
use cvms.Indexer.Tables.Insert.{or_wrap}
use cvms.Indexer.Monikers.{World, on_db, set_indexer}

-- newValidatorAddressMap and isNewValidator
abbrev pub NewAddresses : Type 0
NewAddresses = Map String Bool × Bool

unfoldable pub note_address : Map String ℕ → String → NewAddresses → NewAddresses
note_address vim address (found, is_new) =
    if exist address vim then (found, is_new) else (put address true found, true)

unfoldable pub note_validators : Map String ℕ → List CosmosValidator → NewAddresses → NewAddresses
unfolding note_address
note_validators vim [] acc = acc
note_validators vim (v ∷ vs) acc = note_validators vim vs (note_address vim v.address acc)

unfoldable pub note_summaries : Map String ℕ → List BlockSummary → NewAddresses → NewAddresses
unfolding note_validators
note_summaries vim [] acc = acc
note_summaries vim (b ∷ bs) acc =
    note_summaries vim bs
      (note_validators vim b.cosmos_validators (note_address vim b.block_proposer_address acc))

-- Vim[validator.HexAddress] = validator.ID, for each
unfoldable pub learn_ids : List ValidatorInfo → Map String ℕ → Map String ℕ
learn_ids [] vim = vim
learn_ids (v ∷ vs) vim = learn_ids vs (put v.hex_address v.id vim)

-- The error of MakeValidatorInfoList is wrapped and dropped, and its list is then nil.
abbrev pub or_nil {ℓ} : {A : Type ℓ} → Result (List A) → Result (List A)
or_nil (ok l) = ok l
or_nil (err e) = ok []
or_nil panic = panic

module _ {State : Type 0} (infos : InfoTable State ValidatorInfo) where
  -- GetValidatorInfoListByChainInfoID, and its ids into Vim
  unfoldable pub read_ids : String → Exec (World State) (Unit {0})
  unfolding learn_ids
  read_ids text w =
      (do
        found ← or_wrap text (on_db (infos.list_by_chain_info_id w.indexer.chain_info_id))
        now ← gets (λ w'. w'.indexer)
        set_indexer (record now { vim = learn_ids found now.vim }))
        w

  unfoldable pub fetch_validator_info_list : Exec (World State) (Unit {0})
  unfolding read_ids
  fetch_validator_info_list = read_ids "failed to get validator info list"

  -- After a failed insert the ids are read again, whatever comes of it, and the batch fails.
  unfoldable pub insert_or_reread :
      (Error → Error) → List ValidatorInfo → Exec (World State) (Unit {0})
  unfolding fetch_validator_info_list
  insert_or_reread fail l w = elim (infos.insert_list l w.db).0 [
    | ok _ ↦ (ok tt, record w { db = (infos.insert_list l w.db).1 })
    | err e ↦ (
      err (fail e),
      (fetch_validator_info_list (record w { db = (infos.insert_list l w.db).1 })).1,
    )
    | panic ↦ (panic, record w { db = (infos.insert_list l w.db).1 })
  ]

  -- `fail` is what the batch makes of the error of the insert, and `make_infos` is MakeValidatorInfoList on the keys of newValidatorAddressMap.
  unfoldable pub register_new :
      (Error → Error)
      → (List String → Result (List ValidatorInfo))
      → NewAddresses
      → Exec (World State) (Unit {0})
  unfolding insert_or_reread read_ids
  register_new fail make_infos (found, is_new) w =
      if is_new
      then ((do
        l ← lift (or_nil (make_infos (keys found)))
        insert_or_reread fail l
        read_ids "failed to get new validator info list after inserting new hex address list")
          w)
      else (ok tt, w)

  unfoldable pub register_new_validators :
      (Error → Error)
      → (List String → Result (List ValidatorInfo))
      → Map ℕ BlockSummary
      → Exec (World State) (Unit {0})
  unfolding register_new note_summaries
  register_new_validators fail make_infos summaries w =
      register_new fail make_infos (note_summaries w.indexer.vim (values summaries) ([], false)) w
