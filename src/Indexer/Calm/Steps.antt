-- ===== src/Indexer/Calm/Steps.antt =====
-- The steps before the insert, one by one: whatever they return, they are calm.
use cvms.Base.{
  if_true, ℕ, ◌≡◌, refl, ap, String, false, List, [], ◌==◌, string_eq, nat_eq, length, Map, keys,
  values, All, Error, Result, ok, err, panic, wrap, wrap-eq-ok,
}
use cvms.Indexer.Types.{BlockSummary, ValidatorInfo}
use cvms.Indexer.Tables.{Tables, InfoTable, InfoLaws}
use cvms.Indexer.Monikers.{World, load_moniker_ids, filter_for_monikers}
use cvms.Indexer.Validators.{
  NewAddresses, note_summaries, learn_ids, or_nil, read_ids, fetch_validator_info_list,
  insert_or_reread, register_new, register_new_validators,
}
use cvms.Indexer.Calm.{
  ListsIds, learn_ids-Agrees, Calm, Calm-refl, Calm-trans, Calm-db, Calm-continue, Calm-if,
}

module _ {State Row : Type 0} (t : Tables State Row) (infos : InfoTable State ValidatorInfo)
    (laws : InfoLaws t infos) (id_of : String → ℕ) (lists : ListsIds id_of infos) where
  Calm-learn :
      (w : World State) (l : List ValidatorInfo)
      → All (λ (i : ValidatorInfo). i.id ≡ id_of i.hex_address) l
      → Calm t id_of w (record w { indexer = record w.indexer { vim = learn_ids l w.indexer.vim } })
  Calm-learn w l h = record {
    tables = record { same_rows = refl; same_pointer = λ c n. refl };
    same_chain = refl;
    same_monikers = refl;
    keeps_ids = learn_ids-Agrees id_of l w.indexer.vim h;
  }

  pub read_ids-Calm : (text : String) (w : World State) → Calm t id_of w (read_ids infos text w).1
  unfolding read_ids
  read_ids-Calm text w =
      let c = w.indexer.chain_info_id in
      let r = infos.list_by_chain_info_id c w.db in
      Calm-continue (wrap text r.0) _ w (record w { db = r.1 })
        (Calm-db w r.1 (laws.list_keeps c w.db))
        λ l e. Calm-learn (record w { db = r.1 }) l (lists c w.db l (wrap-eq-ok text r.0 e))

  insert_or_reread-Calm :
      (fail : Error → Error) (l : List ValidatorInfo) (w : World State)
      → Calm t id_of w (insert_or_reread infos fail l w).1
  unfolding insert_or_reread
  insert_or_reread-Calm fail l w = go (infos.insert_list l w.db).0
    where
      after : World State
      after = record w { db = (infos.insert_list l w.db).1 }

      calm : Calm t id_of w after
      calm = Calm-db w after.db (laws.insert_keeps l w.db)

      go :
          (r : Result (Unit {0}))
          → Calm t id_of w
              (let x : Result (Unit {0}) × World State = elim r [
                | ok _ ↦ (ok tt, after)
                | err e ↦ (err (fail e), (fetch_validator_info_list infos after).1)
                | panic ↦ (panic, after)
              ] in
                x).1
      go (ok _) = calm
      go (err e) = Calm-trans calm (read_ids-Calm "failed to get validator info list" after)
      go panic = calm

  pub register_new-Calm :
      (fail : Error → Error) (make_infos : List String → Result (List ValidatorInfo))
      (acc : NewAddresses) (w : World State)
      → Calm t id_of w (register_new infos fail make_infos acc w).1
  unfolding register_new
  register_new-Calm fail make_infos (found, is_new) w =
      Calm-if is_new w _ _
        (Calm-continue (or_nil (make_infos (keys found))) _ w w (Calm-refl w) λ l _.
          Calm-continue (insert_or_reread infos fail l w).0 _ w (insert_or_reread infos fail l w).1
            (insert_or_reread-Calm fail l w)
            λ _ _. read_ids-Calm _ (insert_or_reread infos fail l w).1)
        (Calm-refl w)

  pub register_new_validators-Calm :
      (fail : Error → Error) (make_infos : List String → Result (List ValidatorInfo))
      (m : Map ℕ BlockSummary) (w : World State)
      → Calm t id_of w (register_new_validators infos fail make_infos m w).1
  unfolding register_new_validators
  register_new_validators-Calm fail make_infos m w =
      register_new-Calm fail make_infos (note_summaries w.indexer.vim (values m) ([], false)) w

  pub filter_for_monikers-Calm {ℓ} :
      {R : Type ℓ} (row_id : R → ℕ) (rows : List R) (w : World State)
      → Calm t id_of w (filter_for_monikers infos (λ (i : ValidatorInfo). i.id) row_id rows w).1
  unfolding filter_for_monikers load_moniker_ids
  filter_for_monikers-Calm row_id rows w =
      let r = infos.list_by_monikers w.indexer.chain_info_id w.indexer.monikers w.db in
      let after : World State = record w { db = r.1 } in
      Calm-if (length w.indexer.monikers == 0) w _ _ (Calm-refl w) (
        Calm-continue (load_moniker_ids infos (λ (i : ValidatorInfo). i.id) w).0 _ w
          (load_moniker_ids infos (λ (i : ValidatorInfo). i.id) w).1
          (Calm-if (length w.indexer.moniker_id_map == length w.indexer.monikers) w _ _
            (Calm-refl w)
            (Calm-continue (wrap "failed to get validator_info list by monikers" r.0) _ w after
              (Calm-db w r.1 (laws.monikers_keeps w.indexer.chain_info_id w.indexer.monikers w.db))
              λ l _. record {
                tables = record { same_rows = refl; same_pointer = λ c n. refl };
                same_chain = refl;
                same_monikers = refl;
                keeps_ids = λ h. h;
              }))
          λ _ _. Calm-refl _)

-- With no monikers configured every row is kept.
pub filter_for_monikers_full {ℓ} :
    {State : Type 0} (infos : InfoTable State ValidatorInfo) {R : Type ℓ} (row_id : R → ℕ)
    (rows : List R) (w : World State)
    → w.indexer.monikers ≡ []
    → filter_for_monikers infos (λ (i : ValidatorInfo). i.id) row_id rows w ≡ (ok rows, w)
unfolding filter_for_monikers
filter_for_monikers_full infos row_id rows w e =
    if_true (ok rows, w) _ (ap (λ (l : List String). length l == 0) e)
