-- ===== src/Indexer/Start.antt =====
-- Start and InitChainInfoID of voteindexer/indexer/indexer.go, up to the goroutines: the chain's id
-- and the last index pointer. The meta repository (internal/common/indexer/repository) is a
-- parameter: SQL.
pub mod Retries
use cvms.Base.{
  ℕ, zero, suc, String, Bool, true, false, Option, none, some, if◌then◌else◌, Error, Result, ok,
  err, panic, wrapped, Exec, pure, gets, continue, ◌>>=◌, ◌>>◌,
}
use cvms.Indexer.Types.{Indexer, ValidatorInfo}
use cvms.Indexer.Tables.{InfoTable}
use cvms.Indexer.Tables.Insert.{or_wrap}
use cvms.Indexer.Monikers.{World, on_db, set_indexer}
use cvms.Indexer.Validators.{fetch_validator_info_list}

pub record MetaRepository (State : Type 0) : Type 0 where
  -- sql.ErrNoRows is `none`
  pub select_chain_info_id_by_chain_id : String → Exec State (Option ℕ)
  pub insert_chain_info : String → String → Exec State ℕ
  pub check_index_pointer_already_initialized : String → ℕ → Exec State Bool
  pub init_partition_tables_by_chain_info_id : String → String → Exec State (Unit {0})
  pub get_last_index_pointer : String → ℕ → Exec State ℕ

abbrev pub max_back_off_cnt : ℕ
max_back_off_cnt = 5

module _ {State : Type 0} (repo : MetaRepository State) (index_name : String) where
  abbrev pub new_chain : Option ℕ → Exec (World State) ℕ
  new_chain (some id) w = (ok id, w)
  new_chain none w =
      or_wrap "failed to insert new chain_info_id by chain-id"
        (on_db (repo.insert_chain_info w.indexer.chain_name w.indexer.chain_id)) w

  unfoldable pub init_chain_info_id : Exec (World State) (Unit {0})
  init_chain_info_id w =
      (do
        found ←
            or_wrap "failed to select chain_info_id by chain-id"
              (on_db (repo.select_chain_info_id_by_chain_id w.indexer.chain_id))
        id ← new_chain found
        now ← gets (λ w'. w'.indexer)
        set_indexer (record now { chain_info_id = id }))
        w

  -- InitPartitionTablesByChainInfoID, whose error is dropped
  unfoldable pub init_tables : World State → World State
  init_tables w =
      (on_db (repo.init_partition_tables_by_chain_info_id index_name w.indexer.chain_id) w).1

  -- from the label on, with so many retries left
  unfoldable pub load_pointer : ℕ → Exec (World State) ℕ
  unfolding init_tables
  load_pointer zero w =
      or_wrap "failed to get last index pointer"
        (on_db (repo.get_last_index_pointer index_name w.indexer.chain_info_id)) w
  load_pointer (suc retries) w =
      let out = on_db (repo.get_last_index_pointer index_name w.indexer.chain_info_id) w in
      elim out.0 [
        | ok pointer ↦ (ok pointer, out.1)
        | err e ↦ load_pointer retries (init_tables out.1)
        | panic ↦ (panic, out.1)
      ]

  abbrev pub init_unless : Bool → Exec (World State) (Unit {0})
  init_unless true w = (ok tt, w)
  init_unless false w = (ok tt, init_tables w)

  -- The value is the index point that Loop starts from.
  unfoldable pub start : InfoTable State ValidatorInfo → Exec (World State) ℕ
  unfolding init_chain_info_id load_pointer
  start infos = do
    or_wrap "failed to init chain_info_id" init_chain_info_id
    now ← gets (λ w. w.indexer)
    already ←
        or_wrap "failed to check init tables"
          (on_db (repo.check_index_pointer_already_initialized index_name now.chain_info_id))
    init_unless already
    pointer ← load_pointer max_back_off_cnt
    or_wrap "failed to fetch validator_info list" (fetch_validator_info_list infos)
    pure pointer
