-- ===== src/Indexer/Start/Retries.antt =====
-- The retries of Start are enough for up to five failures.
use cvms.Base.{ℕ, zero, suc, String, Exec}
use cvms.Indexer.Monikers.{World, on_db}
use cvms.Indexer.Start.{MetaRepository, init_tables}

module _ {State : Type 0} (repo : MetaRepository State) (index_name : String) where
  abbrev pub get_pointer : Exec (World State) ℕ
  get_pointer w = on_db (repo.get_last_index_pointer index_name w.indexer.chain_info_id) w

  -- the state behind so many reads that failed, and the tables set up again each time
  abbrev pub after_failures : ℕ → World State → World State
  after_failures zero w = w
  after_failures (suc n) w = after_failures n (init_tables repo index_name (get_pointer w).1)
