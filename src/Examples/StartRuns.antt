-- ===== src/Examples/StartRuns.antt =====
-- A start whose first two reads of the index pointer fail.
use cvms.Base.{ℕ, ◌+◌, true, [], some, if◌then◌else◌, ltb, message, ok, err}
use cvms.Indexer.Monikers.{World}
use cvms.Indexer.Start.{MetaRepository}
use cvms.Examples.VoteRuns.{toy_indexer}

-- the database counts how often its tables were set up, and has a pointer from the second time on
abbrev slow_repo : MetaRepository ℕ
slow_repo = record {
  select_chain_info_id_by_chain_id = λ c n. (ok (some 7), n);
  insert_chain_info = λ c i n. (ok 7, n);
  check_index_pointer_already_initialized = λ i c n. (ok true, n);
  init_partition_tables_by_chain_info_id = λ i c n. (ok tt, n + 1);
  get_last_index_pointer = λ i c n. (if ltb n 2 then err (message "no rows") else ok 10, n);
}

abbrev slow_world : World ℕ
slow_world = record { indexer = toy_indexer []; db = 0 }
