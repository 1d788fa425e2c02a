-- ===== src/Examples/VoteRuns.antt =====
-- Runs of the vote indexer on the small chain of Examples/Database.antt.
use cvms.Base.{
  lookup-nil, put, exist, false, String, ◌≡◌, refl, ◌==◌, nat_eq, string_eq, if◌then◌else◌, ◌&&◌,
  some, none, List, [], ◌∷◌, arith, length, All,
}
use cvms.Indexer.Types.{Indexer, Latest}
use cvms.Indexer.Monikers.{filter_for_monikers}
use cvms.Indexer.Loop.{LoopState, turn, run}
use cvms.Indexer.Fetch.{fetch_summaries, end_height}
use cvms.Indexer.Validators.{register_new_validators}
use cvms.Indexer.Tables.Insert.{insert_batch, insert_batch_atomic}
use cvms.Indexer.Tables.{Stored, SameTables}
use cvms.Base.Post.{Ends}
use cvms.Vote.Sync.{vote_scheme, vote_text}
use cvms.Vote.Rows.{block_rows}
use cvms.Vote.Votes.{ValidatorVote, pair_votes}
use cvms.Indexer.Batch.{batch_rows, batch_sync}
use cvms.Vote.Once.{vote_run, vote_run-Synced}
use cvms.Indexer.Batch.Once.{Turn, IsSound, Synced}
use cvms.Examples.Database.{
  Db, db_tables, db_laws, toy_infos, toy-InfoLaws, toy_lists, toy_id, toy_make_infos, toy_chain,
  good_node, bad_node, good_node-IsHonest, bad_node-IsHonest, in_order, in_order-Delivers,
}

abbrev pub toy_db : {Row : Type 0} → String → Db Row
toy_db name = record {
  stored = [];
  pointers = λ c n. if (c == 7) && (n == name) then some 10 else none;
  infos = [];
}

abbrev pub toy_indexer : List String → Indexer
toy_indexer monikers = record {
  chain_name = "toy";
  chain_id = "toy-1";
  chain_info_id = 7;
  is_consumer = false;
  monikers = monikers;
  moniker_id_map = [];
  vim = [];
}

abbrev pub toy_latest : Latest
toy_latest = record { at_guard = 15; at_end = 15; at_limit = 15 }

abbrev start_state : LoopState (Db ValidatorVote)
start_state = record {
  index_point = 10;
  is_unhealth = false;
  client = record { api_endpoint = "a"; rpc_endpoint = "b" };
  world = record { indexer = toy_indexer []; db = toy_db "voteindexer" };
}

-- a node that times out, no healthy endpoint, and a good one
abbrev toy_turns : List Turn
toy_turns =
    record {
      health_apis = [];
      health_rpcs = [];
      make_infos = toy_make_infos;
      node = λ c. bad_node;
      arrive = in_order;
      latest = toy_latest;
    }
    ∷ record {
      health_apis = [];
      health_rpcs = "d" ∷ [];
      make_infos = toy_make_infos;
      node = λ c. good_node;
      arrive = in_order;
      latest = toy_latest;
    }
    ∷ record {
      health_apis = "c" ∷ [];
      health_rpcs = "d" ∷ [];
      make_infos = toy_make_infos;
      node = λ c. good_node;
      arrive = in_order;
      latest = toy_latest;
    }
    ∷ []

toy_turns-IsSound : All (IsSound toy_chain) toy_turns
toy_turns-IsSound = (
  record { honest = λ c. bad_node-IsHonest; delivers = in_order-Delivers; no_fall = omega arith },
  (
    record {
      honest = λ c. good_node-IsHonest;
      delivers = in_order-Delivers;
      no_fall = omega arith;
    },
    (
      record {
        honest = λ c. good_node-IsHonest;
        delivers = in_order-Delivers;
        no_fall = omega arith;
      },
      tt,
    ),
  ),
)

start_state-Synced :
    Synced vote_scheme db_tables toy_id (block_rows toy_id toy_chain) 7 9 [] 10 start_state.world
start_state-Synced = record {
  blocks = 0;
  at_point = refl;
  rows = refl;
  pointer = refl;
  ids = λ a i e. lookup-nil a e;
  same_chain = refl;
  full = refl;
}

abbrev end_state : LoopState (Db ValidatorVote)
end_state = (vote_run db_tables toy_infos toy_turns start_state).1

vote_run-Synced_example :
    Synced vote_scheme db_tables toy_id
      (block_rows toy_id toy_chain)
      7
      9
      []
      end_state.index_point
      end_state.world
vote_run-Synced_example =
    vote_run-Synced db_tables toy_id toy_chain 7 toy_infos db_laws toy-InfoLaws toy_lists toy_turns
      9 [] start_state toy_turns-IsSound start_state-Synced

-- The good turn went through: five blocks of two rows.
end_point : end_state.index_point ≡ 15
unfolding run turn batch_sync fetch_summaries end_height register_new_validators put exist
    batch_rows filter_for_monikers insert_batch pair_votes
end_point = refl

end_rows : length end_state.world.db.stored ≡ 10
unfolding run turn batch_sync fetch_summaries end_height register_new_validators put exist
    batch_rows filter_for_monikers insert_batch pair_votes
end_rows = refl

insert_batch_atomic_example :
    Ends
      (λ _ s'.
        Stored db_tables 7 "voteindexer" 12 end_state.world.db.stored (toy_db "voteindexer") s')
      (λ s'. SameTables db_tables (toy_db "voteindexer") s')
      (insert_batch db_tables vote_text 7 12 end_state.world.db.stored)
      (toy_db "voteindexer")
insert_batch_atomic_example =
    insert_batch_atomic db_laws vote_text 7 12 end_state.world.db.stored (toy_db "voteindexer")
