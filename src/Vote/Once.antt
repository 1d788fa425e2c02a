-- ===== src/Vote/Once.antt =====
-- Loop of the vote indexer (voteindexer/indexer/indexer.go) over its own batchSync.
use cvms.Base.{ℕ, String, List, map, All, Exec}
use cvms.Indexer.Types.{ValidatorInfo}
use cvms.Indexer.Tables.{Tables, InfoTable, TableLaws, InfoLaws}
use cvms.Indexer.Fetch.Honest.{Chain}
use cvms.Indexer.Calm.{ListsIds}
use cvms.Indexer.Loop.{LoopState, run}
use cvms.Indexer.Batch.Once.{Turn, round_of, IsSound, Synced, run-Synced}
use cvms.Vote.Votes.{ValidatorVote}
use cvms.Vote.Sync.{vote_scheme}
use cvms.Vote.Rows.{block_rows, vote_scheme-Implements}

abbrev pub vote_run :
    {State : Type 0}
    → Tables State ValidatorVote
    → InfoTable State ValidatorInfo
    → List Turn
    → Exec (LoopState State) (Unit {0})
vote_run t infos turns = run (map (round_of vote_scheme t infos) turns)

module _ {State : Type 0} (t : Tables State ValidatorVote) (id_of : String → ℕ) (chain : Chain)
    (c : ℕ) (infos : InfoTable State ValidatorInfo) (laws : TableLaws t)
    (info_laws : InfoLaws t infos) (lists : ListsIds id_of infos) where
  -- Outside solo mode, from a state in step with the chain at index point `first + 1`, with
  -- endpoints that answer for that chain if they answer and a latest height that does not fall
  -- within a batch: after any turns of the loop, whatever failed or panicked on the way, the table
  -- holds what it held and, behind it, the votes of each block from height `first + 1` up to the
  -- one before the present index point, once and in order, and the stored pointer is that point.
  pub vote_run-Synced :
      (turns : List Turn) (first : ℕ) (old : List ValidatorVote) (s : LoopState State)
      → All (IsSound chain) turns
      → Synced vote_scheme t id_of (block_rows id_of chain) c first old s.index_point s.world
      → Synced vote_scheme t id_of
          (block_rows id_of chain)
          c
          first
          old
          (vote_run t infos turns s).1.index_point
          (vote_run t infos turns s).1.world
  vote_run-Synced turns first old s sound synced =
      run-Synced vote_scheme t id_of (block_rows id_of chain) c chain
        (vote_scheme-Implements id_of chain) infos laws info_laws lists turns first old s sound
        synced
