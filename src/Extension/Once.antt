-- ===== src/Extension/Once.antt =====
-- Loop of the vote-extension indexer (veindexer/indexer/indexer.go) over its own batchSync.
use cvms.Base.{ℕ, String, List, map, All, Exec}
use cvms.Indexer.Types.{ValidatorInfo}
use cvms.Indexer.Tables.{Tables, InfoTable, TableLaws, InfoLaws}
use cvms.Indexer.Fetch.Honest.{Chain}
use cvms.Indexer.Calm.{ListsIds}
use cvms.Indexer.Loop.{LoopState, run}
use cvms.Indexer.Batch.Once.{Turn, round_of, IsSound, Synced, run-Synced}
use cvms.Extension.Codec.{Packages}
use cvms.Extension.Votes.{ValidatorExtensionVote}
use cvms.Extension.Sync.{extension_scheme}
use cvms.Extension.Rows.{extension_rows, extension_scheme-Implements}

abbrev pub extension_run :
    {State : Type 0}
    → Packages
    → Tables State ValidatorExtensionVote
    → InfoTable State ValidatorInfo
    → List Turn
    → Exec (LoopState State) (Unit {0})
extension_run p t infos turns = run (map (round_of (extension_scheme p) t infos) turns)

module _ {State : Type 0} (p : Packages) (t : Tables State ValidatorExtensionVote)
    (id_of : String → ℕ) (chain : Chain) (c : ℕ) (infos : InfoTable State ValidatorInfo)
    (laws : TableLaws t) (info_laws : InfoLaws t infos) (lists : ListsIds id_of infos) where
  -- Outside solo mode, from a state in step with the chain at index point `first + 1`, with
  -- endpoints that answer for that chain if they answer and a latest height that does not fall
  -- within a batch: after any turns of the loop, whatever failed or panicked on the way, the table
  -- holds what it held and, behind it, the vote
  -- extensions that the next block carries for each block from height `first + 1` up to the
  -- one before the present index point, once and in order, and the stored pointer is that point.
  pub extension_run-Synced :
      (turns : List Turn) (first : ℕ) (old : List ValidatorExtensionVote) (s : LoopState State)
      → All (IsSound chain) turns
      → Synced
          (extension_scheme p)
          t
          id_of
          (extension_rows id_of p chain)
          c
          first
          old
          s.index_point
          s.world
      → Synced
          (extension_scheme p)
          t
          id_of
          (extension_rows id_of p chain)
          c
          first
          old
          (extension_run p t infos turns s).1.index_point
          (extension_run p t infos turns s).1.world
  extension_run-Synced turns first old s sound synced =
      run-Synced (extension_scheme p) t id_of (extension_rows id_of p chain) c chain
        (extension_scheme-Implements id_of p chain) infos laws info_laws lists turns first old s
        sound synced
