-- ===== src/Indexer/Batch/Advances.antt =====
-- A turn of the loop that has all it needs moves the index point to the end of its batch.
use cvms.Base.{String, List, ℕ, suc, ◌≤◌, ◌<◌, ◌≡◌, [], arith, ok, leb, false}
use cvms.Indexer.Types.{ValidatorInfo}
use cvms.Indexer.Tables.{Tables, InfoTable}
use cvms.Indexer.Tables.Serves.{Serves}
use cvms.Indexer.Fetch.{end_height}
use cvms.Indexer.Fetch.Honest.{Chain, summary_of}
use cvms.Indexer.Fetch.Answers.{Answers}
use cvms.Indexer.Validators.Known.{Known}
use cvms.Indexer.Loop.{Client, LoopState, turn}
use cvms.Indexer.Loop.Advances.{Healthy, turn_ok}
use cvms.Indexer.Batch.{Scheme}
use cvms.Indexer.Batch.Once.{Turn, round_of, IsSound, end_height_ahead}
use cvms.Indexer.Batch.Total.{Makes, window_rows, batch_sync_ok}
use cvms.Indexer.Batch.Rows.{Implements}
use cvms.Indexer.Calm.{Agrees}

-- What a turn behind index point `h + 1` needs outside the scheme: blocks ahead, healthy
-- endpoints, the answers of the node and the ids of the validators over the window.
pub record Ready {State Row : Type 0} (scheme : Scheme Row) (t : Tables State Row)
    (infos : InfoTable State ValidatorInfo) (chain : Chain) (v : Turn) (s : LoopState State) (h : ℕ)
    : Type 0 where
  pub at_point : s.index_point ≡ suc h
  pub ahead : suc h < v.latest.at_guard
  pub sound : IsSound chain v
  pub healthy : Healthy (round_of scheme t infos v) s
  pub full : s.world.indexer.monikers ≡ []
  pub answers :
      (client : Client) (j : ℕ)
      → suc h ≤ j
      → j ≤ end_height v.latest (suc (suc h))
      → Answers chain (v.node client) j
  pub known :
      (j : ℕ)
      → suc h ≤ j
      → j ≤ end_height v.latest (suc (suc h))
      → Known s.world.indexer.vim (summary_of chain j)

module _ {State Row : Type 0} (scheme : Scheme Row) (t : Tables State Row)
    (infos : InfoTable State ValidatorInfo) (chain : Chain) (id_of : String → ℕ)
    (rows_of : ℕ → ℕ → List Row) (good : Implements scheme id_of chain rows_of) where
  pub turn_advances :
      (v : Turn) (s : LoopState State) (h : ℕ)
      → Ready scheme t infos chain v s h
      → Agrees id_of s.world.indexer.vim
      → Serves t
          (window_rows rows_of s.world.indexer.chain_info_id
            (suc h)
            (end_height v.latest (suc (suc h))))
          s.world.db
      → ((j : ℕ)
          → suc h ≤ j
          → j < end_height v.latest (suc (suc h))
          → Makes scheme chain s.world.indexer.chain_info_id s.world.indexer.vim j)
      → ((turn (round_of scheme t infos v) s).0 ≡ ok tt)
        × ((turn (round_of scheme t infos v) s).1.index_point ≡ end_height v.latest (suc (suc h)))
        × (s.index_point < (turn (round_of scheme t infos v) s).1.index_point)
  turn_advances v s h r agrees serves makes =
      let (done, at) =
        turn_ok (round_of scheme t infos v) s (end_height v.latest (suc (suc h))) r.healthy
          λ client. rw r.at_point (
            batch_sync_ok scheme t infos v.make_infos chain id_of rows_of good (v.node client)
              v.arrive (r.sound.honest client) r.sound.delivers v.latest h s.world r.ahead
              r.sound.no_fall r.full agrees serves
              (λ j lo hi. (r.answers client j lo hi, r.known j lo hi)) makes) in
      let behind : leb v.latest.at_guard (suc h) ≡ false = ground (arith, r.ahead) in
      let (k, far) = end_height_ahead v.latest (suc h) r.sound.no_fall behind in
      (done, at, rw (at, r.at_point, far) (omega arith))
