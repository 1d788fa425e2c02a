-- ===== src/Indexer/Loop.antt =====
-- Loop of the indexers (voteindexer/indexer/indexer.go; the others write it out again): the health
-- check after a failure, a batch, and the new index point. What one turn meets from outside is a
-- `Round`: the endpoints that the health check finds alive, and what the batch sees.
pub mod Invariant
pub mod Advances
use cvms.Base.{
  ℕ, ◌+◌, ◌≡◌, refl, String, Bool, true, false, ◌||◌, List, [], ◌∷◌, if◌then◌else◌, Result, ok, err,
  panic, Exec, continue, ◌>>=◌, ◌>>◌, Error,
}
use cvms.Indexer.Monikers.{World}

-- The base URLs of the two clients.
pub record Client : Type 0 where
  pub api_endpoint : String
  pub rpc_endpoint : String

pub record LoopState (State : Type 0) : Type 0 where
  pub index_point : ℕ
  pub is_unhealth : Bool
  pub client : Client
  pub world : World State

-- `sync` is batchSync, given the clients and the two heights.
pub record Round (State : Type 0) : Type 0 where
  pub health_apis : List String
  pub health_rpcs : List String
  pub sync : Client → ℕ → ℕ → Exec (World State) ℕ

abbrev pub is_empty : List String → Bool
is_empty [] = true
is_empty (_ ∷ _) = false

module _ {State : Type 0} where
  -- the two loops that break at the first healthy endpoint
  abbrev pub take_api : List String → LoopState State → LoopState State
  take_api [] s = s
  take_api (api ∷ _) s = record s {
    client = record s.client { api_endpoint = api };
    is_unhealth = false;
  }

  abbrev pub take_rpc : List String → LoopState State → LoopState State
  take_rpc [] s = s
  take_rpc (rpc ∷ _) s = record s {
    client = record s.client { rpc_endpoint = rpc };
    is_unhealth = false;
  }

  -- The state behind the check, and whether the turn ends here.
  unfoldable pub health_check : Round State → LoopState State → LoopState State × Bool
  health_check r s =
      let s' = take_rpc r.health_rpcs (take_api r.health_apis s) in
      if s.is_unhealth
      then (if is_empty r.health_apis || is_empty r.health_rpcs
          then (record s' { is_unhealth = true }, true)
          else (s', false))
      else (s, false)

  -- The batch: an error marks the endpoints unhealthy and leaves the index point.
  abbrev pub after_sync :
      LoopState State → Result ℕ → World State → Result (Unit {0}) × LoopState State
  after_sync s (ok pointer) w = (ok tt, record s { index_point = pointer; world = w })
  after_sync s (err e) w = (ok tt, record s { is_unhealth = true; world = w })
  after_sync s panic w = (panic, record s { world = w })

  unfoldable pub turn : Round State → Exec (LoopState State) (Unit {0})
  unfolding health_check
  turn r s =
      let (s', skip) = health_check r s in
      let out = r.sync s'.client s'.index_point (s'.index_point + 1) s'.world in
      if skip then (ok tt, s') else after_sync s' out.0 out.1

  -- Turns one after the other, until one panics.
  unfoldable pub run : List (Round State) → Exec (LoopState State) (Unit {0})
  run [] s = (ok tt, s)
  run (r ∷ rounds) s = continue (turn r s).0 (λ _. run rounds) (turn r s).1
