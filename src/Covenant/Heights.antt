-- ===== src/Covenant/Heights.antt =====
-- A goroutine of covenant-committee/indexer/batch_sync.go: one height, with its two retry loops.
-- Each answer of the node is numbered by the attempt, and a loop is run on fuel.
pub mod Returns
use cvms.Base.{
  ℕ, zero, suc, ◌+◌, String, Bool, false, Option, none, some, List, [], ◌∷◌, Map, Result, ok, err,
  panic, bind,
}
use cvms.LightClient.Events.{BlockEvent}
use cvms.Indexer.Fetch.{Block}
use cvms.Covenant.Events.{Codecs, HeightEvents, block_events}
use cvms.Covenant.Rows.{
  BabylonBtcDelegation, BabylonCovenantSignature, delegation_rows, signature_rows,
}

-- goto RETRY, while the call fails. `none` is a loop that goes on when the fuel ends.
unfoldable pub retry {ℓ} : {A : Type ℓ} → (ℕ → Result A) → ℕ → ℕ → Option (Result A)
retry call zero attempt = none
retry call (suc fuel) attempt = elim (call attempt) [
  | ok a ↦ some (ok a)
  | err e ↦ retry call fuel (attempt + 1)
  | panic ↦ some panic
]

-- api.GetBlock and api.GetBlockResults, at a height and an attempt
pub record CovenantNode : Type 0 where
  pub get_block : ℕ → ℕ → Result Block
  pub get_block_results : ℕ → ℕ → Result (List BlockEvent)

-- What a goroutine has done when it ends: its message on each channel, if any, and whether it met a
-- committee member without an id.
pub record HeightSent : Type 0 where
  pub on_first : List (List BabylonBtcDelegation)
  pub on_second : List (List BabylonCovenantSignature)
  pub met_unknown : Bool

abbrev pub nothing_sent : HeightSent
nothing_sent = record { on_first = []; on_second = []; met_unknown = false }

-- behind the loops: the rows, and their two messages
unfoldable pub send_rows : ℕ → Map String ℕ → ℕ → ℕ → HeightEvents → HeightSent
unfolding delegation_rows signature_rows
send_rows chain_info_id committee height timestamp events =
    let (signatures, unknown) =
      signature_rows chain_info_id committee height timestamp events.covenant_sig_events in
    record {
      on_first = delegation_rows chain_info_id height timestamp events.btc_delegation_events ∷ [];
      on_second = signatures ∷ [];
      met_unknown = unknown;
    }

module _ (codecs : Codecs) (node : CovenantNode) where
  -- from RETRY2 on, up to the rows: a call that fails and an event that does not decode start again
  abbrev pub events_at : ℕ → ℕ → Result HeightEvents
  events_at height attempt = bind (node.get_block_results height attempt) λ events.
      block_events codecs events (record { covenant_sig_events = []; btc_delegation_events = [] })

  -- the block is there
  abbrev pub with_block :
      ℕ → ℕ → Map String ℕ → ℕ → Option (Result HeightEvents) → Option HeightSent
  with_block chain_info_id timestamp committee height none = none
  with_block chain_info_id timestamp committee height (some (ok events)) =
      some (send_rows chain_info_id committee height timestamp events)
  with_block chain_info_id timestamp committee height (some (err e)) = some nothing_sent
  with_block chain_info_id timestamp committee height (some panic) = some nothing_sent

  abbrev pub height_of_block : ℕ → ℕ → Map String ℕ → ℕ → Option (Result Block) → Option HeightSent
  height_of_block fuel chain_info_id committee height none = none
  height_of_block fuel chain_info_id committee height (some (err e)) = some nothing_sent
  height_of_block fuel chain_info_id committee height (some panic) = some nothing_sent
  height_of_block fuel chain_info_id committee height (some (ok block)) = elim block.txs [
    | [] ↦ some nothing_sent
    | _ ∷ _ ↦
        with_block chain_info_id block.timestamp committee height (retry (events_at height) fuel 0)
  ]

  -- The whole goroutine. A panic is recovered before a message is sent.
  unfoldable pub sync_height : ℕ → ℕ → Map String ℕ → ℕ → Option HeightSent
  unfolding retry
  sync_height fuel chain_info_id committee height =
      height_of_block fuel chain_info_id committee height (retry (node.get_block height) fuel 0)
