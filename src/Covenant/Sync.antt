-- ===== src/Covenant/Sync.antt =====
-- batchSync of covenant-committee/indexer/batch_sync.go. `none` is a batch that waits for a
-- goroutine which has not ended by the fuel given.
pub mod Stores
use cvms.Base.{
  ℕ, String, Bool, false, ◌||◌, Option, none, some, List, [], ◌∷◌, if◌then◌else◌, leb, Map, Result,
  ok, Exec, concat_map, pure, ◌>>◌,
}
use cvms.Indexer.Types.{Latest}
use cvms.Indexer.Fetch.{end_height, heights}
use cvms.Covenant.Events.{Codecs}
use cvms.Covenant.Rows.{BabylonBtcDelegation, BabylonCovenantSignature}
use cvms.Covenant.Heights.{CovenantNode, HeightSent, sync_height}
use cvms.Covenant.Channels.{Delivery, Received, no_deliveries, drain}
use cvms.Covenant.Insert.{CovenantTables, insert_covenant_lists}
use cvms.Covenant.Committee.{
  CommitteeTable, CovenantWorld, RemoteMonikers, on_tables, update_committee,
}

abbrev pub CovenantDelivery : Type 0
CovenantDelivery = Delivery BabylonBtcDelegation BabylonCovenantSignature

abbrev pub add_sent : Option HeightSent → Option (List HeightSent) → Option (List HeightSent)
add_sent none rest = none
add_sent (some s) none = none
add_sent (some s) (some rest) = some (s ∷ rest)

-- What the goroutines have sent once all have ended: wg.Wait.
unfoldable pub sync_heights :
    Codecs → CovenantNode → ℕ → ℕ → Map String ℕ → List ℕ → Option (List HeightSent)
sync_heights codecs node fuel chain_info_id committee [] = some []
sync_heights codecs node fuel chain_info_id committee (h ∷ hs) =
    add_sent (sync_height codecs node fuel chain_info_id committee h)
      (sync_heights codecs node fuel chain_info_id committee hs)

-- isUnknownCovenantCommittee
unfoldable pub any_unknown : List HeightSent → Bool
any_unknown [] = false
any_unknown (s ∷ l) = s.met_unknown || any_unknown l

abbrev pub first_messages : List HeightSent → List (List BabylonBtcDelegation)
first_messages l = concat_map (λ (s : HeightSent). s.on_first) l

abbrev pub second_messages : List HeightSent → List (List BabylonCovenantSignature)
second_messages l = concat_map (λ (s : HeightSent). s.on_second) l

-- How the messages of two channels reach the select loop.
abbrev pub Arrival : Type 0
Arrival =
    List (List BabylonBtcDelegation) → List (List BabylonCovenantSignature) → List CovenantDelivery

module _ {State : Type 0} (t : CovenantTables State) (members : CommitteeTable State)
    (params : Result (List String)) (remote : RemoteMonikers) where
  -- Behind the select loop. The error that the source means to return for an unknown member wraps
  -- a nil error, which gives nil: the batch returns the old height and no error.
  unfoldable pub finish :
      ℕ
      → ℕ
      → Bool
      → Received BabylonBtcDelegation BabylonCovenantSignature
      → Exec (CovenantWorld State) ℕ
  unfolding update_committee
  finish last end unknown received w =
      if unknown
      then ((do update_committee members params remote; pure last) w)
      else ((do
        on_tables members
            (insert_covenant_lists t w.chain_info_id end received.second_list received.first_list)
        pure end)
          w)

  abbrev pub finish_once :
      ℕ
      → ℕ
      → Bool
      → Option (Received BabylonBtcDelegation BabylonCovenantSignature)
      → CovenantWorld State
      → Option (Result ℕ × CovenantWorld State)
  finish_once last end unknown none w = none
  finish_once last end unknown (some received) w = some (finish last end unknown received w)

  abbrev pub after_heights :
      Arrival
      → ℕ
      → ℕ
      → Option (List HeightSent)
      → CovenantWorld State
      → Option (Result ℕ × CovenantWorld State)
  after_heights arrive last end none w = none
  after_heights arrive last end (some sent) w =
      finish_once last end (any_unknown sent)
        (drain (arrive (first_messages sent) (second_messages sent)) no_deliveries) w

  unfoldable pub covenant_batch_sync :
      Codecs
      → CovenantNode
      → Arrival
      → ℕ
      → Latest
      → ℕ
      → ℕ
      → CovenantWorld State
      → Option (Result ℕ × CovenantWorld State)
  unfolding finish sync_heights any_unknown
  covenant_batch_sync codecs node arrive fuel latest last new w =
      let end = end_height latest new in
      if leb latest.at_guard last
      then some (ok last, w)
      else after_heights arrive last end
          (sync_heights codecs node fuel w.chain_info_id w.committee (heights new end)) w
