-- ===== src/Covenant/Rows.antt =====
-- The rows that a goroutine of covenant-committee/indexer/batch_sync.go makes from the events of
-- its height, and internal/packages/babylon/covenant-committee/model.
use cvms.Base.{ℕ, String, Bool, true, false, none, some, List, [], ◌∷◌, map, Map, lookup, string_eq}
use cvms.Covenant.Events.{EventCovenantSignature, EventBtcDelegationCreated}

-- model.BabylonBtcDelegation, without the id that the database gives
pub record BabylonBtcDelegation : Type 0 where
  pub chain_info_id : ℕ
  pub height : ℕ
  pub btc_staking_tx_hash : String
  pub timestamp : ℕ

-- model.BabylonCovenantSignature, likewise
pub record BabylonCovenantSignature : Type 0 where
  pub chain_info_id : ℕ
  pub height : ℕ
  pub covenant_btc_pk_id : ℕ
  pub btc_staking_tx_hash : String
  pub timestamp : ℕ

-- newBtcDelegations
unfoldable pub delegation_rows :
    ℕ → ℕ → ℕ → List EventBtcDelegationCreated → List BabylonBtcDelegation
delegation_rows chain_info_id height timestamp events =
    map
      (λ e. record {
        chain_info_id = chain_info_id;
        height = height;
        btc_staking_tx_hash = e.delegation_tx_hash;
        timestamp = timestamp;
      })
      events

-- newBcsList, and whether isUnknownCovenantCommittee is set on the way
unfoldable pub signature_rows :
    ℕ → Map String ℕ → ℕ → ℕ → List EventCovenantSignature → List BabylonCovenantSignature × Bool
signature_rows chain_info_id committee height timestamp [] = ([], false)
signature_rows chain_info_id committee height timestamp (e ∷ events) =
    let (rows, unknown) = signature_rows chain_info_id committee height timestamp events in
    elim (lookup e.covenant_btc_pk_hex committee) [
      | none ↦ (rows, true)
      | some pk_id ↦ (
        record {
          chain_info_id = chain_info_id;
          height = height;
          covenant_btc_pk_id = pk_id;
          btc_staking_tx_hash = e.staking_tx_hash;
          timestamp = timestamp;
        }
            ∷ rows,
        unknown,
      )
    ]
