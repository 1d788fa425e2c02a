-- ===== src/Examples/CovenantRuns.antt =====
-- Two heights of the covenant-committee indexer: the first answers at its second attempt.
use cvms.Base.{
  ℕ, ◌+◌, ◌-◌, ◌≡◌, ◌≢◌, refl, true, false, none, some, List, [], ◌∷◌, arith, if◌then◌else◌, ◌==◌,
  nat_eq, string_eq, ok, err, message,
}
use cvms.Base.Post.{Ends}
use cvms.Indexer.Fetch.{Block}
use cvms.LightClient.Events.{BlockEvent}
use cvms.Covenant.Events.{Codecs, HeightEvents, block_events}
use cvms.Covenant.Rows.{BabylonBtcDelegation, BabylonCovenantSignature}
use cvms.Covenant.Heights.{CovenantNode, events_at, send_rows, sync_height}
use cvms.Covenant.Heights.Returns.{sync_height_returns, sync_height_never_ends}
use cvms.Covenant.Channels.{
  from_first, first_closed, from_second, second_closed, over, first_sends, first_ends, second_sends,
  second_ends, drain, no_deliveries, drain_interleaving,
}
use cvms.Covenant.Insert.{SameInTx, insert_covenant_lists}
use cvms.Covenant.Insert.Survives.{
  Inserted, WithOrWithout, insert_covenant_lists_partial, failed_insert_keeps_delegations,
}
use cvms.Examples.CovenantDatabase.{CovenantDb, covenant_tables, covenant_tables-CovenantLaws}

abbrev pub plain_codecs : Codecs
plain_codecs = record {
  unmarshal_string = λ s. ok s;
  decode_hex = λ s. ok (1 ∷ []);
  deserialize_tx_hash = λ b. ok "hash";
}

abbrev covenant_block : ℕ → Block
covenant_block h = record {
  height = h;
  timestamp = 100 + h;
  proposer_address = "A";
  txs = "tx" ∷ [];
  last_commit_height = h - 1;
  signatures = [];
}

abbrev covenant_events : List BlockEvent
covenant_events =
    record {
      type_name = "babylon.btcstaking.v1.EventBTCDelegationCreated";
      attributes = record { key = "staking_tx_hex"; value = "00" } ∷ [];
    }
    ∷ record { type_name = "other"; attributes = [] }
    ∷ record {
      type_name = "babylon.btcstaking.v1.EventCovenantSignatureReceived";
      attributes =
          record { key = "covenant_btc_pk_hex"; value = "pk" }
          ∷ record { key = "staking_tx_hash"; value = "hash" }
          ∷ [];
    }
    ∷ []

-- height 13 has events that never come
abbrev pub covenant_node : CovenantNode
covenant_node = record {
  get_block = λ h attempt. if attempt == 0 then err (message "timeout") else ok (covenant_block h);
  get_block_results = λ h attempt. if h == 13 then err (message "timeout") else ok covenant_events;
}

abbrev decoded_events : HeightEvents
decoded_events = record {
  covenant_sig_events =
      record {
        covenant_btc_pk_hex = "pk";
        covenant_unbonding_signature = "";
        staking_tx_hash = "hash";
      }
      ∷ [];
  btc_delegation_events = record { delegation_tx_hash = "hash" } ∷ [];
}

covenant_events_decode : events_at plain_codecs covenant_node 11 0 ≡ ok decoded_events
unfolding block_events
covenant_events_decode = refl

sync_height_returns_example :
    sync_height plain_codecs covenant_node 5 7 (("pk", 3) ∷ []) 11
    ≡ some (send_rows 7 (("pk", 3) ∷ []) 11 111 decoded_events)
sync_height_returns_example =
    sync_height_returns plain_codecs covenant_node 7 (("pk", 3) ∷ []) 11 1 0 5 (covenant_block 11)
      "tx" [] decoded_events ((message "timeout", refl), refl) refl covenant_events_decode
      (omega arith) (omega arith)

sync_height_never_ends_example :
    sync_height plain_codecs covenant_node 9 7 (("pk", 3) ∷ []) 13 ≡ none
sync_height_never_ends_example =
    sync_height_never_ends plain_codecs covenant_node 7 (("pk", 3) ∷ []) 13 1 9 (covenant_block 13)
      "tx" [] ((message "timeout", refl), refl) refl (λ i. (message "timeout", refl)) (omega arith)

drain_interleaving_example :
    drain {A = ℕ} {B = ℕ}
      (from_second (5 ∷ [])
        ∷ from_first (1 ∷ [])
        ∷ second_closed
        ∷ from_first (2 ∷ 3 ∷ [])
        ∷ first_closed
        ∷ [])
      no_deliveries
    ≡ some (record {
      closed_first = true;
      closed_second = true;
      first_list = 1 ∷ 2 ∷ 3 ∷ [];
      second_list = 5 ∷ [];
    })
drain_interleaving_example =
    drain_interleaving ((1 ∷ []) ∷ (2 ∷ 3 ∷ []) ∷ []) ((5 ∷ []) ∷ []) _
      (second_sends (first_sends (second_ends (first_sends (first_ends over)))))

abbrev pub covenant_delegation : ℕ → BabylonBtcDelegation
covenant_delegation h = record {
  chain_info_id = 7;
  height = h;
  btc_staking_tx_hash = "hash";
  timestamp = 100 + h;
}

abbrev pub covenant_signature_row : ℕ → BabylonCovenantSignature
covenant_signature_row h = record {
  chain_info_id = 7;
  height = h;
  covenant_btc_pk_id = 3;
  btc_staking_tx_hash = "hash";
  timestamp = 100 + h;
}

abbrev pub empty_covenant_db : CovenantDb
empty_covenant_db = record {
  stored_delegations = [];
  stored_signatures = [];
  pointers = λ c n. some 10;
}

insert_covenant_lists_partial_example :
    Ends
      (λ _.
        Inserted
          (covenant_tables-CovenantLaws false)
          7
          12
          (covenant_signature_row 11 ∷ [])
          []
          empty_covenant_db)
      (λ s'.
        SameInTx (covenant_tables false) empty_covenant_db s'
        × WithOrWithout
            (covenant_tables-CovenantLaws false)
            7
            12
            (covenant_signature_row 11 ∷ [])
            []
            empty_covenant_db
            s')
      (insert_covenant_lists (covenant_tables false) 7 12 (covenant_signature_row 11 ∷ []) [])
      empty_covenant_db
insert_covenant_lists_partial_example =
    insert_covenant_lists_partial (covenant_tables-CovenantLaws false) 7 12
      (covenant_signature_row 11 ∷ []) [] empty_covenant_db

failed_insert_keeps_delegations_example :
    ((insert_covenant_lists
        (covenant_tables true)
        7
        12
        (covenant_signature_row 11 ∷ [])
        (covenant_delegation 11 ∷ [])
        empty_covenant_db).0
      ≢ ok tt)
    × ((insert_covenant_lists
          (covenant_tables true)
          7
          12
          (covenant_signature_row 11 ∷ [])
          (covenant_delegation 11 ∷ [])
          empty_covenant_db).1.stored_delegations
        ≡ covenant_delegation 11 ∷ [])
failed_insert_keeps_delegations_example =
    failed_insert_keeps_delegations (covenant_tables-CovenantLaws true) 7 12
      (covenant_signature_row 11) [] (covenant_delegation 11) [] empty_covenant_db refl (λ p. cc)
