-- ===== src/Covenant/Events.antt =====
-- ParseDynamicEvent and the decoders of covenant-committee/indexer/parser.go, and the loop over the
-- events of a block in batch_sync.go. encoding/json, encoding/hex and btcd's wire are a parameter.
use cvms.Base.{
  ℕ, String, Option, none, some, List, [], ◌∷◌, ◌++◌, if◌then◌else◌, ◌==◌, string_eq, Result, ok,
  bind,
}
use cvms.LightClient.Events.{Attribute, BlockEvent}

pub record EventCovenantSignature : Type 0 where
  pub covenant_btc_pk_hex : String
  pub covenant_unbonding_signature : String
  pub staking_tx_hash : String

pub record EventBtcDelegationCreated : Type 0 where
  pub delegation_tx_hash : String

pub data SupportEvent : Type 0 where
  covenant_signature : EventCovenantSignature → SupportEvent
  btc_delegation_created : EventBtcDelegationCreated → SupportEvent

abbrev pub covenant_signature_received : String
covenant_signature_received = "babylon.btcstaking.v1.EventCovenantSignatureReceived"

abbrev pub btc_delegation_created_type : String
btc_delegation_created_type = "babylon.btcstaking.v1.EventBTCDelegationCreated"

-- switch attribute.Key, of a covenant signature
abbrev pub read_signature_attribute : Attribute → EventCovenantSignature → EventCovenantSignature
read_signature_attribute a e =
    if a.key == "covenant_btc_pk_hex"
    then record e { covenant_btc_pk_hex = a.value }
    else (if a.key == "covenant_unbonding_signature_hex"
        then record e { covenant_unbonding_signature = a.value }
        else (if a.key == "staking_tx_hash" then record e { staking_tx_hash = a.value } else e))

unfoldable pub read_signature : List Attribute → EventCovenantSignature → EventCovenantSignature
read_signature [] e = e
read_signature (a ∷ l) e = read_signature l (read_signature_attribute a e)

-- switch attribute.Key, of a delegation
unfoldable pub read_delegation :
    List Attribute → EventBtcDelegationCreated → EventBtcDelegationCreated
read_delegation [] e = e
read_delegation (a ∷ l) e =
    read_delegation l
      (if a.key == "staking_tx_hex" then record e { delegation_tx_hash = a.value } else e)

abbrev pub no_signature : EventCovenantSignature
no_signature = record {
  covenant_btc_pk_hex = "";
  covenant_unbonding_signature = "";
  staking_tx_hash = "";
}

-- Its one error, ErrUnSupportedEventType, is `none`.
unfoldable pub parse_dynamic_event : BlockEvent → Option SupportEvent
unfolding read_signature read_delegation
parse_dynamic_event event =
    if event.type_name == covenant_signature_received
    then some (covenant_signature (read_signature event.attributes no_signature))
    else (if event.type_name == btc_delegation_created_type
        then some (
            btc_delegation_created
              (read_delegation event.attributes (record { delegation_tx_hash = "" })))
        else none)

-- The bytes of a decoded hex string are numbers.
pub record Codecs : Type 0 where
  -- json.Unmarshal into a string
  pub unmarshal_string : String → Result String
  -- hex.DecodeString
  pub decode_hex : String → Result (List ℕ)
  -- MsgTx.Deserialize, and then TxHash().String()
  pub deserialize_tx_hash : List ℕ → Result String

-- covenantSigEvents and btcDelegationEvents
pub record HeightEvents : Type 0 where
  pub covenant_sig_events : List EventCovenantSignature
  pub btc_delegation_events : List EventBtcDelegationCreated

module _ (codecs : Codecs) where
  abbrev pub decode_escaped_json_string : String → Result String
  decode_escaped_json_string value = codecs.unmarshal_string value

  unfoldable pub decode_btc_staking_tx_by_hex_str : String → Result String
  decode_btc_staking_tx_by_hex_str hex_str =
      bind (codecs.decode_hex hex_str) λ raw_bytes. codecs.deserialize_tx_hash raw_bytes

  -- one supported event, appended
  unfoldable pub add_event : SupportEvent → HeightEvents → Result HeightEvents
  unfolding decode_btc_staking_tx_by_hex_str
  add_event (covenant_signature e) acc =
      bind (decode_escaped_json_string e.covenant_btc_pk_hex) λ escape_btc_pk.
        bind (decode_escaped_json_string e.staking_tx_hash) λ escape_btc_tx_str. ok (record acc {
          covenant_sig_events =
              acc.covenant_sig_events
              ++ record {
                covenant_btc_pk_hex = escape_btc_pk;
                covenant_unbonding_signature = "";
                staking_tx_hash = escape_btc_tx_str;
              }
                ∷ [];
        })
  add_event (btc_delegation_created e) acc =
      bind (decode_escaped_json_string e.delegation_tx_hash) λ escape_hex_str.
        bind (decode_btc_staking_tx_by_hex_str escape_hex_str) λ hash. ok (record acc {
          btc_delegation_events =
              acc.btc_delegation_events ++ record { delegation_tx_hash = hash } ∷ [];
        })

  -- the loop over txsEvents; an error makes the goroutine ask again
  unfoldable pub block_events : List BlockEvent → HeightEvents → Result HeightEvents
  unfolding parse_dynamic_event add_event
  block_events [] acc = ok acc
  block_events (event ∷ events) acc = elim (parse_dynamic_event event) [
    | none ↦ block_events events acc
    | some e ↦ bind (add_event e acc) λ acc'. block_events events acc'
  ]
