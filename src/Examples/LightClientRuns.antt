-- ===== src/Examples/LightClientRuns.antt =====
-- Blocks with inserts of BTC headers, for the light client indexer.
use cvms.Base.{
  true, ℕ, ◌≡◌, ◌⊎◌, refl, String, ◌==◌, string_eq, if◌then◌else◌, List, [], ◌∷◌, ◌++◌, ok, err,
  message, Map, lookup, some, none,
}
use cvms.LightClient.Events.{
  BlockEvent, BtcHeader, BtcInsertEvent, Strings, insert_headers_type_url, btc_roll_forward_event,
  btc_rollback_event, scan_events, scan_headers, filter_btc_light_client_events,
}
use cvms.LightClient.Events.Last.{filter_btc_light_client_events_last}
use cvms.LightClient.Rolls.{BabylonBtcRoll, roll_of, Accounts, roll_of-Accounts}

abbrev toy_header : String → ℕ → BtcHeader
toy_header event_type height = record {
  event_type = event_type;
  header = "00";
  hash = "ff";
  height = height;
  work = "1";
}

abbrev toy_strings : Strings
toy_strings = record {
  parse_btc_header = λ s.
      if s == "h7"
      then ok (toy_header "" 7)
      else (if s == "h8" then ok (toy_header "" 8) else err (message "invalid character"));
  split = λ s sep.
      if s == btc_roll_forward_event
      then "babylon" ∷ "btclightclient" ∷ "v1" ∷ "EventBTCRollForward" ∷ []
      else (if s == btc_rollback_event
          then "babylon" ∷ "btclightclient" ∷ "v1" ∷ "EventBTCRollBack" ∷ []
          else s ∷ []);
}

abbrev insert_by : String → BlockEvent
insert_by sender = record {
  type_name = "message";
  attributes =
      record { key = "action"; value = insert_headers_type_url }
      ∷ record { key = "sender"; value = sender }
      ∷ [];
}

abbrev rolled : String → String → BlockEvent
rolled name header = record {
  type_name = name;
  attributes = record { key = "header"; value = header } ∷ [];
}

-- two reporters in one block: what the first one's message rolled is dropped
abbrev first_insert : List BlockEvent
first_insert = insert_by "bbn1first" ∷ rolled btc_roll_forward_event "h7" ∷ []

abbrev second_rolls : List BlockEvent
second_rolls = rolled btc_rollback_event "h7" ∷ rolled btc_roll_forward_event "h8" ∷ []

filter_btc_light_client_events_last_example :
    filter_btc_light_client_events toy_strings
      (first_insert ++ (insert_by "bbn1second" ∷ second_rolls))
    ≡ ok (
        record {
          reporter_address = "bbn1second";
          btc_headers = toy_header "EventBTCRollBack" 7 ∷ toy_header "EventBTCRollForward" 8 ∷ [];
        }
        ∷ [])
unfolding scan_events scan_headers
filter_btc_light_client_events_last_example =
    filter_btc_light_client_events_last toy_strings first_insert (insert_by "bbn1second")
      second_rolls
      (record {
        btc_header_list = toy_header "EventBTCRollForward" 7 ∷ [];
        reporter = "bbn1first";
        found = true;
      })
      [] (record { key = "action"; value = insert_headers_type_url })
      (record { key = "sender"; value = "bbn1second" } ∷ []) refl refl refl refl refl refl
      (refl, (refl, tt))

abbrev reporter_ids : Map String ℕ
reporter_ids = ("bbn1second", 3) ∷ []

abbrev second_event : BtcInsertEvent
second_event = record {
  reporter_address = "bbn1second";
  btc_headers = toy_header "EventBTCRollBack" 7 ∷ toy_header "EventBTCRollForward" 8 ∷ [];
}

roll_of-Accounts_example :
    ((id : ℕ) × (row : BabylonBtcRoll) × (lookup "bbn1second" reporter_ids ≡ some id)
      × (roll_of 7 reporter_ids 12 second_event ≡ ok row)
      × Accounts id 12 second_event row)
    ⊎ ((lookup "bbn1second" reporter_ids ≡ none)
        × (roll_of 7 reporter_ids 12 second_event
            ≡ err (message "failed to find reporter ID in indexer ID maps")))
roll_of-Accounts_example = roll_of-Accounts 7 reporter_ids 12 second_event
