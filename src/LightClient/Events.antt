-- ===== src/LightClient/Events.antt =====
-- filterBTCLightClientEvents of btc-lightclient/indexer/babylon.go. The packages encoding/json and
-- strings are a parameter.
pub mod Found
pub mod Headers
pub mod Last
use cvms.Base.{
  ℕ, String, Bool, true, false, ◌&&◌, ◌||◌, List, [], ◌∷◌, ◌++◌, if◌then◌else◌, ◌==◌, string_eq,
  Result, ok, err, panic, wrap, bind,
}

-- types.Attribute, without its flag, which is not read
pub record Attribute : Type 0 where
  pub key : String
  pub value : String

-- types.BlockEvent
pub record BlockEvent : Type 0 where
  pub type_name : String
  pub attributes : List Attribute

-- BTCHeader
pub record BtcHeader : Type 0 where
  pub event_type : String
  pub header : String
  pub hash : String
  pub height : ℕ
  pub work : String

-- BTCInsertEvent
pub record BtcInsertEvent : Type 0 where
  pub reporter_address : String
  pub btc_headers : List BtcHeader

abbrev pub insert_headers_type_url : String
insert_headers_type_url = "/babylon.btclightclient.v1.MsgInsertHeaders"

abbrev pub btc_roll_forward_event : String
btc_roll_forward_event = "babylon.btclightclient.v1.EventBTCRollForward"

abbrev pub btc_rollback_event : String
btc_rollback_event = "babylon.btclightclient.v1.EventBTCRollBack"

pub record Strings : Type 0 where
  -- json.Unmarshal into a BTCHeader: ParseBTCHeader
  pub parse_btc_header : String → Result BtcHeader
  -- strings.Split
  pub split : String → String → List String

abbrev pub last_or {ℓ} : {A : Type ℓ} → A → List A → A
last_or a [] = a
last_or a (x ∷ l) = last_or x l

-- the variables of the loop
pub record Scan : Type 0 where
  pub btc_header_list : List BtcHeader
  pub reporter : String
  pub found : Bool

abbrev pub no_scan : Scan
no_scan = record { btc_header_list = []; reporter = ""; found = false }

abbrev pub is_insert : Attribute → Bool
is_insert a = (a.key == "action") && (a.value == insert_headers_type_url)

-- one attribute of a message: a second insert starts anew
unfoldable pub scan_message_attribute : Attribute → Scan → Scan
scan_message_attribute a s =
    let s' : Scan =
      (if is_insert a
        then (if s.found
            then record { btc_header_list = []; reporter = ""; found = true }
            else record s { found = true })
        else s) in
    if s'.found && (a.key == "sender") && (s'.reporter == "")
    then record s' { reporter = a.value }
    else s'

unfoldable pub scan_message : List Attribute → Scan → Scan
unfolding scan_message_attribute
scan_message [] s = s
scan_message (a ∷ attributes) s = scan_message attributes (scan_message_attribute a s)

module _ (p : Strings) where
  unfoldable pub extract_event_type : String → String
  extract_event_type event_type = last_or event_type (p.split event_type ".")

  unfoldable pub scan_header_attribute :
      String → Attribute → List BtcHeader → Result (List BtcHeader)
  unfolding extract_event_type
  scan_header_attribute type_name a headers =
      if a.key == "header"
      then (bind (wrap "failed to parse btc header event" (p.parse_btc_header a.value))
          λ h. ok (headers ++ (record h { event_type = extract_event_type type_name } ∷ [])))
      else ok headers

  unfoldable pub scan_headers : String → List Attribute → List BtcHeader → Result (List BtcHeader)
  unfolding scan_header_attribute
  scan_headers type_name [] headers = ok headers
  scan_headers type_name (a ∷ attributes) headers =
      bind (scan_header_attribute type_name a headers)
        λ headers'. scan_headers type_name attributes headers'

  abbrev pub is_roll : BlockEvent → Bool
  is_roll e = (e.type_name == btc_roll_forward_event) || (e.type_name == btc_rollback_event)

  abbrev pub message_of : BlockEvent → Scan → Scan
  message_of e s = if e.type_name == "message" then scan_message e.attributes s else s

  abbrev pub roll_of_event : BlockEvent → Scan → Result Scan
  roll_of_event e s =
      if s.found && is_roll e
      then (bind (scan_headers e.type_name e.attributes s.btc_header_list)
          λ headers. ok (record s { btc_header_list = headers }))
      else ok s

  unfoldable pub scan_event : BlockEvent → Scan → Result Scan
  unfolding scan_message scan_headers
  scan_event e s = roll_of_event e (message_of e s)

  unfoldable pub scan_events : List BlockEvent → Scan → Result Scan
  unfolding scan_event
  scan_events [] s = ok s
  scan_events (e ∷ events) s = bind (scan_event e s) λ s'. scan_events events s'

  -- The one insert event is appended at the last event; without an insert nothing is returned.
  unfoldable pub filter_btc_light_client_events : List BlockEvent → Result (List BtcInsertEvent)
  unfolding scan_events
  filter_btc_light_client_events events = bind (scan_events events no_scan) λ s. ok (
      if s.found
      then record { reporter_address = s.reporter; btc_headers = s.btc_header_list } ∷ []
      else [])
