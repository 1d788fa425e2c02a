-- ===== src/LightClient/Events/Last.antt =====
-- What filterBTCLightClientEvents returns for a block with an insert: the headers behind the last
-- message that inserts.
use cvms.Base.{
  ok_injective, ◌≡◌, refl, sym, ap, ◌∙◌, inl, inr, String, Bool, true, false, ◌&&◌, ◌||◌, List, [],
  ◌∷◌, ◌++◌, append_assoc, append-nil, arith, if◌then◌else◌, ◌==◌, string_eq, Bool-cases, All,
  Result, ok, err, panic, bind, bind-eq-ok,
}
use cvms.LightClient.Events.Headers.{scan_headers_append}
use cvms.LightClient.Events.Found.{
  has_insert, Ordered, attribute_restarts, scan_message-Ordered, scan_events-Ordered,
}
use cvms.LightClient.Events.{
  Attribute, BlockEvent, BtcHeader, BtcInsertEvent, Strings, Scan, no_scan, is_insert,
  scan_message_attribute, scan_message, scan_headers, is_roll, message_of, scan_event, scan_events,
  filter_btc_light_client_events,
}

abbrev pub inserts : BlockEvent → Bool
inserts e = (e.type_name == "message") && has_insert e.attributes

-- The sender that the reporter is taken from while it is empty.
abbrev pub sender_in : List Attribute → String → String
sender_in [] r = r
sender_in (a ∷ attributes) r =
    sender_in attributes (if (a.key == "sender") && (r == "") then a.value else r)

abbrev pub senders : List BlockEvent → String → String
senders [] r = r
senders (e ∷ events) r =
    senders events (if e.type_name == "message" then sender_in e.attributes r else r)

abbrev pub headers_in : Strings → List BlockEvent → Result (List BtcHeader)
headers_in p [] = ok []
headers_in p (e ∷ events) =
    let rest = headers_in p events in
    if is_roll p e
    then (bind (scan_headers p e.type_name e.attributes []) λ hs. bind rest λ hs'. ok (hs ++ hs'))
    else rest

-- An attribute that does not insert, behind one that did.
scan_message_attribute_found :
    (a : Attribute) (s : Scan)
    → is_insert a ≡ false
    → s.found ≡ true
    → scan_message_attribute a s ≡ record s {
      reporter = if (a.key == "sender") && (s.reporter == "") then a.value else s.reporter;
    }
unfolding scan_message_attribute
scan_message_attribute_found a s n f =
    elim (Bool-cases ((a.key == "sender") && (s.reporter == ""))) [
      | inl taken ↦ rw (n, f, taken) refl
      | inr kept ↦ rw (n, f, kept) refl
    ]

or_false : (a b : Bool) → (a || b) ≡ false → (a ≡ false) × (b ≡ false)
or_false true b e = cc
or_false false b e = (refl, e)

scan_message_found :
    (attributes : List Attribute) (s : Scan)
    → has_insert attributes ≡ false
    → s.found ≡ true
    → scan_message attributes s ≡ record s { reporter = sender_in attributes s.reporter }
unfolding scan_message
scan_message_found [] s n f = refl
scan_message_found (a ∷ attributes) s n f =
    let (n', n'') = or_false (is_insert a) (has_insert attributes) n in
    let one = scan_message_attribute_found a s n' f in
    rw one (
      scan_message_found attributes
        (record s {
          reporter = if (a.key == "sender") && (s.reporter == "") then a.value else s.reporter;
        })
        n'' f)

message_of_found :
    (p : Strings) (e : BlockEvent) (s : Scan)
    → inserts e ≡ false
    → s.found ≡ true
    → message_of p e s ≡ record s {
      reporter = if e.type_name == "message" then sender_in e.attributes s.reporter else s.reporter;
    }
message_of_found p e s n f = elim (Bool-cases (e.type_name == "message")) [
  | inl message ↦
      let plain : has_insert e.attributes ≡ false = rw message at n in
      rw message (scan_message_found e.attributes s plain f)
  | inr other ↦ rw other refl
]

abbrev final : List BtcHeader → String → List BtcHeader → Scan
final l r hs = record { btc_header_list = l ++ hs; reporter = r; found = true }

join_headers :
    (l k : List BtcHeader) (r : String) (rest : Result (List BtcHeader))
    → (bind rest λ hs. ok (final (l ++ k) r hs))
      ≡ bind (bind rest λ hs. ok (k ++ hs)) λ hs. ok (final l r hs)
join_headers l k r (ok hs) =
    ap (λ x. ok (record { btc_header_list = x; reporter = r; found = true })) (append_assoc l k hs)
join_headers l k r (err e) = refl
join_headers l k r panic = refl

-- one rolling event in front of others
roll_step :
    (s : Scan) (r : String) (own rest : Result (List BtcHeader)) (k : Scan → Result Scan)
    → ((l : List BtcHeader)
        → k (record s { btc_header_list = l }) ≡ bind rest λ hs. ok (final l r hs))
    → (bind
        (bind
          (bind own λ hs. ok (s.btc_header_list ++ hs))
          λ l. ok (record s { btc_header_list = l }))
        k)
      ≡ bind
          (bind own λ hs. bind rest λ hs'. ok (hs ++ hs'))
          λ hs. ok (final s.btc_header_list r hs)
roll_step s r (ok hs) rest k step =
    step (s.btc_header_list ++ hs) ∙ join_headers s.btc_header_list hs r rest
roll_step s r (err e) rest k step = refl
roll_step s r panic rest k step = refl

-- The events behind the last insert.
scan_events_found :
    (p : Strings) (events : List BlockEvent) (s : Scan)
    → All (λ (e : BlockEvent). inserts e ≡ false) events
    → s.found ≡ true
    → scan_events p events s
      ≡ bind (headers_in p events) λ hs. ok (final s.btc_header_list (senders events s.reporter) hs)
unfolding scan_events scan_event
scan_events_found p [] s n f = rw (append-nil s.btc_header_list, sym f) refl
scan_events_found p (e ∷ events) s (n, ns) f =
    let r = if e.type_name == "message" then sender_in e.attributes s.reporter else s.reporter in
    let s' : Scan = record { btc_header_list = s.btc_header_list; reporter = r; found = true } in
    elim (Bool-cases (is_roll p e)) [
      | inl roll ↦
          rw
            (
              message_of_found p e s n f,
              f,
              roll,
              scan_headers_append p e.type_name e.attributes s.btc_header_list,
            )
            (roll_step s' (senders events r) (scan_headers p e.type_name e.attributes [])
              (headers_in p events) (scan_events p events)
              (λ l. scan_events_found p events (record s' { btc_header_list = l }) ns refl))
      | inr other ↦
          rw (message_of_found p e s n f, f, other) (scan_events_found p events s' ns refl)
    ]

scan_events_append :
    (p : Strings) (before events : List BlockEvent) (s s' : Scan)
    → scan_events p before s ≡ ok s'
    → scan_events p (before ++ events) s ≡ scan_events p events s'
unfolding scan_events
scan_events_append p [] events s s' h = ap (scan_events p events) (ok_injective h)
scan_events_append p (e ∷ before) events s s' h =
    let (next, one, rest) = bind-eq-ok (scan_event p e s) _ h in
    rw one (scan_events_append p before events next s' rest)

-- A message is no rolling event.
scan_event_message :
    (p : Strings) (e : BlockEvent) (s : Scan)
    → e.type_name ≡ "message"
    → scan_event p e s ≡ ok (scan_message e.attributes s)
unfolding scan_event
scan_event_message p e s m =
    let message : (e.type_name == "message") ≡ true = rw m refl in
    let plain : is_roll p e ≡ false = rw m refl in
    rw (message, plain) (no_roll (scan_message e.attributes s) _)
  where
    no_roll : (x : Scan) (r : Result Scan) → (if x.found && false then r else ok x) ≡ ok x
    no_roll x r = ground arith

abbrev insert_event : Scan → List BtcInsertEvent
insert_event s =
    if s.found
    then record { reporter_address = s.reporter; btc_headers = s.btc_header_list } ∷ []
    else []

found_event :
    (r : String) (hs : Result (List BtcHeader)) (l : List BtcHeader)
    → l ≡ []
    → (bind (bind hs λ x. ok (final l r x)) λ s. ok (insert_event s))
      ≡ bind hs λ x. ok (record { reporter_address = r; btc_headers = x } ∷ [])
found_event r (ok x) l e = rw e refl
found_event r (err x) l e = refl
found_event r panic l e = refl

scan_message_append :
    (pre post : List Attribute) (s : Scan)
    → scan_message (pre ++ post) s ≡ scan_message post (scan_message pre s)
unfolding scan_message
scan_message_append [] post s = refl
scan_message_append (a ∷ pre) post s = scan_message_append pre post (scan_message_attribute a s)

-- A message whose last insert is the attribute `a`.
scan_message_last :
    (pre : List Attribute) (a : Attribute) (post : List Attribute) (s : Scan)
    → a.key ≡ "action"
    → a.value ≡ "/babylon.btclightclient.v1.MsgInsertHeaders"
    → has_insert post ≡ false
    → Ordered s
    → scan_message (pre ++ (a ∷ post)) s ≡ final [] (sender_in post "") []
unfolding scan_message scan_message_attribute
scan_message_last pre a post s k v none o =
    scan_message_append pre (a ∷ post) s
    ∙ ap (scan_message post)
        (attribute_restarts a (scan_message pre s) k v (scan_message-Ordered pre s o))
    ∙ scan_message_found post (final [] "" []) none refl

-- If the events before a message that inserts are read without an error, and no message behind it
-- inserts, one insert event is returned, with the headers behind that message, or the error of
-- parsing them: whatever headers came before it are dropped. The reporter is the first sender that
-- is not empty behind the message's last insert, in the message itself or in a later one: whatever
-- reporter came before that insert is dropped, too.
pub filter_btc_light_client_events_last :
    (p : Strings) (before : List BlockEvent) (e : BlockEvent) (behind : List BlockEvent) (s : Scan)
    (pre : List Attribute) (a : Attribute) (post : List Attribute)
    → scan_events p before no_scan ≡ ok s
    → e.type_name ≡ "message"
    → e.attributes ≡ pre ++ (a ∷ post)
    → a.key ≡ "action"
    → a.value ≡ "/babylon.btclightclient.v1.MsgInsertHeaders"
    → has_insert post ≡ false
    → All (λ (x : BlockEvent). inserts x ≡ false) behind
    → filter_btc_light_client_events p (before ++ (e ∷ behind))
      ≡ bind (headers_in p behind) λ headers. ok (
          record { reporter_address = senders behind (sender_in post ""); btc_headers = headers }
          ∷ [])
unfolding filter_btc_light_client_events scan_events
filter_btc_light_client_events_last p before e behind s pre a post read message parts k v none
      more =
    let start : Ordered no_scan = inr (refl, refl) in
    let ordered = scan_events-Ordered p before no_scan s start read in
    rw
      (
        scan_events_append p before (e ∷ behind) no_scan s read,
        scan_event_message p e s message,
        parts,
        scan_message_last pre a post s k v none ordered,
        scan_events_found p behind (final [] (sender_in post "") []) more refl,
      )
      (found_event (senders behind (sender_in post "")) (headers_in p behind) [] refl)
