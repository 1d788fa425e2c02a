-- ===== src/LightClient/Events/Found.antt =====
-- The state of the filter of events: headers are only there once an insert is found, and a message
-- with an insert starts without any.
use mathlib.Core.Path.{subst}
use cvms.Base.{
  ok_injective, if_ind, ◌≡◌, refl, sym, ◌∙◌, ◌⊎◌, inl, inr, Bool, true, false, ◌&&◌, ◌||◌, List, [],
  ◌∷◌, arith, ◌==◌, string_eq, Bool-cases, ok, bind-eq-ok,
}
use cvms.LightClient.Events.{
  Attribute, BlockEvent, BtcHeader, Strings, Scan, is_insert, scan_message_attribute, scan_message,
  scan_headers, is_roll, message_of, roll_of_event, scan_event, scan_events,
}

-- an attribute that starts an insert, among those of a message
abbrev pub has_insert : List Attribute → Bool
has_insert [] = false
has_insert (a ∷ attributes) = is_insert a || has_insert attributes

-- Headers and a reporter are collected only behind an insert.
abbrev pub Ordered : Scan → Type 0
Ordered s = (s.found ≡ true) ⊎ ((s.btc_header_list ≡ []) × (s.reporter ≡ ""))

-- An attribute with an insert starts anew, whether or not there was one before.
pub attribute_restarts :
    (a : Attribute) (s : Scan)
    → a.key ≡ "action"
    → a.value ≡ "/babylon.btclightclient.v1.MsgInsertHeaders"
    → Ordered s
    → scan_message_attribute a s ≡ record { btc_header_list = []; reporter = ""; found = true }
unfolding scan_message_attribute
attribute_restarts a s k v o = elim (Bool-cases s.found) [
  | inl before ↦ rw (k, v, before) refl
  | inr first ↦ elim o [
    | inl found ↦ let e : true ≡ false = sym found ∙ first in cc
    | inr (l, r) ↦ rw (k, v, first, l, r) refl
  ]
]

attribute-Ordered : (a : Attribute) (s : Scan) → Ordered s → Ordered (scan_message_attribute a s)
unfolding scan_message_attribute
attribute-Ordered a s (inl f) = inl (ground (arith, f))
attribute-Ordered a s (inr (l, r)) = elim (Bool-cases s.found) [
  | inl f ↦ inl (ground (arith, f))
  | inr f ↦ elim (Bool-cases (is_insert a)) [
    | inl i ↦ inl (ground (arith, f, i))
    | inr i ↦ inr (rw (i, f) (l, r))
  ]
]

pub scan_message-Ordered :
    (attributes : List Attribute) (s : Scan) → Ordered s → Ordered (scan_message attributes s)
unfolding scan_message
scan_message-Ordered [] s h = h
scan_message-Ordered (a ∷ attributes) s h =
    scan_message-Ordered attributes (scan_message_attribute a s) (attribute-Ordered a s h)

and_first : (a b : Bool) → (a && b) ≡ true → a ≡ true
and_first true b e = refl
and_first false b e = cc

roll_of_event-Ordered :
    (p : Strings) (e : BlockEvent) (s s' : Scan)
    → Ordered s
    → roll_of_event p e s ≡ ok s'
    → Ordered s'
roll_of_event-Ordered p e s s' o h = elim (Bool-cases (s.found && is_roll p e)) [
  | inl rolls ↦
      let h' = rw rolls at h in
      let (headers, _, made) =
        bind-eq-ok (scan_headers p e.type_name e.attributes s.btc_header_list) _ h' in
      subst Ordered (ok_injective made)
        (found-Ordered headers (and_first s.found (is_roll p e) rolls))
  | inr other ↦ subst Ordered (ok_injective (rw other at h)) o
]
  where
    found-Ordered :
        (headers : List BtcHeader)
        → s.found ≡ true
        → Ordered (record s { btc_header_list = headers })
    found-Ordered headers f = inl f

scan_event-Ordered :
    (p : Strings) (e : BlockEvent) (s s' : Scan) → Ordered s → scan_event p e s ≡ ok s' → Ordered s'
unfolding scan_event
scan_event-Ordered p e s s' o h =
    roll_of_event-Ordered p e (message_of p e s) s'
      (if_ind Ordered (e.type_name == "message") _ _ (scan_message-Ordered e.attributes s o) o) h

pub scan_events-Ordered :
    (p : Strings) (events : List BlockEvent) (s s' : Scan)
    → Ordered s
    → scan_events p events s ≡ ok s'
    → Ordered s'
unfolding scan_events
scan_events-Ordered p [] s s' o h = subst Ordered (ok_injective h) o
scan_events-Ordered p (e ∷ events) s s' o h =
    let (next, one, rest) = bind-eq-ok (scan_event p e s) _ h in
    scan_events-Ordered p events next s' (scan_event-Ordered p e s next o one) rest
