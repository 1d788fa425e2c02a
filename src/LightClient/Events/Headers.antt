-- ===== src/LightClient/Events/Headers.antt =====
-- The headers of one event, read behind others.
use cvms.Base.{
  ◌≡◌, refl, sym, ap, ◌∙◌, inl, inr, String, List, [], ◌∷◌, ◌++◌, append_assoc, append-nil, ◌==◌,
  string_eq, Bool-cases, Result, ok, err, panic, wrap, bind,
}
use cvms.LightClient.Events.{Attribute, BtcHeader, Strings, scan_header_attribute, scan_headers}

one_header :
    (l : List BtcHeader) (h : BtcHeader) (r : Result (List BtcHeader))
    → (bind r λ hs. ok ((l ++ (h ∷ [])) ++ hs)) ≡ bind (bind r λ hs. ok (h ∷ hs)) λ hs. ok (l ++ hs)
one_header l h (ok hs) = ap ok (append_assoc l (h ∷ []) hs)
one_header l h (err e) = refl
one_header l h panic = refl

-- the headers of one attribute, if it parses, in front of those of the others
scan_headers_step :
    (p : Strings) (name : String) (attributes : List Attribute) (l : List BtcHeader)
    (r : Result BtcHeader) (mark : BtcHeader → BtcHeader)
    → ((k : List BtcHeader)
        → scan_headers p name attributes k
          ≡ bind (scan_headers p name attributes []) λ hs. ok (k ++ hs))
    → (bind (bind r λ h. ok (l ++ (mark h ∷ []))) λ k. scan_headers p name attributes k)
      ≡ bind
          (bind (bind r λ h. ok (mark h ∷ [])) λ k. scan_headers p name attributes k)
          λ hs. ok (l ++ hs)
scan_headers_step p name attributes l (ok h) mark append =
    append (l ++ (mark h ∷ []))
    ∙ one_header l (mark h) (scan_headers p name attributes [])
    ∙ ap (λ r. bind r λ hs. ok (l ++ hs)) (sym (append (mark h ∷ [])))
scan_headers_step p name attributes l (err e) mark append = refl
scan_headers_step p name attributes l panic mark append = refl

pub scan_headers_append :
    (p : Strings) (name : String) (attributes : List Attribute) (l : List BtcHeader)
    → scan_headers p name attributes l ≡ bind (scan_headers p name attributes []) λ hs. ok (l ++ hs)
unfolding scan_headers scan_header_attribute
scan_headers_append p name [] l = ap ok (sym (append-nil l))
scan_headers_append p name (a ∷ attributes) l = elim (Bool-cases (a.key == "header")) [
  | inl header ↦ rw header (
      scan_headers_step p name attributes l
        (wrap "failed to parse btc header event" (p.parse_btc_header a.value)) _
        (scan_headers_append p name attributes))
  | inr other ↦ rw other (scan_headers_append p name attributes l)
]
