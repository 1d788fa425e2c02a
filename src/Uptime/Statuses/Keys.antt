-- ===== src/Uptime/Statuses/Keys.antt =====
-- The two maps of getValidatorUptimeStatus of uptime/api/uptime.go.
use cvms.Base.{
  ◌≡◌, ◌∙◌, inl, inr, String, Bool-cases, List, [], ◌∷◌, none, some, Option, Result, ok, err, panic,
  bind-eq-ok, ◌==◌, string_eq, if◌then◌else◌, lookup, lookup-put, Error,
}
use cvms.Indexer.Types.{CosmosValidator}
use cvms.Uptime.{UptimeCodecs, replace_error}
use cvms.Uptime.Statuses.{KeyMaps, make_key_maps, add_key, failed_convert_types}

-- The last of the validators with this public key.
abbrev pub last_with_key : String → List CosmosValidator → Option CosmosValidator
last_with_key k [] = none
last_with_key k (v ∷ l) = elim (last_with_key k l) [
  | some u ↦ some u
  | none ↦ if v.pubkey_value == k then some v else none
]

replace_error-eq-ok :
    {A : Type 0} (e : Error) (r : Result A) (a : A) → replace_error e r ≡ ok a → r ≡ ok a
replace_error-eq-ok e (ok b) a h = h
replace_error-eq-ok e (err x) a h = cc
replace_error-eq-ok e panic a h = cc

module _ {F : Type 0} (codecs : UptimeCodecs F) (prefix : String) where
  -- What the maps have at a key, `before` being the maps to which the validators are added.
  pub data Holds (k : String) (before after : KeyMaps codecs)
      : Option CosmosValidator → Type 0 where
    untouched :
        lookup k after.0 ≡ lookup k before.0
        → lookup k after.1 ≡ lookup k before.1
        → Holds k before after none
    entered :
        (v : CosmosValidator) (address : String) (vp : F)
        → codecs.convert_and_encode prefix v.address ≡ ok address
        → codecs.parse_float v.voting_power ≡ ok vp
        → lookup k after.0 ≡ some address
        → lookup k after.1 ≡ some vp
        → Holds k before after (some v)

  add_one :
      (k : String) (v : CosmosValidator) (address : String) (vp : F) (before after : KeyMaps codecs)
      (last : Option CosmosValidator)
      → codecs.convert_and_encode prefix v.address ≡ ok address
      → codecs.parse_float v.voting_power ≡ ok vp
      → Holds k (add_key codecs v before address vp) after last
      → Holds k before after
          (elim last [ some u ↦ some u | none ↦ if v.pubkey_value == k then some v else none ])
  add_one k v address vp (a, p) after (some u) ha hp (entered u' b q hb hq la lp) =
      entered u b q hb hq la lp
  add_one k v address vp (a, p) after none ha hp (untouched la lp) =
      let at_a = lookup-put v.pubkey_value k address a in
      let at_p = lookup-put v.pubkey_value k vp p in
      elim (Bool-cases (v.pubkey_value == k)) [
        | inl same ↦
            rw same (entered v address vp ha hp (la ∙ at_a ∙ rw same) (lp ∙ at_p ∙ rw same))
        | inr other ↦ rw other (untouched (la ∙ at_a ∙ rw other) (lp ∙ at_p ∙ rw other))
      ]

  make_key_maps-Holds :
      (k : String) (l : List CosmosValidator) (before after : KeyMaps codecs)
      → make_key_maps codecs prefix l before ≡ ok after
      → Holds k before after (last_with_key k l)
  unfolding make_key_maps
  make_key_maps-Holds k [] before after e =
      let same : before ≡ after = cc in untouched (rw same) (rw same)
  make_key_maps-Holds k (v ∷ l) before after e =
      let (address, ha, e1) =
        bind-eq-ok (replace_error failed_convert_types (codecs.convert_and_encode prefix v.address))
          _ e in
      let (vp, hp, e2) =
        bind-eq-ok (replace_error failed_convert_types (codecs.parse_float v.voting_power)) _ e1 in
      add_one k v address vp before after (last_with_key k l) (replace_error-eq-ok _ _ address ha)
        (replace_error-eq-ok _ _ vp hp)
        (make_key_maps-Holds k l (add_key codecs v before address vp) after e2)

  -- If the maps are made, each has at a public key what the last consensus validator with that key
  -- comes to, its consensus address and its voting power, and nothing at a key that no consensus
  -- validator has.
  pub make_key_maps_last :
      (k : String) (l : List CosmosValidator) (maps : KeyMaps codecs)
      → make_key_maps codecs prefix l ([], []) ≡ ok maps
      → Holds k ([], []) maps (last_with_key k l)
  make_key_maps_last k l maps e = make_key_maps-Holds k l ([], []) maps e
