-- ===== src/NodeApi/Parser/Versions.antt =====
-- The parsers of internal/common/parser/cosmos.go on the two shapes in which nodes wrap the same
-- data, and the decoding of attributes.
use mathlib.Core.Path.{ap₂}
use cvms.LightClient.Events.{Attribute, BlockEvent}
use cvms.NodeApi.Parser.{decode_attributes, decode_events}
use cvms.Base.{
  map, Bool-cases, inl, inr, sym, ap, ◌∙◌, beq_self, if_ind, refl, ◌≡◌, String, true, false, List,
  [], ◌∷◌, ◌==◌, string_eq, Error, ok, err,
}
use cvms.Indexer.Types.{CosmosValidator}
use cvms.NodeApi.Parser.{
  CosmosBlock, CosmosValidators, Decoders, cosmos_block_parser, cosmos_validator_parser,
  decode_base64_if_possible,
}

-- `resp34` and `resp37` are one block, written by a node up to v0.34 and by one from v0.37 on.
pub record SameBlock (d : Decoders) (resp34 resp37 : String) (b : CosmosBlock) : Type 0 where
  pub block_with_jsonrpc : d.has_jsonrpc resp34 ≡ ok true
  pub block_without_jsonrpc : d.has_jsonrpc resp37 ≡ ok false
  pub block_read_v34 : d.block_v34 resp34 ≡ ok b
  pub block_read_v37 : d.block_v37 resp37 ≡ ok b

-- Both responses give the same result, whether or not the heights in them are numbers.
pub cosmos_block_parser_versions :
    (d : Decoders) (resp34 resp37 : String) (b : CosmosBlock)
    → SameBlock d resp34 resp37 b
    → cosmos_block_parser d resp34 ≡ cosmos_block_parser d resp37
unfolding cosmos_block_parser
cosmos_block_parser_versions d resp34 resp37 b same =
    rw (
      same.block_with_jsonrpc, same.block_without_jsonrpc, same.block_read_v34, same.block_read_v37,
    )

-- Likewise for validators. The v0.34 type is tried on either: on a v0.37 response it finds none.
pub record SameValidators (d : Decoders) (resp34 resp37 : String) (v : CosmosValidators)
    : Type 0 where
  pub validators_read_v34 : d.validators_v34 resp34 ≡ ok v
  pub validators_wrong_v34 : d.validators_v34 resp37 ≡ ok (record { validators = []; total = "" })
  pub validators_read_v37 : d.validators_v37 resp37 ≡ ok v
  pub validators_wrong_v37 : d.validators_v37 resp34 ≡ ok (record { validators = []; total = "" })

-- Of a page with at least one validator both responses give the same, be its total a number or not.
pub cosmos_validator_parser_versions :
    (d : Decoders) (resp34 resp37 : String) (c : CosmosValidator) (cs : List CosmosValidator)
    (total : String)
    → SameValidators d resp34 resp37 (record { validators = c ∷ cs; total = total })
    → cosmos_validator_parser d resp34 ≡ cosmos_validator_parser d resp37
unfolding cosmos_validator_parser
cosmos_validator_parser_versions d resp34 resp37 c cs total same =
    rw (same.validators_read_v34, same.validators_wrong_v34, same.validators_read_v37)

-- What RFC 4648 says of the standard base64 of a text.
pub record Base64Laws (d : Decoders) : Type 0 where
  pub decode-encode : (s : String) → d.decode_base64 (d.encode_base64 s) ≡ ok s
  pub encode_nil : d.encode_base64 "" ≡ ""
  pub encode_nonempty : (s : String) → d.encode_base64 s ≡ "" → s ≡ ""

-- The events as a node that encodes the keys and values of attributes writes them.
abbrev pub encode_attributes : Decoders → List Attribute → List Attribute
encode_attributes d l =
    map (λ a. record { key = d.encode_base64 a.key; value = d.encode_base64 a.value }) l

abbrev pub encode_events : Decoders → List BlockEvent → List BlockEvent
encode_events d l =
    map (λ e. record { type_name = e.type_name; attributes = encode_attributes d e.attributes }) l

module _ (d : Decoders) (laws : Base64Laws d) where
  decode_base64_if_possible-encode :
      (s : String) → decode_base64_if_possible d (d.encode_base64 s) ≡ s
  unfolding decode_base64_if_possible
  decode_base64_if_possible-encode s = elim (Bool-cases (d.encode_base64 s == "")) [
    | inl e ↦
        let empty = (string_eq.test_iff (d.encode_base64 s) "").0 e in
        rw e (empty ∙ sym (laws.encode_nonempty s empty))
    | inr e ↦ rw (e, laws.decode-encode s, beq_self (d.encode_base64 s))
  ]

  decode_attributes-encode : (l : List Attribute) → decode_attributes d (encode_attributes d l) ≡ l
  unfolding decode_attributes
  decode_attributes-encode [] = refl
  decode_attributes-encode (a ∷ l) =
      ap₂ (λ (b : Attribute) k. b ∷ k)
        (ap₂ (λ x y. let b : Attribute = record { key = x; value = y } in b)
          (decode_base64_if_possible-encode a.key) (decode_base64_if_possible-encode a.value))
        (decode_attributes-encode l)

  -- Events whose attributes are in base64 are read as what they encode, empty keys and values too.
  pub decode_events-encode : (l : List BlockEvent) → decode_events d (encode_events d l) ≡ l
  unfolding decode_events
  decode_events-encode [] = refl
  decode_events-encode (e ∷ l) =
      ap₂ (λ (b : BlockEvent) k. b ∷ k)
        (ap (λ x. let b : BlockEvent = record { type_name = e.type_name; attributes = x } in b)
          (decode_attributes-encode e.attributes))
        (decode_events-encode l)

  -- A text that base64 does not read is kept.
  pub decode_base64_if_possible_plain :
      (text : String) (e : Error)
      → d.decode_base64 text ≡ err e
      → decode_base64_if_possible d text ≡ text
  unfolding decode_base64_if_possible
  decode_base64_if_possible_plain text e failed =
      rw failed (if_ind (λ x. x ≡ text) (text == "") text text refl refl)
