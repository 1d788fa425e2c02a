-- ===== src/Uptime/Statuses/Untokened.antt =====
-- The staking validators of Story and Initia, whose parsers (internal/common/parser/story.go and
-- initia.go) leave the tokens out by which uptime/api/uptime.go sorts.
use mathlib.Core.List.{Permᴰ}
use mathlib.Core.Path.{subst}
use cvms.Base.{
  ◌≡◌, refl, sym, ap, inl, inr, String, Bool-cases, List, [], ◌∷◌, ok, bind-eq-ok, arith, ◌==◌,
  string_eq, All, ◌∙◌,
}
use cvms.Indexer.Fetch.Honest.{All-perm}
use cvms.Uptime.{
  CosmosStakingValidator, StoryStakingValidator, InitiaStakingValidator, UptimeCodecs, cause,
  replace_error, of_story, story_validator_list, story_staking_validator_parser, bonded_validators,
  bond_status_bonded, initia_staking_validator_parser, tendermint_secp256k1, failed_json_unmarshal,
}
use cvms.Uptime.Statuses.Slices.{tokens_of, AtLeast, Descending}

-- its tokens are the empty string
abbrev Untokened : CosmosStakingValidator → Type 0
Untokened v = v.tokens ≡ ""

module _ {F : Type 0} (codecs : UptimeCodecs F) where
  AtLeast-Untokened :
      (v : CosmosStakingValidator) (l : List CosmosStakingValidator)
      → Untokened v
      → All Untokened l
      → AtLeast codecs v l
  AtLeast-Untokened v [] e h = tt
  AtLeast-Untokened v (w ∷ l) e (f, h) =
      let same : tokens_of codecs w ≡ tokens_of codecs v =
        ap (λ s. (codecs.parse_int s).0) (f ∙ sym e) in
      (omega (arith, same), AtLeast-Untokened v l e h)

  Descending-Untokened : (l : List CosmosStakingValidator) → All Untokened l → Descending codecs l
  Descending-Untokened [] h = tt
  Descending-Untokened (v ∷ l) (e, h) = (AtLeast-Untokened v l e h, Descending-Untokened l h)

  story_validator_list-Untokened :
      (l : List StoryStakingValidator) (found : List CosmosStakingValidator)
      → story_validator_list codecs l ≡ ok found
      → All Untokened found
  unfolding story_validator_list
  story_validator_list-Untokened [] found e =
      let same : [] ≡ found = cc in subst (λ k. All Untokened k) same tt
  story_validator_list-Untokened (v ∷ l) found e =
      elim (Bool-cases (v.story_pubkey_type == tendermint_secp256k1)) [
        | inl same ↦
            let (rest, got, e') = bind-eq-ok (story_validator_list codecs l) _ (rw same at e) in
            let here : of_story codecs v ∷ rest ≡ found = cc in
            subst (λ k. All Untokened k) here (refl, story_validator_list-Untokened l rest got)
        | inr other ↦ let e' = (rw other at e) in cc
      ]

  bonded_validators-Untokened :
      (l : List InitiaStakingValidator) → All Untokened (bonded_validators codecs l)
  unfolding bonded_validators
  bonded_validators-Untokened [] = tt
  bonded_validators-Untokened (v ∷ l) =
      elim (Bool-cases (v.initia_status == bond_status_bonded codecs)) [
        | inl same ↦ rw same (refl, bonded_validators-Untokened l)
        | inr other ↦ rw other (bonded_validators-Untokened l)
      ]

  -- what the two parsers make of a body
  pub data ParsedUntokened (body : String) (l : List CosmosStakingValidator) : Type 0 where
    of_a_story : story_staking_validator_parser codecs body ≡ ok l → ParsedUntokened body l
    of_initia : initia_staking_validator_parser codecs body ≡ ok l → ParsedUntokened body l

  ParsedUntokened-Untokened :
      (body : String) (l : List CosmosStakingValidator) → ParsedUntokened body l → All Untokened l
  unfolding story_staking_validator_parser initia_staking_validator_parser
  ParsedUntokened-Untokened body l (of_a_story e) =
      let (vs, got, e') =
        bind-eq-ok (replace_error failed_json_unmarshal (codecs.story_validators body)) _ e in
      story_validator_list-Untokened vs l e'
  ParsedUntokened-Untokened body l (of_initia e) =
      let (vs, got, e') = bind-eq-ok (cause (codecs.initia_validators body)) _ e in
      let same : bonded_validators codecs vs ≡ l = cc in
      subst (λ k. All Untokened k) same (bonded_validators-Untokened vs)

  -- Any order of the staking validators that the parser for Story or for Initia returns is descending
  -- by tokens, so that which of them the exporter keeps is left to sort.Slice.
  pub untokened_any_order :
      (body : String) (l l' : List CosmosStakingValidator)
      → ParsedUntokened body l
      → Permᴰ l' l
      → Descending codecs l'
  untokened_any_order body l l' parsed perm =
      Descending-Untokened l' (All-perm Untokened perm (ParsedUntokened-Untokened body l parsed))
