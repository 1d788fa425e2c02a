-- ===== src/Uptime/Statuses/Reads.antt =====
-- What one status of getValidatorUptimeStatus of uptime/api/uptime.go says, told from the node's
-- answer and the maps: from which answer and which fields each of its values comes.
use mathlib.Core.Path.{subst, ap₂}
use cvms.Base.{
  ◌≡◌, ◌≢◌, refl, sym, ◌∙◌, inl, inr, String, Bool, Bool-cases, true, false, Option-cases, none,
  some, ok, bind-eq-ok, wrap-eq-ok, ok_injective, ◌==◌, string_eq, nat_eq, if◌then◌else◌, Map,
  lookup,
}
use cvms.NodeApi.Calls.{HttpAnswer, failed, answered}
use cvms.Uptime.{
  CosmosStakingValidator, ValidatorUptimeStatus, ValidatorSigningInfo, UptimeCodecs, parse_counter,
  tombstoned_float, cosmos_slashing_parser, story_slashing_parser,
}
use cvms.Uptime.Statuses.{KeyMaps, value_or, uptime_body, address_at, slashing_parser, uptime_of}

-- What a key of a map reads, where `zero` is read at a key that is not there.
pub data ReadAt {V : Type 0} (zero : V) (k : String) (m : Map String V) : V → Type 0 where
  entry : (v : V) → lookup k m ≡ some v → ReadAt zero k m v
  no_entry : lookup k m ≡ none → ReadAt zero k m zero

module _ {F : Type 0} (codecs : UptimeCodecs F) where
  -- 1 for a validator that is tombstoned, and 0 for another
  pub data FlagOf : Bool → F → Type 0 where
    is_tombstoned : FlagOf true codecs.one_float
    not_tombstoned : FlagOf false codecs.zero_float

  -- A body of a chain of this name, with the flag and the missed blocks that it says. Only Story
  -- leaves out the counter of a validator that has missed none.
  pub data Says (chain_name body : String) : F → F → Type 0 where
    says_cosmos :
        (info : ValidatorSigningInfo) (offset flag missed : F)
        → chain_name ≢ "story"
        → codecs.cosmos_signing_info body ≡ ok info
        → codecs.parse_float info.info_index_offset ≡ ok offset
        → codecs.parse_float info.info_missed_blocks_counter ≡ ok missed
        → FlagOf info.tombstoned flag
        → Says chain_name body flag missed
    says_story :
        (info : ValidatorSigningInfo) (offset flag missed : F)
        → chain_name ≡ "story"
        → codecs.story_signing_info body ≡ ok info
        → codecs.parse_float info.info_index_offset ≡ ok offset
        → info.info_missed_blocks_counter ≢ ""
        → codecs.parse_float info.info_missed_blocks_counter ≡ ok missed
        → FlagOf info.tombstoned flag
        → Says chain_name body flag missed
    says_story_none :
        (info : ValidatorSigningInfo) (offset flag : F)
        → chain_name ≡ "story"
        → codecs.story_signing_info body ≡ ok info
        → codecs.parse_float info.info_index_offset ≡ ok offset
        → info.info_missed_blocks_counter ≡ ""
        → FlagOf info.tombstoned flag
        → Says chain_name body flag codecs.zero_float

  -- The status `s` of the staking validator `v`.
  pub record StatusOf (chain_name : String) (answer : String → HttpAnswer) (maps : KeyMaps codecs)
      (v : CosmosStakingValidator) (s : ValidatorUptimeStatus F) : Type 0 where
    pub body : String
    pub answered_ok : answer s.validator_consensus_address ≡ answered 200 body
    pub said : Says chain_name body s.is_tomstoned s.missed_block_counter
    pub address_read : ReadAt "" v.consensus_pubkey_key maps.0 s.validator_consensus_address
    pub power_read : ReadAt codecs.zero_float v.consensus_pubkey_key maps.1 s.voting_power
    pub same_moniker : s.status_moniker ≡ v.moniker
    pub same_operator : s.validator_operator_address ≡ v.operator_address
    pub own_proposer :
        s.proposer_address ≡ codecs.proposer_address_from_public_key v.consensus_pubkey_key
    pub no_consumer : s.consumer_consensus_address ≡ ""

  uptime_body-eq-ok :
      (x : HttpAnswer) (body : String) → uptime_body x ≡ ok body → x ≡ answered 200 body
  uptime_body-eq-ok (failed e) body h = cc
  uptime_body-eq-ok (answered code text) body h = elim (Bool-cases (code == 200)) [
    | inl same ↦
        let h' : text ≡ body = ok_injective (rw same at h) in
        ap₂ answered ((nat_eq.test_iff code 200).0 same) h'
    | inr other ↦ let h' = (rw other at h) in cc
  ]

  tombstoned-FlagOf : (b : Bool) → FlagOf b (if b then codecs.one_float else codecs.zero_float)
  tombstoned-FlagOf true = is_tombstoned
  tombstoned-FlagOf false = not_tombstoned

  cosmos-Says :
      (chain_name body : String) (flag missed : F)
      → chain_name ≢ "story"
      → cosmos_slashing_parser codecs body ≡ ok (flag, missed)
      → Says chain_name body flag missed
  unfolding cosmos_slashing_parser
  cosmos-Says chain_name body flag missed other e =
      let (info, read, e1) = bind-eq-ok (codecs.cosmos_signing_info body) _ e in
      let (offset, at, e2) = bind-eq-ok (codecs.parse_float info.info_index_offset) _ e1 in
      let (counter, count, e3) =
        bind-eq-ok (codecs.parse_float info.info_missed_blocks_counter) _ e2 in
      subst (λ (p : F × F). Says chain_name body p.0 p.1) (ok_injective e3)
        (says_cosmos info offset _ counter other read at count (tombstoned-FlagOf info.tombstoned))

  story-Says :
      (chain_name body : String) (flag missed : F)
      → chain_name ≡ "story"
      → story_slashing_parser codecs body ≡ ok (flag, missed)
      → Says chain_name body flag missed
  unfolding story_slashing_parser
  story-Says chain_name body flag missed story e =
      let (info, read, e1) = bind-eq-ok (codecs.story_signing_info body) _ e in
      let (offset, at, e2) = bind-eq-ok _ _ e1 in
      let at' = wrap-eq-ok _ (codecs.parse_float info.info_index_offset) at in
      let (counter, count, e3) =
        bind-eq-ok (parse_counter codecs info.info_missed_blocks_counter) _ e2 in
      subst (λ (p : F × F). Says chain_name body p.0 p.1) (ok_injective e3)
        (elim (Bool-cases (info.info_missed_blocks_counter == "")) [
          | inl blank ↦
              let none_missed : codecs.zero_float ≡ counter = ok_injective (rw blank at count) in
              subst (λ c. Says chain_name body (tombstoned_float codecs info.tombstoned) c)
                none_missed
                (says_story_none info offset _ story read at' ((string_eq.test_iff _ "").0 blank)
                  (tombstoned-FlagOf info.tombstoned))
          | inr given ↦
              says_story info offset _ counter story read at'
                (λ same. let e' : false ≡ true = sym given ∙ (string_eq.test_iff _ "").1 same in cc)
                (rw given at count) (tombstoned-FlagOf info.tombstoned)
        ])

  slashing_parser-Says :
      (chain_name body : String) (flag missed : F)
      → slashing_parser codecs chain_name body ≡ ok (flag, missed)
      → Says chain_name body flag missed
  slashing_parser-Says chain_name body flag missed e = elim (Bool-cases (chain_name == "story")) [
    | inl same ↦
        story-Says chain_name body flag missed ((string_eq.test_iff _ "story").0 same)
          (rw same at e)
    | inr other ↦
        cosmos-Says chain_name body flag missed
          (λ same. let e' : false ≡ true = sym other ∙ (string_eq.test_iff _ "story").1 same in cc)
          (rw other at e)
  ]

  value-ReadAt :
      {V : Type 0} (zero : V) (k : String) (m : Map String V)
      → ReadAt zero k m (value_or codecs zero (lookup k m))
  value-ReadAt zero k m = elim (Option-cases (lookup k m)) [
    | inl missing ↦ rw missing (no_entry missing)
    | inr (v, found) ↦ rw found (entry v found)
  ]

  -- A call that succeeds gives such a status.
  pub uptime_of-StatusOf :
      (chain_name : String) (answer : String → HttpAnswer) (maps : KeyMaps codecs)
      (v : CosmosStakingValidator) (s : ValidatorUptimeStatus F)
      → uptime_of codecs chain_name answer maps v ≡ ok s
      → StatusOf chain_name answer maps v s
  unfolding uptime_of
  uptime_of-StatusOf chain_name answer (addresses, powers) v s e =
      let k = v.consensus_pubkey_key in
      let (body, got, e1) =
        bind-eq-ok (uptime_body (answer (address_at codecs (addresses, powers) k))) _ e in
      let ((flag, missed), parsed, e2) = bind-eq-ok (slashing_parser codecs chain_name body) _ e1 in
      subst (λ s'. StatusOf chain_name answer (addresses, powers) v s') (ok_injective e2)
        (record {
          body = body;
          answered_ok = uptime_body-eq-ok _ body got;
          said = slashing_parser-Says chain_name body flag missed parsed;
          address_read = value-ReadAt "" k addresses;
          power_read = value-ReadAt codecs.zero_float k powers;
          same_moniker = refl;
          same_operator = refl;
          own_proposer = refl;
          no_consumer = refl;
        })
