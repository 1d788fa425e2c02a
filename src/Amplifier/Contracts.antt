-- ===== src/Amplifier/Contracts.antt =====
-- ParseAxelarChainConfig of amplifier-verifier/indexer/axelar.go. A JSON object is the list of its
-- entries, in the order in which a range over the Go map meets them.
use cvms.Base.{
  ℕ, String, [], ◌∷◌, if◌then◌else◌, ◌==◌, string_eq, Map, put, Result, ok, err, panic, bind,
}

pub record ContractInfo : Type 0 where
  pub contract_chain_name : String
  pub address : String
  pub block_expiry : ℕ

-- The raw entries of VotingVerifier and XrplVotingVerifier.
pub record Contracts : Type 0 where
  pub voting_verifier : Map String String
  pub xrpl_voting_verifier : Map String String

pub record ConfigCodecs : Type 0 where
  -- json.Unmarshal into an AxelarChainConfig
  pub chain_config : String → Result Contracts
  -- json.Unmarshal into a contractInfo
  pub contract_info : String → Result ContractInfo

module _ (c : ConfigCodecs) where
  -- addressMap[contract.Address] = contract, unless it does not parse or has no address
  abbrev pub add_contract :
      String → Result ContractInfo → Map String ContractInfo → Map String ContractInfo
  add_contract chain_name (ok info) m =
      if info.address == ""
      then m
      else put info.address (record info { contract_chain_name = chain_name }) m
  add_contract chain_name (err e) m = m
  add_contract chain_name panic m = m

  -- the range over one of the two maps
  unfoldable pub add_contracts :
      Map String String → Map String ContractInfo → Map String ContractInfo
  add_contracts [] m = m
  add_contracts ((chain_name, raw) ∷ entries) m =
      add_contracts entries (add_contract chain_name (c.contract_info raw) m)

  unfoldable pub parse_axelar_chain_config : String → Result (Map String ContractInfo)
  unfolding add_contracts
  parse_axelar_chain_config resp = bind (c.chain_config resp) λ contracts.
      ok (add_contracts contracts.xrpl_voting_verifier (add_contracts contracts.voting_verifier []))
