-- ===== src/Covenant/Committee.antt =====
-- The committee of covenant-committee/indexer/indexer.go: getCovenantComitteeMoniker,
-- getNewCovenantCommitteeInfoList, FetchValidatorInfoList, and the update that batchSync makes when
-- it meets an unknown member. The chain's parameters, the remote list of names and the table of
-- members are parameters.
use cvms.Base.{
  ℕ, String, Bool, Option, none, some, List, [], ◌∷◌, map, if◌then◌else◌, Map, lookup, put,
  string_eq, Result, ok, wrap, bind, Exec, lift, ◌>>=◌, ◌>>◌,
}
use cvms.Indexer.Tables.Insert.{or_wrap}

-- model.CovenantCommitteeInfo
pub record CovenantCommitteeInfo : Type 0 where
  pub id : ℕ
  pub chain_info_id : ℕ
  pub covenant_btc_pk : String
  pub moniker : String

abbrev pub mainnet_default_monikers : Map String String
mainnet_default_monikers =
    ("d45c70d28f169e1f0c7f4a78e2bc73497afe585b70aa897955989068f3350aaa", "Babylon Labs - Signer 0")
    ∷ (
      "4b15848e495a3a62283daaadb3f458a00859fe48e321f0121ebabbdd6698f9fa", "Babylon Labs - Signer 1",
    )
    ∷ (
      "23b29f89b45f4af41588dcaf0ca572ada32872a88224f311373917f1b37d08d1", "Babylon Labs - Signer 2",
    )
    ∷ ("d3c79b99ac4d265c2f97ac11e3232c07a598b020cf56c6f055472c893c0967ae", "CoinSummer Labs")
    ∷ ("f178fcce82f95c524b53b077e6180bd2d779a9057fdff4255a0af95af918cee0", "RockX")
    ∷ ("8242640732773249312c47ca7bdb50ca79f15f2ecc32b9c83ceebba44fb74df7", "AltLayer")
    ∷ ("cbdd028cfe32c1c1f2d84bfec71e19f92df509bba7b8ad31ca6c1a134fe09204", "Zellic")
    ∷ ("e36200aaa8dce9453567bba108bdc51f7f1174b97a65e4dc4402fc5de779d41c", "Informal Systems")
    ∷ ("de13fc96ea6899acbdc5db3afaa683f62fe35b60ff6eb723dad28a11d2b12f8c", "Cubist")
    ∷ []

-- What becomes of http.Get, io.ReadAll and json.Unmarshal for the list of names.
pub data RemoteMonikers : Type 0 where
  -- no response, or one whose status is not OK
  no_answer : RemoteMonikers
  unreadable : RemoteMonikers
  not_json : RemoteMonikers
  monikers : Map String String → RemoteMonikers

abbrev pub get_covenant_comittee_moniker : RemoteMonikers → Bool → Map String String
get_covenant_comittee_moniker no_answer mainnet = if mainnet then mainnet_default_monikers else []
get_covenant_comittee_moniker unreadable mainnet = []
get_covenant_comittee_moniker not_json mainnet = []
get_covenant_comittee_moniker (monikers m) mainnet = m

abbrev pub moniker_or_unknown : Option String → String
moniker_or_unknown none = "Unknown"
moniker_or_unknown (some m) = m

-- `params` is what api.GetBalbylonCovenantCommiteeParams returns.
unfoldable pub get_new_covenant_committee_info_list :
    ℕ → Bool → Result (List String) → RemoteMonikers → Result (List CovenantCommitteeInfo)
get_new_covenant_committee_info_list chain_info_id mainnet params remote =
    bind (wrap "failed to get onchain covenant committee params" params) λ pks. ok (
      map
        (λ pk. record {
          id = 0;
          chain_info_id = chain_info_id;
          covenant_btc_pk = pk;
          moniker = moniker_or_unknown (lookup pk (get_covenant_comittee_moniker remote mainnet));
        })
        pks)

-- UpsertCovenantCommitteeInfoList and GetCovenantCommitteeInfoListByChainInfoID
pub record CommitteeTable (State : Type 0) : Type 0 where
  pub upsert_list : List CovenantCommitteeInfo → Exec State (Unit {0})
  pub list_members : ℕ → Exec State (List CovenantCommitteeInfo)

-- The fields of CovenantSignatureIndexer that a batch reads or writes, and the database.
pub record CovenantWorld (State : Type 0) : Type 0 where
  pub chain_info_id : ℕ
  pub mainnet : Bool
  pub committee : Map String ℕ
  pub db : State

-- covenantCommitteeMap[committee.CovenantBtcPk] = committee.ID, for each
unfoldable pub learn_members : List CovenantCommitteeInfo → Map String ℕ → Map String ℕ
learn_members [] committee = committee
learn_members (i ∷ infos) committee = learn_members infos (put i.covenant_btc_pk i.id committee)

module _ {State : Type 0} (members : CommitteeTable State) where
  -- a call of the repository
  abbrev pub on_tables {ℓ} : {A : Type ℓ} → Exec State A → Exec (CovenantWorld State) A
  on_tables m w = ((m w.db).0, record w { db = (m w.db).1 })

  abbrev pub set_members : List CovenantCommitteeInfo → Exec (CovenantWorld State) (Unit {0})
  set_members found w = (ok tt, record w { committee = learn_members found w.committee })

  unfoldable pub fetch_members : Exec (CovenantWorld State) (Unit {0})
  unfolding learn_members
  fetch_members w =
      (do
        found ←
            or_wrap "failed to get validator info list"
              (on_tables (members.list_members w.chain_info_id))
        set_members found)
        w

  -- the two statements on the table
  unfoldable pub store_members : List CovenantCommitteeInfo → Exec (CovenantWorld State) (Unit {0})
  unfolding fetch_members
  store_members l = do
    or_wrap "failed to upsert covenant committee info list for database"
        (on_tables (members.upsert_list l))
    or_wrap "failed to fetch covenant committe info list" fetch_members

  -- if isUnknownCovenantCommittee { .. }, up to its last return
  unfoldable pub update_committee :
      Result (List String) → RemoteMonikers → Exec (CovenantWorld State) (Unit {0})
  unfolding get_new_covenant_committee_info_list store_members
  update_committee params remote w =
      (do
        l ← lift (
            wrap "failed to get new covenant committee info list"
              (get_new_covenant_committee_info_list w.chain_info_id w.mainnet params remote))
        or_wrap "failed to upsert covenant committee info list for database"
            (on_tables (members.upsert_list l))
        or_wrap "failed to fetch covenant committe info list" fetch_members)
        w
