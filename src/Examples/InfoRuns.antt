-- ===== src/Examples/InfoRuns.antt =====
-- A validator that only the third further query has.
use mathlib.Core.Path.{subst}
use cvms.Base.{
  ◌≢◌, ok_injective, panic, ◌≡◌, refl, String, true, List, [], ◌∷◌, map, All, exist, string_eq,
  Result, ok, err, message,
}
use cvms.Indexer.Types.{ValidatorInfo}
use cvms.Indexer.Infos.Answers.{Calmly, named_here}
use cvms.Indexer.Infos.{
  StakingMap, StakingValidator, StakingValidatorMetaInfo, BondStatus, unbonding, unbonded,
  unspecified, make_validator_info_list,
}
use cvms.Indexer.Infos.Complete.{Named, in_first, in_retry, make_validator_info_list_complete}

abbrev meta : String → StakingValidatorMetaInfo
meta name = record { moniker = name; operator_address = name }

abbrev late_query : BondStatus → Result (List StakingValidator)
late_query unbonding = ok []
late_query unbonded = err (message "timeout")
late_query unspecified = ok (record { hex_address = ok "B"; info = meta "b" } ∷ [])

abbrev first_map : StakingMap
first_map = ("A", meta "a") ∷ []

late-Calmly : (status : BondStatus) → Calmly (late_query status)
late-Calmly unbonding = record {
  calm_query = λ e. cc;
  calm_keys = λ l e.
      let same : [] ≡ l = ok_injective e in
      subst (λ k. All (λ (v : StakingValidator). v.hex_address ≢ panic) k) same tt;
}
late-Calmly unbonded = record { calm_query = λ e. cc; calm_keys = λ l e. cc }
late-Calmly unspecified = record {
  calm_query = λ e. cc;
  calm_keys = λ l e.
      subst (λ k. All (λ (v : StakingValidator). v.hex_address ≢ panic) k) (ok_injective e)
        ((λ p. cc), tt);
}

first-has : exist "A" first_map ≡ true
unfolding exist
first-has = refl

late-Named : All (Named late_query first_map) ("A" ∷ "B" ∷ [])
late-Named = (in_first first-has, (in_retry unspecified _ refl (named_here _ [] refl), tt))

make_validator_info_list_complete_example :
    (infos : List ValidatorInfo) × (make_validator_info_list late_query 7
        (ok first_map)
        ("A" ∷ "B" ∷ [])
      ≡ ok infos)
    × (map (λ (i : ValidatorInfo). i.hex_address) infos ≡ ("A" ∷ "B" ∷ []))
    × All (λ (i : ValidatorInfo). i.chain_info_id ≡ 7) infos
make_validator_info_list_complete_example =
    make_validator_info_list_complete late_query 7 first_map ("A" ∷ "B" ∷ []) late-Calmly late-Named
