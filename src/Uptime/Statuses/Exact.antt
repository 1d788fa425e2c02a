-- ===== src/Uptime/Statuses/Exact.antt =====
-- The statuses that getValidatorUptimeStatus and getConsumerValidatorUptimeStatus of
-- uptime/api/uptime.go return.
use mathlib.Core.List.{Permᴰ}
use mathlib.Core.Path.{subst}
use cvms.Base.{
  ◌+◌, ◌≤◌, ◌<◌, ◌≡◌, ◌≢◌, refl, String, Bool, true, false, List, [], ◌∷◌, arith, Result, ok, err,
  panic, bind, bind-eq-ok, length, ◌==◌, string_eq, nat_eq, if◌then◌else◌, Error, wrap, Each,
}
use cvms.Indexer.Types.{CosmosValidator}
use cvms.Indexer.Fetch.{Schedule}
use cvms.Indexer.Fetch.Honest.{Delivers}
use cvms.Indexer.Fetch.Answers.{In}
use cvms.NodeApi.Calls.{HttpAnswer, failed, answered, status_ok, ProviderValidator}
use cvms.Uptime.{
  CosmosStakingValidator, ValidatorUptimeStatus, UptimeCodecs, cosmos_slashing_parser,
  story_slashing_parser, parse_counter,
}
use cvms.Uptime.Statuses.{
  GoSlice, SortSlice, uptime_body, failed_http_request, valcons_prefix, KeyMaps, make_key_maps,
  slashing_parser, uptime_of, address_at, slice_staking_validator_by_vp,
  get_validator_uptime_status, consumer_uptime_of, get_consumer_validator_uptime_status,
}
use cvms.Uptime.Statuses.Reads.{StatusOf, uptime_of-StatusOf}
use cvms.Uptime.Statuses.Collected.{all_or_error-Each, all_or_error-one_failure}
use cvms.Uptime.Statuses.Slices.{
  Sorts, TopOf, slice_staking_validator_by_vp-TopOf, slice_staking_validator_by_vp-panics,
}

-- encoding/json and strconv report errors, and do not panic.
pub record Reports {F : Type 0} (codecs : UptimeCodecs F) : Type 0 where
  pub cosmos_reports : (s : String) → codecs.cosmos_signing_info s ≢ panic
  pub story_reports : (s : String) → codecs.story_signing_info s ≢ panic
  pub float_reports : (s : String) → codecs.parse_float s ≢ panic

bind-reports :
    {A B : Type 0} (r : Result A) (f : A → Result B)
    → r ≢ panic
    → ((a : A) → f a ≢ panic)
    → bind r f ≢ panic
bind-reports (ok a) f h k e = k a e
bind-reports (err x) f h k e = cc
bind-reports panic f h k e = h refl

wrap-reports : {A : Type 0} (s : String) (r : Result A) → r ≢ panic → wrap s r ≢ panic
wrap-reports s (ok a) h e = cc
wrap-reports s (err x) h e = cc
wrap-reports s panic h e = h refl

ok-reports : {A : Type 0} (a : A) → ok a ≢ panic
ok-reports a e = cc

uptime_body-reports : (a : HttpAnswer) → uptime_body a ≢ panic
uptime_body-reports (failed x) e = cc
uptime_body-reports (answered code body) e = ground (arith, nat_eq.test_iff code status_ok)

module _ {F : Type 0} (codecs : UptimeCodecs F) (reports : Reports codecs) where
  cosmos_slashing_parser-reports : (body : String) → cosmos_slashing_parser codecs body ≢ panic
  unfolding cosmos_slashing_parser
  cosmos_slashing_parser-reports body = bind-reports _ _ (reports.cosmos_reports body) λ info.
      bind-reports _ _ (reports.float_reports _)
        λ _. bind-reports _ _ (reports.float_reports _) λ m. ok-reports _

  parse_counter-reports : (s : String) → parse_counter codecs s ≢ panic
  parse_counter-reports s = go (s == "")
    where
      go : (b : Bool) → (if b then ok codecs.zero_float else codecs.parse_float s) ≢ panic
      go true e = cc
      go false e = reports.float_reports s e

  story_slashing_parser-reports : (body : String) → story_slashing_parser codecs body ≢ panic
  unfolding story_slashing_parser
  story_slashing_parser-reports body = bind-reports _ _ (reports.story_reports body) λ info.
      bind-reports _ _ (wrap-reports _ _ (reports.float_reports _))
        λ _. bind-reports _ _ (parse_counter-reports _) λ m. ok-reports _

  slashing_parser-reports :
      (chain_name body : String) → slashing_parser codecs chain_name body ≢ panic
  slashing_parser-reports chain_name body = go (chain_name == "story")
    where
      go :
          (b : Bool)
          → (if b then story_slashing_parser codecs body else cosmos_slashing_parser codecs body)
            ≢ panic
      go true = story_slashing_parser-reports body
      go false = cosmos_slashing_parser-reports body

  uptime_of-reports :
      (chain_name : String) (answer : String → HttpAnswer) (maps : KeyMaps codecs)
      (v : CosmosStakingValidator)
      → uptime_of codecs chain_name answer maps v ≢ panic
  unfolding uptime_of
  uptime_of-reports chain_name answer maps v =
      bind-reports _ _
        (uptime_body-reports (answer (address_at codecs maps v.consensus_pubkey_key)))
        λ body. bind-reports _ _ (slashing_parser-reports chain_name body) λ p e. cc

Each-map :
    {A B : Type 0} (R S : A → B → Type 0)
    → ((a : A) (b : B) → R a b → S a b)
    → (l : List A) (m : List B) → Each R l m
    → Each S l m
Each-map R S f [] [] h = tt
Each-map R S f [] (b ∷ m) h = absurd h
Each-map R S f (a ∷ l) [] h = absurd h
Each-map R S f (a ∷ l) (b ∷ m) (r, h) = (f a b r, Each-map R S f l m h)

-- What a list of statuses stands for: one for each of `chosen`.
pub record StatusesOf {F : Type 0} (codecs : UptimeCodecs F) (answer : String → HttpAnswer)
    (chain_name : String) (validators : List CosmosValidator)
    (staking : List CosmosStakingValidator) (found : List (ValidatorUptimeStatus F)) : Type 0 where
  pub prefix : String
  pub prefix_found : valcons_prefix codecs staking ≡ ok prefix
  pub maps : KeyMaps codecs
  pub maps_made : make_key_maps codecs prefix validators ([], []) ≡ ok maps
  pub chosen : List CosmosStakingValidator
  pub chosen_top : TopOf codecs staking (length validators) chosen
  pub statuses : List (ValidatorUptimeStatus F)
  pub in_some_order : Permᴰ found statuses
  pub each_status : Each (StatusOf codecs chain_name answer maps) chosen statuses

module _ {F : Type 0} (codecs : UptimeCodecs F) (sort : SortSlice) (sorts : Sorts sort)
    (arrive : Schedule (ValidatorUptimeStatus F)) (answer : String → HttpAnswer)
    (chain_name : String) (validators : List CosmosValidator)
    (staking : GoSlice CosmosStakingValidator) where
  -- Let the codecs report errors without a panic, the channel deliver each message once, sort.Slice
  -- sort by any order that it is given, and let there be at least as many staking validators as
  -- consensus validators. If the call returns statuses, these are, in some order, one for each of as
  -- many staking validators as there are consensus validators, each of which has at least the tokens
  -- of any that is left out. A status has the validator's moniker, operator and proposer address,
  -- the consensus address and the voting power that the maps of the consensus validators have at
  -- its key (the zero values if they have none), and the flag and the missed blocks that an answer
  -- under status 200 to the query at that address says in the chain's format.
  pub get_validator_uptime_status_exact :
      Reports codecs
      → Delivers arrive
      → length validators ≤ length staking.elements
      → (found : List (ValidatorUptimeStatus F))
      → get_validator_uptime_status codecs sort arrive answer chain_name validators staking
        ≡ ok found
      → StatusesOf codecs answer chain_name validators staking.elements found
  unfolding get_validator_uptime_status
  get_validator_uptime_status_exact reports delivers enough found e =
      let (p, p_found, e1) = bind-eq-ok (valcons_prefix codecs staking.elements) _ e in
      let (m, m_made, e2) = bind-eq-ok (make_key_maps codecs p validators ([], [])) _ e1 in
      let (ordered, sliced, e3) =
        bind-eq-ok (slice_staking_validator_by_vp codecs sort staking (length validators)) _ e2 in
      let (top, sliced', is_top) =
        slice_staking_validator_by_vp-TopOf codecs sort sorts staking (length validators) enough in
      let same : top ≡ ordered = cc in
      let (all, perm, each) =
        all_or_error-Each (uptime_of codecs chain_name answer m) arrive ordered found delivers
          (uptime_of-reports codecs reports chain_name answer m) e3 in
      record {
        prefix = p;
        prefix_found = p_found;
        maps = m;
        maps_made = m_made;
        chosen = ordered;
        chosen_top = subst (λ l. TopOf codecs staking.elements (length validators) l) same is_top;
        statuses = all;
        in_some_order = perm;
        each_status =
            Each-map _ (StatusOf codecs chain_name answer m)
              (λ v s. uptime_of-StatusOf codecs chain_name answer m v s) ordered all each;
      }

  -- If the prefix and the maps are found, and there are more consensus validators than the slice of
  -- the staking validators has room for, the call panics.
  pub get_validator_uptime_status_panics :
      (prefix : String) (maps : KeyMaps codecs)
      → valcons_prefix codecs staking.elements ≡ ok prefix
      → make_key_maps codecs prefix validators ([], []) ≡ ok maps
      → length staking.elements + length staking.spare < length validators
      → get_validator_uptime_status codecs sort arrive answer chain_name validators staking ≡ panic
  unfolding get_validator_uptime_status
  get_validator_uptime_status_panics prefix maps p m more = rw (
    p,
    m,
    slice_staking_validator_by_vp-panics codecs sort sorts staking (length validators) more,
  )

-- Let the channel deliver each message once. If the query of one of the provider's validators, or
-- the parse of its answer, comes to an error, the call returns the error and no statuses at all.
pub one_failure_fails_all :
    {F : Type 0} (codecs : UptimeCodecs F) (arrive : Schedule (ValidatorUptimeStatus F))
    (answer : String → HttpAnswer) (validators : List ProviderValidator) (prefix : String)
    (v : ProviderValidator) (e : Error)
    → Delivers arrive
    → In v validators
    → consumer_uptime_of codecs answer prefix v ≡ err e
    → get_consumer_validator_uptime_status codecs arrive answer validators prefix
      ≡ err failed_http_request
unfolding get_consumer_validator_uptime_status
one_failure_fails_all codecs arrive answer validators prefix v e delivers i h =
    all_or_error-one_failure (consumer_uptime_of codecs answer prefix) arrive validators v e
      delivers i h
