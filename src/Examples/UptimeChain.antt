-- ===== src/Examples/UptimeChain.antt =====
-- Codecs for the uptime exporter whose floats are natural numbers, and a sort by tokens.
use mathlib.Core.List.{Permᴰ}
use mathlib.Core.List.Permᴰ
use cvms.Base.{
  All, none, ℕ, ◌≡◌, ◌≢◌, refl, String, Bool, true, false, List, [], ◌∷◌, if◌then◌else◌, ◌==◌,
  string_eq, nat_eq, ok, err, panic, message,
}
use cvms.Indexer.Fetch.Honest.{All-perm}
use cvms.Uptime.{CosmosStakingValidator, ValidatorSigningInfo, UptimeCodecs}
use cvms.Uptime.Statuses.{SortSlice}
use cvms.Uptime.Statuses.Slices.{StrictWeak, Ascending, Sorts}
use cvms.Uptime.Statuses.Exact.{Reports}

abbrev pub number : String → ℕ
number s = if s == "10" then 10 else (if s == "20" then 20 else 1)

abbrev toy_info : ValidatorSigningInfo
toy_info = record {
  info_consensus_address = "cons";
  info_index_offset = "10";
  info_missed_blocks_counter = "20";
  tombstoned = true;
}

abbrev pub staking_of : String → String → String → CosmosStakingValidator
staking_of operator key tokens = record {
  operator_address = operator;
  consensus_pubkey_key = key;
  moniker = operator;
  tokens = tokens;
}

abbrev pub toy_codecs : UptimeCodecs ℕ
toy_codecs = record {
  zero_float = 0;
  one_float = 1;
  parse_float = λ s. if s == "" then err (message "invalid syntax") else ok (number s);
  cosmos_signing_info = λ s. ok toy_info;
  story_signing_info = λ s. ok toy_info;
  cosmos_params =
      λ s. ok (record { params_signed_blocks_window = "20"; params_min_signed_per_window = "10" });
  story_params = λ s. err (message "unexpected end of JSON input");
  story_validators = λ s. ok (
      record {
        story_operator_address = "story1";
        story_moniker = "story1";
        story_pubkey_type = "tendermint/PubKeySecp256k1";
        story_pubkey_value = "K1";
      }
      ∷ record {
        story_operator_address = "story2";
        story_moniker = "story2";
        story_pubkey_type = "tendermint/PubKeySecp256k1";
        story_pubkey_value = "K2";
      }
      ∷ []);
  initia_validators = λ s. ok [];
  cosmos_validators = λ s. ok [];
  consumer_chains = λ s. ok [];
  export_bech32_valcons_prefix = λ s. ok "cosmosvalcons";
  convert_and_encode = λ prefix address. ok address;
  proposer_address_from_public_key = λ key. key;
  make_valcons_address_from_pubkey = λ key prefix. key;
  parse_int = λ s. (number s, none);
}

abbrev Less : Type 0
Less = CosmosStakingValidator → CosmosStakingValidator → Bool

abbrev insert_by :
    Less → CosmosStakingValidator → List CosmosStakingValidator → List CosmosStakingValidator
insert_by less v [] = v ∷ []
insert_by less v (w ∷ l) = let rest = insert_by less v l in if less w v then w ∷ rest else v ∷ w ∷ l

abbrev pub insertion_sort : SortSlice
insertion_sort less [] = []
insertion_sort less (v ∷ l) = insert_by less v (insertion_sort less l)

insert_by-perm :
    (less : Less) (v : CosmosStakingValidator) (l : List CosmosStakingValidator)
    → Permᴰ (insert_by less v l) (v ∷ l)
insert_by-perm less v [] = Permᴰ.refl _
insert_by-perm less v (w ∷ l) = go (less w v) (insert_by-perm less v l)
  where
    go :
        (b : Bool)
        → Permᴰ (insert_by less v l) (v ∷ l)
        → Permᴰ (if b then w ∷ insert_by less v l else v ∷ w ∷ l) (v ∷ w ∷ l)
    go true rest = Permᴰ.trans (Permᴰ.cons refl rest) (Permᴰ.swap refl refl)
    go false rest = Permᴰ.refl _

insertion_sort-perm :
    (less : Less) (l : List CosmosStakingValidator) → Permᴰ (insertion_sort less l) l
insertion_sort-perm less [] = Permᴰ.nil
insertion_sort-perm less (v ∷ l) =
    Permᴰ.trans (insert_by-perm less v (insertion_sort less l))
      (Permᴰ.cons refl (insertion_sort-perm less l))

module _ (less : Less) (order : StrictWeak less) where
  none_less :
      (v w : CosmosStakingValidator) (l : List CosmosStakingValidator)
      → less w v ≡ false
      → All (λ u. less u w ≡ false) l
      → All (λ u. less u v ≡ false) l
  none_less v w [] e h = tt
  none_less v w (u ∷ l) e (f, h) = (order.transitive_not u w v f e, none_less v w l e h)

  insert_by-Ascending :
      (v : CosmosStakingValidator) (l : List CosmosStakingValidator)
      → Ascending less l
      → Ascending less (insert_by less v l)
  insert_by-Ascending v [] h = (tt, tt)
  insert_by-Ascending v (w ∷ l) (p, h) = go (less w v) refl (insert_by-Ascending v l h)
    where
      go :
          (b : Bool)
          → less w v ≡ b
          → Ascending less (insert_by less v l)
          → Ascending less (if b then w ∷ insert_by less v l else v ∷ w ∷ l)
      go true e rest = (
        All-perm (λ u. less u w ≡ false) (insert_by-perm less v l) (order.asymmetric w v e, p),
        rest,
      )
      go false e rest = ((e, none_less v w l e p), (p, h))

  insertion_sort-Ascending :
      (l : List CosmosStakingValidator) → Ascending less (insertion_sort less l)
  insertion_sort-Ascending [] = tt
  insertion_sort-Ascending (v ∷ l) =
      insert_by-Ascending v (insertion_sort less l) (insertion_sort-Ascending l)

pub insertion_sort-Sorts : Sorts insertion_sort
insertion_sort-Sorts = record {
  sort_keeps = insertion_sort-perm;
  sort_orders = λ less l order. insertion_sort-Ascending less order l;
}

float_or_error : (b : Bool) (n : ℕ) → (if b then err (message "invalid syntax") else ok n) ≢ panic
float_or_error true n e = cc
float_or_error false n e = cc

pub toy_codecs-Reports : Reports toy_codecs
toy_codecs-Reports = record {
  cosmos_reports = λ s e. cc;
  story_reports = λ s e. cc;
  float_reports = λ s. float_or_error (s == "") (number s);
}
