-- ===== src/Examples/NodeRuns.antt =====
-- A node over HTTP that follows the small chain of Examples/Database.antt.
use mathlib.Core.Path.{subst}
use cvms.Base.{
  ◌⊎◌, sym, Bool, ℕ, ◌+◌, ◌*◌, ◌<◌, ◌≡◌, refl, arith, String, true, false, List, [], ◌∷◌,
  if◌then◌else◌, ◌==◌, leb, string_eq, nat_eq, length, take, drop, ok, err, message,
}
use cvms.Indexer.Fetch.Honest.{IsHonest}
use cvms.LightClient.Events.{BlockEvent}
use cvms.NodeApi.Parser.{
  CosmosBlock, CosmosValidators, Decoders, cosmos_block_parser, cosmos_validator_parser,
  decode_events,
}
use cvms.NodeApi.Parser.Versions.{
  cosmos_block_parser_versions, cosmos_validator_parser_versions, encode_events,
  decode_events-encode,
}
use cvms.NodeApi.Calls.{
  HttpAnswer, answered, failed, ApiDecoders, parsed, get_validators, http_node,
}
use cvms.NodeApi.Calls.Pages.{IsPaged, get_validators_all}
use cvms.NodeApi.Calls.Chains.{WritesBlock, WritesPage, page_v34, Follows, http_node-IsHonest}
use cvms.Examples.Database.{toy_chain, toy_block, toy_validators}

abbrev json_block : CosmosBlock
json_block = record {
  header_height = "12";
  header_time = 112;
  header_proposer_address = "A";
  data_txs = "injected" ∷ [];
  last_commit_height = "11";
  last_commit_signatures = (toy_block 12).signatures;
}

abbrev json_validators : CosmosValidators
json_validators = record { validators = toy_validators; total = "2" }

abbrev no_json_validators : CosmosValidators
no_json_validators = record { validators = []; total = "" }

-- every text is its own base64
abbrev toy_decoders : Decoders
toy_decoders = record {
  has_jsonrpc = λ s. ok (s == "v34");
  block_v34 = λ s. ok json_block;
  block_v37 = λ s. ok json_block;
  status_v34 = λ s. ok (record { latest_block_height = "12"; latest_block_time = 112 });
  status_v37 = λ s. ok (record { latest_block_height = "12"; latest_block_time = 112 });
  validators_v34 = λ s. if s == "v34" then ok json_validators else ok no_json_validators;
  validators_v37 = λ s. if s == "v34" then ok no_json_validators else ok json_validators;
  upgrade_plan = λ s. ok (record { plan_name = ""; plan_height = "" });
  block_results = λ s. err (message "no results");
  parse_int = λ s.
      if s == "12"
      then ok 12
      else (if s == "11" then ok 11 else (if s == "2" then ok 2 else err (message "not a number")));
  decode_base64 = λ s. ok s;
  encode_base64 = λ s. s;
}

cosmos_block_parser_versions_example :
    cosmos_block_parser toy_decoders "v34" ≡ cosmos_block_parser toy_decoders "v37"
cosmos_block_parser_versions_example =
    cosmos_block_parser_versions toy_decoders "v34" "v37" json_block (record {
      block_with_jsonrpc = refl;
      block_without_jsonrpc = refl;
      block_read_v34 = refl;
      block_read_v37 = refl;
    })

cosmos_validator_parser_versions_example :
    cosmos_validator_parser toy_decoders "v34" ≡ cosmos_validator_parser toy_decoders "v37"
cosmos_validator_parser_versions_example =
    cosmos_validator_parser_versions toy_decoders "v34" "v37" _ _ "2" (record {
      validators_read_v34 = refl;
      validators_wrong_v34 = refl;
      validators_read_v37 = refl;
      validators_wrong_v37 = refl;
    })

abbrev toy_attribute_events : List BlockEvent
toy_attribute_events =
    record { type_name = "transfer"; attributes = record { key = "amount"; value = "" } ∷ [] } ∷ []

decode_events-encode_example :
    decode_events toy_decoders (encode_events toy_decoders toy_attribute_events)
    ≡ toy_attribute_events
decode_events-encode_example =
    decode_events-encode toy_decoders
      (record { decode-encode = λ s. refl; encode_nil = refl; encode_nonempty = λ s e. e })
      toy_attribute_events

abbrev toy_api : ApiDecoders
toy_api = record {
  decoders = toy_decoders;
  provider_validators = λ s. ok [];
  signing_infos = λ s. ok [];
  decode_prefix = λ s. ok "cosmos";
  error_code = λ s. ok 3;
  block_and_txs = λ s. err (message "no transactions");
}

abbrev toy_pages : ℕ → HttpAnswer
toy_pages page = if page == 1 then answered 200 "v34" else failed (message "no such page")

toy_pages-IsPaged : IsPaged toy_api toy_pages toy_validators
unfolding cosmos_validator_parser
toy_pages-IsPaged = record { first_page = refl; later_page = later }
  where
    later :
        (k : ℕ)
        → 100 * k < length toy_validators
        → parsed (cosmos_validator_parser toy_decoders) (toy_pages (k + 1))
          ≡ ok (take 100 (drop (100 * k) toy_validators), length toy_validators)
    later k lt = let e : k ≡ 0 = omega (arith, lt) in rw e

get_validators_all_example : get_validators toy_api toy_pages ≡ (
    if leb (length toy_validators) 500
    then ok toy_validators
    else err (message "failed to find out all cosmos validators in this height"))
get_validators_all_example = get_validators_all toy_api toy_pages toy_validators toy_pages-IsPaged

-- the node has lost every block but one, and every page but the first
abbrev toy_block_answer : ℕ → HttpAnswer
toy_block_answer h = if h == 12 then answered 200 "v34" else failed (message "timeout")

-- A text that a test lets through is that one.
at_one :
    (b : Bool) (t : String) {h n : ℕ} {body : String}
    → (b ≡ true → h ≡ n)
    → (if b then answered 200 "v34" else failed (message t)) ≡ answered 200 body
    → (h ≡ n) × ("v34" ≡ body)
at_one true t same e = (same refl, cc)
at_one false t same e = cc

toy_answers-Follows : Follows toy_api toy_chain toy_block_answer (λ h. toy_pages)
toy_answers-Follows = record { block_bodies = bodies; page_bodies = pages }
  where
    at_12 : WritesBlock toy_decoders "v34" (toy_block 12)
    at_12 = record {
      is_v34 = true;
      shape = refl;
      content = json_block;
      decoded = refl;
      own_height = refl;
      own_last_commit = refl;
      own_time = refl;
      own_proposer = refl;
      own_txs = refl;
      own_signatures = refl;
    }

    bodies :
        (h : ℕ) (body : String)
        → toy_block_answer h ≡ answered 200 body
        → WritesBlock toy_decoders body (toy_block h)
    bodies h body e =
        let (same, text) = at_one (h == 12) _ (nat_eq.test_iff h 12).0 e in
        subst (λ s. WritesBlock toy_decoders s (toy_block h)) text
          (subst (λ n. WritesBlock toy_decoders "v34" (toy_block n)) (sym same) at_12)

    first : WritesPage toy_decoders "v34" toy_validators 2
    first = page_v34 json_validators refl refl (λ e. cc) refl

    pages :
        (h k : ℕ) (body : String)
        → (100 * k < 2) ⊎ (k ≡ 0)
        → toy_pages (k + 1) ≡ answered 200 body
        → WritesPage toy_decoders body (take 100 (drop (100 * k) toy_validators)) 2
    pages h k body asked e =
        let (same, text) = at_one (k + 1 == 1) _ (nat_eq.test_iff (k + 1) 1).0 e in
        let start : k ≡ 0 = omega (arith, same) in
        subst (λ s. WritesPage toy_decoders s (take 100 (drop (100 * k) toy_validators)) 2) text
          (subst (λ n. WritesPage toy_decoders "v34" (take 100 (drop (100 * n) toy_validators)) 2)
            (sym start) first)

http_node-IsHonest_example :
    IsHonest toy_chain (http_node toy_api toy_block_answer (λ h. toy_pages))
http_node-IsHonest_example =
    http_node-IsHonest toy_api toy_chain toy_block_answer (λ h. toy_pages) toy_answers-Follows
