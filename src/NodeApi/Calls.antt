-- ===== src/NodeApi/Calls.antt =====
-- internal/common/api/api.go, over HTTP answers: the calls whose results the indexers take.
pub mod Pages
pub mod Chains
use cvms.Base.{
  ℕ, zero, suc, ◌+◌, String, Option, none, some, List, [], ◌∷◌, ◌++◌, if◌then◌else◌, ◌==◌, ltb,
  nat_eq, string_eq, length, Error, Result, ok, err, panic, message, wrap, wrapped, bind,
}
use cvms.Indexer.Types.{CosmosValidator}
use cvms.Indexer.Fetch.{Block, Node}
use cvms.LightClient.Events.{BlockEvent}
use cvms.NodeApi.Parser.{
  Decoders, cosmos_status_parser, cosmos_block_parser, cosmos_validator_parser,
  cosmos_block_results_parser,
}

-- What a GET comes to: an error and no response, or a status code and a body.
pub data HttpAnswer : Type 0 where
  failed : Error → HttpAnswer
  answered : ℕ → String → HttpAnswer

abbrev pub status_ok : ℕ
status_ok = 200

abbrev pub status_bad_request : ℕ
status_bad_request = 400

abbrev pub stanage_status : Error
stanage_status = message "stanage status code from %s: [%d]"

-- the two tests behind each call of an RPC endpoint
abbrev pub body_of : HttpAnswer → Result String
body_of (failed e) = err (message "rpc call is failed from %s: %s")
body_of (answered code body) = if code == status_ok then ok body else err stanage_status

abbrev pub parsed {ℓ} : {A : Type ℓ} → (String → Result A) → HttpAnswer → Result A
parsed parser answer =
    bind (body_of answer) λ body. wrap "got data, but failed to parse the data" (parser body)

-- types.ProviderValidator and types.CosmosBlockAndTxsResponse, as far as they are read
pub record ProviderValidator : Type 0 where
  pub provider_valcons_address : String
  pub consumer_pubkey : String
  pub provider_moniker : String
  pub provider_valoper_address : String

pub record BlockAndTxs : Type 0 where
  pub block_and_txs_height : String
  pub block_and_txs_time : ℕ
  pub raw_txs : List (List String)
  pub next_key : String

pub record ApiDecoders : Type 0 where
  pub decoders : Decoders
  pub provider_validators : String → Result (List ProviderValidator)
  -- the consensus addresses of CosmosSlashingResponse.Info
  pub signing_infos : String → Result (List String)
  -- sdkhelper.DecodeAndConvert, its prefix
  pub decode_prefix : String → Result String
  -- CosmosErrorResponse.Code
  pub error_code : String → Result ℕ
  pub block_and_txs : String → Result BlockAndTxs

-- maxPage, which is local to GetValidators
abbrev pub max_page : ℕ
max_page = 5

module _ (a : ApiDecoders) where
  unfoldable pub get_status : HttpAnswer → Result (ℕ × ℕ)
  get_status = parsed (cosmos_status_parser a.decoders)

  unfoldable pub get_block : HttpAnswer → Result Block
  get_block = parsed (cosmos_block_parser a.decoders)

  -- One page behind those found: all of them, or what `next` makes of what is found now.
  abbrev pub add_page :
      List CosmosValidator
      → (List CosmosValidator → Result (List CosmosValidator))
      → List CosmosValidator × ℕ
      → Result (List CosmosValidator)
  add_page found next (validators, total) =
      if length (found ++ validators) == total
      then ok (found ++ validators)
      else next (found ++ validators)

  -- The loop from page `page` on, with `left` pages up to maxPage.
  unfoldable pub validator_pages :
      (ℕ → HttpAnswer) → ℕ → ℕ → List CosmosValidator → Result (List CosmosValidator)
  validator_pages answer zero page found =
      err (message "failed to find out all cosmos validators in this height")
  validator_pages answer (suc left) page found =
      bind (parsed (cosmos_validator_parser a.decoders) (answer page))
        (add_page found (validator_pages answer left (page + 1)))

  -- `answer` is what the node says to each page at the height.
  unfoldable pub get_validators : (ℕ → HttpAnswer) → Result (List CosmosValidator)
  unfolding validator_pages
  get_validators answer = validator_pages answer max_page 1 []

  -- The node of Indexer/Fetch, over the answers of an RPC endpoint.
  abbrev pub http_node : (ℕ → HttpAnswer) → (ℕ → ℕ → HttpAnswer) → Node
  http_node block_answer page_answer = record {
    get_block = λ height. get_block (block_answer height);
    get_validators = λ height. get_validators (page_answer height);
  }

  -- errors.WithStack keeps the error
  unfoldable pub get_block_results : HttpAnswer → Result (List BlockEvent × List BlockEvent)
  get_block_results answer = bind (body_of answer) (cosmos_block_results_parser a.decoders)

  -- A status that is not OK wraps a nil error, which is nil: an empty answer without an error.
  unfoldable pub get_provider_validators : HttpAnswer → Result (List ProviderValidator)
  get_provider_validators (failed e) = err e
  get_provider_validators (answered code body) =
      if code == status_ok then a.provider_validators body else ok []

  -- the loop over the infos, which ends with the first
  abbrev pub first_prefix : List String → Result String
  first_prefix [] = ok ""
  first_prefix (address ∷ _) = a.decode_prefix address

  -- likewise
  unfoldable pub get_consumer_chain_hrp : HttpAnswer → Result String
  get_consumer_chain_hrp (failed e) = err e
  get_consumer_chain_hrp (answered code body) =
      if code == status_ok then bind (a.signing_infos body) first_prefix else ok ""

  -- Code 3 says that a height has no transactions.
  abbrev pub no_txs : ℕ → ℕ → Result (ℕ × List (List String))
  no_txs height code = if code == 3 then ok (height, []) else err stanage_status

  abbrev pub read_txs : BlockAndTxs → Result (ℕ × List (List String))
  read_txs b =
      if b.next_key == ""
      then bind (wrap "failed to parse block height" (a.decoders.parse_int b.block_and_txs_height))
          (λ height. ok (height, b.raw_txs))
      else err (message "pagination is not supported yet")

  -- the height and the raw messages of each transaction
  unfoldable pub get_block_and_txs : ℕ → HttpAnswer → Result (ℕ × List (List String))
  get_block_and_txs height (failed e) = err (message "rpc call is failed from %s: %s")
  get_block_and_txs height (answered code body) =
      if code == status_bad_request
      then bind (wrap "failed to unmarshal response" (a.error_code body)) (no_txs height)
      else (if code == status_ok
          then bind (wrap "failed to unmarshal response" (a.block_and_txs body)) read_txs
          else err stanage_status)
