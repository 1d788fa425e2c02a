-- ===== src/Indexer/Fetch.antt =====
-- The window of a batch, the goroutines that fetch its blocks, and the loop that collects their
-- messages (the first half of each batchSync). The node is a parameter: internal/common/api turns
-- an HTTP response into these values or an error.
pub mod Honest
pub mod Answers
use cvms.Base.{
  ℕ, suc, ◌+◌, ◌-◌, String, List, [], ◌∷◌, ltb, if◌then◌else◌, Result, ok, err, panic, message,
  wrap, bind, Map, put, nat_eq, range_from, concat_map,
}
use cvms.Indexer.Types.{Signature, CosmosValidator, BlockSummary, batch_sync_limit, Latest}

-- `endHeight`: the latest height, or the limit if more than that many blocks lie ahead.
unfoldable pub end_height : Latest → ℕ → ℕ
end_height latest start =
    if ltb batch_sync_limit (latest.at_limit - start)
    then start + batch_sync_limit
    else latest.at_end

-- for height := startHeight; height <= endHeight; height++
abbrev pub heights : ℕ → ℕ → List ℕ
heights start end = range_from start (suc end - start)

-- What api.GetBlock returns.
pub record Block : Type 0 where
  pub height : ℕ
  pub timestamp : ℕ
  pub proposer_address : String
  pub txs : List String
  pub last_commit_height : ℕ
  pub signatures : List Signature

-- The answers of the node while one batch is fetched: api.GetBlock and api.GetValidators at a
-- height. A panic stands for a nil response that is dereferenced.
pub record Node : Type 0 where
  pub get_block : ℕ → Result Block
  pub get_validators : ℕ → Result (List CosmosValidator)

abbrev pub to_summary : Block → List CosmosValidator → BlockSummary
to_summary b v = record {
  block_height = b.height;
  block_timestamp = b.timestamp;
  block_proposer_address = b.proposer_address;
  txs = b.txs;
  last_commit_block_height = b.last_commit_height;
  block_signatures = b.signatures;
  cosmos_validators = v;
}

-- The block before the batch: its errors end the batch.
unfoldable pub fetch_previous : Node → ℕ → Result BlockSummary
fetch_previous node height =
    bind (wrap "failed to call api.GetBlock function" (node.get_block height)) λ b.
      bind (wrap "failed to call api.GetValidators function" (node.get_validators height))
        λ v. ok (to_summary b v)

-- helper.Result
pub data FetchResult {ℓ} (Item : Type ℓ) : Type ℓ where
  success : Item → FetchResult Item
  failure : FetchResult Item

-- What one goroutine sends on the channel. A panic is recovered by HandleOutOfNilResponse, and
-- then nothing has been sent.
abbrev pub sent {ℓ} : {Item : Type ℓ} → Result Item → List (FetchResult Item)
sent (ok item) = success item ∷ []
sent (err e) = failure ∷ []
sent panic = []

unfoldable pub fetch_block : Node → ℕ → List (FetchResult BlockSummary)
fetch_block node height =
    sent
      (bind (node.get_block height) λ b. bind (node.get_validators height) λ v. ok (to_summary b v))

-- The loop over the channel: the map of summaries by their own height, and the error count.
module _ {ℓ} {Item : Type ℓ} (height_of : Item → ℕ) where
  unfoldable pub collect : List (FetchResult Item) → Map ℕ Item × ℕ → Map ℕ Item × ℕ
  collect [] acc = acc
  collect (success item ∷ rest) (m, errors) = collect rest (put (height_of item) item m, errors)
  collect (failure ∷ rest) (m, errors) = collect rest (m, errors + 1)

  -- errorCount > 0 ends the batch
  unfoldable pub collected : Map ℕ Item → List (FetchResult Item) → String → Result (Map ℕ Item)
  unfolding collect
  collected m messages text =
      let (m', errors) = collect messages (m, 0) in
      if ltb 0 errors then err (message text) else ok m'

-- The order in which the messages of the goroutines arrive.
abbrev pub Schedule {ℓ} : Type ℓ → Type ℓ
Schedule Item = List (FetchResult Item) → List (FetchResult Item)

-- `blockSummaryList` before the checks: the previous block, and what the goroutines fetched.
unfoldable pub fetch_summaries : Node → Schedule BlockSummary → ℕ → ℕ → Result (Map ℕ BlockSummary)
unfolding fetch_previous fetch_block collected
fetch_summaries node arrive start end = bind (fetch_previous node (start - 1)) λ previous.
    collected (λ b. b.block_height) (put (start - 1) previous [])
      (arrive (concat_map (fetch_block node) (heights start end)))
      "failed to collect batch block data, total errors: %d"
