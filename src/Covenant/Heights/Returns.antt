-- ===== src/Covenant/Heights/Returns.antt =====
-- When a goroutine of covenant-committee/indexer/batch_sync.go ends, and when it never does.
use cvms.Base.{
  ℕ, zero, suc, ◌+◌, ◌≡◌, refl, ◌<◌, arith, none, some, Error, Map, String, List, ◌∷◌, Result, ok,
  err,
}
use cvms.Indexer.Fetch.{Block}
use cvms.Covenant.Events.{Codecs, HeightEvents}
use cvms.Covenant.Heights.{retry, CovenantNode, events_at, send_rows, sync_height}

module _ {ℓ} {A : Type ℓ} (call : ℕ → Result A) where
  -- Attempt `attempt + n` succeeds and the ones before it fail.
  abbrev pub SucceedsAfter : ℕ → ℕ → A → Type ℓ
  SucceedsAfter zero attempt a = call attempt ≡ ok a
  SucceedsAfter (suc n) attempt a =
      ((e : Error) × (call attempt ≡ err e)) × SucceedsAfter n (attempt + 1) a

  pub retry-SucceedsAfter :
      (n attempt fuel : ℕ) (a : A)
      → SucceedsAfter n attempt a
      → n < fuel
      → retry call fuel attempt ≡ some (ok a)
  unfolding retry
  retry-SucceedsAfter n attempt zero a h lt = ground (arith, lt)
  retry-SucceedsAfter zero attempt (suc fuel) a h lt = rw (retry, h)
  retry-SucceedsAfter (suc n) attempt (suc fuel) a ((e, failed), h) lt =
      let lt' : n < fuel = omega (arith, lt) in
      rw (retry, failed) (retry-SucceedsAfter n (attempt + 1) fuel a h lt')

  pub retry_forever :
      ((i : ℕ) → (e : Error) × (call i ≡ err e))
      → (fuel attempt : ℕ) → retry call fuel attempt ≡ none
  unfolding retry
  retry_forever h zero attempt = refl
  retry_forever h (suc fuel) attempt =
      rw (retry, (h attempt).1) (retry_forever h fuel (attempt + 1))

module _ (codecs : Codecs) (node : CovenantNode) (chain_info_id : ℕ) (committee : Map String ℕ)
    (height : ℕ) where
  -- If some attempt gives the block of a height, which has transactions, and some attempt gives
  -- events of which all supported ones decode, the earlier attempts having failed, then with more
  -- fuel than attempts the goroutine of that height ends, and has sent the rows of those events on
  -- both channels.
  pub sync_height_returns :
      (n n' fuel : ℕ) (block : Block) (tx : String) (txs : List String) (events : HeightEvents)
      → SucceedsAfter (node.get_block height) n 0 block
      → block.txs ≡ tx ∷ txs
      → SucceedsAfter (events_at codecs node height) n' 0 events
      → n < fuel
      → n' < fuel
      → sync_height codecs node fuel chain_info_id committee height
        ≡ some (send_rows chain_info_id committee height block.timestamp events)
  unfolding sync_height
  sync_height_returns n n' fuel block tx txs events got nonempty decoded lt lt' = rw (
    retry-SucceedsAfter (node.get_block height) n 0 fuel block got lt,
    nonempty,
    retry-SucceedsAfter (events_at codecs node height) n' 0 fuel events decoded lt',
  )

  -- If the block of a height has transactions and each attempt at its events fails, be it in the
  -- call or in decoding a supported event, then no fuel is enough: the goroutine never ends.
  pub sync_height_never_ends :
      (n fuel : ℕ) (block : Block) (tx : String) (txs : List String)
      → SucceedsAfter (node.get_block height) n 0 block
      → block.txs ≡ tx ∷ txs
      → ((i : ℕ) → (e : Error) × (events_at codecs node height i ≡ err e))
      → n < fuel
      → sync_height codecs node fuel chain_info_id committee height ≡ none
  unfolding sync_height
  sync_height_never_ends n fuel block tx txs got nonempty fails lt = rw (
    retry-SucceedsAfter (node.get_block height) n 0 fuel block got lt,
    nonempty,
    retry_forever (events_at codecs node height) fails fuel 0,
  )
