-- ===== src/NodeApi/Calls/Chains.antt =====
-- A node over HTTP, as the indexers' fetch takes it: Indexer/Fetch/Honest.
use mathlib.Core.Path.{ap₂}
use cvms.Base.{
  ℕ, ◌+◌, ◌*◌, ◌<◌, ◌≡◌, ◌≢◌, ◌⊎◌, inl, inr, refl, sym, ◌∙◌, ap, Bool-cases, String, Bool, true,
  false, List, [], ◌∷◌, if◌then◌else◌, ◌==◌, nat_eq, length, take, drop, ok, wrap-eq-ok, bind-eq-ok,
  ok_injective,
}
use cvms.Indexer.Types.{CosmosValidator}
use cvms.Indexer.Fetch.{Block}
use cvms.Indexer.Fetch.Honest.{Chain, IsHonest}
use cvms.NodeApi.Parser.{
  CosmosBlock, CosmosValidators, Decoders, cosmos_block_parser, cosmos_validator_parser,
}
use cvms.NodeApi.Calls.{HttpAnswer, answered, failed, ApiDecoders, body_of, get_block, http_node}
use cvms.NodeApi.Calls.Pages.{PagesOf, get_validators_honest}

-- A response is JSON of this block, in the shape of v0.34 or of v0.37.
pub record WritesBlock (d : Decoders) (body : String) (b : Block) : Type 0 where
  pub is_v34 : Bool
  pub shape : d.has_jsonrpc body ≡ ok is_v34
  pub content : CosmosBlock
  pub decoded : (if is_v34 then d.block_v34 body else d.block_v37 body) ≡ ok content
  pub own_height : d.parse_int content.header_height ≡ ok b.height
  pub own_last_commit : d.parse_int content.last_commit_height ≡ ok b.last_commit_height
  pub own_time : content.header_time ≡ b.timestamp
  pub own_proposer : content.header_proposer_address ≡ b.proposer_address
  pub own_txs : content.data_txs ≡ b.txs
  pub own_signatures : content.last_commit_signatures ≡ b.signatures

-- A response is JSON of a page of validators, in one of the two shapes. The type of v0.34 finds no
-- validators in the shape of v0.37.
pub data WritesPage (d : Decoders) (body : String) (page : List CosmosValidator) (total : ℕ)
    : Type 0 where
  page_v34 :
      (c : CosmosValidators)
      → d.validators_v34 body ≡ ok c
      → c.validators ≡ page
      → page ≢ []
      → d.parse_int c.total ≡ ok total
      → WritesPage d body page total
  page_v37 :
      (none_found c : CosmosValidators)
      → d.validators_v34 body ≡ ok none_found
      → none_found.validators ≡ []
      → d.validators_v37 body ≡ ok c
      → c.validators ≡ page
      → d.parse_int c.total ≡ ok total
      → WritesPage d body page total

-- What a node says that follows a chain, if it says anything, to each query on its own: a body
-- under status 200 is JSON of the block at that height, or of one page of a hundred of its
-- validators with their number. Nothing is asked of answers that fail.
pub record Follows (a : ApiDecoders) (chain : Chain) (block_answer : ℕ → HttpAnswer)
    (page_answer : ℕ → ℕ → HttpAnswer) : Type 0 where
  pub block_bodies :
      (h : ℕ) (body : String)
      → block_answer h ≡ answered 200 body
      → WritesBlock a.decoders body (chain.block h)
  pub page_bodies :
      (h k : ℕ) (body : String)
      → (100 * k < length (chain.validators h)) ⊎ (k ≡ 0)
      → page_answer h (k + 1) ≡ answered 200 body
      → WritesPage a.decoders body
          (take 100 (drop (100 * k) (chain.validators h)))
          (length (chain.validators h))

block_parsed :
    (d : Decoders) (body : String) (b : Block)
    → WritesBlock d body b
    → cosmos_block_parser d body ≡ ok b
unfolding cosmos_block_parser
block_parsed d body b w = go w.is_v34 w.shape w.decoded
  where
    go :
        (v : Bool)
        → d.has_jsonrpc body ≡ ok v
        → (if v then d.block_v34 body else d.block_v37 body) ≡ ok w.content
        → cosmos_block_parser d body ≡ ok b
    go true e f =
        rw
          (
            e, f, w.own_height, w.own_last_commit, w.own_time, w.own_proposer, w.own_txs,
            w.own_signatures,
          )
          refl
    go false e f =
        rw
          (
            e, f, w.own_height, w.own_last_commit, w.own_time, w.own_proposer, w.own_txs,
            w.own_signatures,
          )
          refl

page_parsed :
    (d : Decoders) (body : String) (page : List CosmosValidator) (total : ℕ)
    → WritesPage d body page total
    → cosmos_validator_parser d body ≡ ok (page, total)
unfolding cosmos_validator_parser
page_parsed d body [] total (page_v34 c e f some_found g) = absurd (some_found refl)
page_parsed d body (v ∷ page) total (page_v34 c e f some_found g) = rw (e, f, g) refl
page_parsed d body page total (page_v37 none_found c e f e' f' g) = rw (e, f, e', f', g) refl

body_of-eq-ok : (x : HttpAnswer) (body : String) → body_of x ≡ ok body → x ≡ answered 200 body
body_of-eq-ok (failed e) body h = cc
body_of-eq-ok (answered code text) body h = elim (Bool-cases (code == 200)) [
  | inl same ↦ ap₂ answered ((nat_eq.test_iff code 200).0 same) (ok_injective (rw same at h))
  | inr other ↦ let h' = (rw other at h) in cc
]

-- The calls of the API make such a node honest: whichever of its answers fail, and on whichever
-- pages, a block or a set of validators that they return is the chain's.
pub http_node-IsHonest :
    (a : ApiDecoders) (chain : Chain) (block_answer : ℕ → HttpAnswer)
    (page_answer : ℕ → ℕ → HttpAnswer)
    → Follows a chain block_answer page_answer
    → IsHonest chain (http_node a block_answer page_answer)
unfolding get_block
http_node-IsHonest a chain block_answer page_answer follows = record {
  honest_block = λ h b e.
      let (body, got, parsed_ok) = bind-eq-ok (body_of (block_answer h)) _ e in
      ok_injective (
        sym (wrap-eq-ok _ (cosmos_block_parser a.decoders body) parsed_ok)
        ∙ block_parsed a.decoders body (chain.block h)
            (follows.block_bodies h body (body_of-eq-ok (block_answer h) body got)));
  honest_validators =
      λ h v e. get_validators_honest a (page_answer h) (chain.validators h) v (pages h) e;
}
  where
    pages : (h : ℕ) → PagesOf a (page_answer h) (chain.validators h)
    pages h k page total asked e =
        let (body, got, parsed_ok) = bind-eq-ok (body_of (page_answer h (k + 1))) _ e in
        let same = ok_injective (
          sym (wrap-eq-ok _ (cosmos_validator_parser a.decoders body) parsed_ok)
          ∙ page_parsed a.decoders body _ _
              (follows.page_bodies h k body asked (body_of-eq-ok _ body got))) in
        (
          ap (λ (p : List CosmosValidator × ℕ). p.0) same,
          ap (λ (p : List CosmosValidator × ℕ). p.1) same,
        )
