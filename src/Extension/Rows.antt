-- ===== src/Extension/Rows.antt =====
-- What the vote-extension indexer is to store of a chain, and what it makes of a pair of blocks.
use cvms.Base.{
  bind-eq-ok, wrap-eq-ok, ℕ, suc, ◌≡◌, ◌≢◌, ap, ◌∙◌, inl, inr, String, Option, none, some, List, [],
  ◌∷◌, arith, nat_eq, string_eq, Option-cases, map, Map, lookup, Result, wrap, ok, err, panic,
}
use cvms.Indexer.Types.{zero_summary}
use cvms.Indexer.Fetch.Honest.{Chain, summary_of}
use cvms.Indexer.Calm.{Agrees}
use cvms.Indexer.Batch.Rows.{Implements}
use cvms.Vote.Votes.{Voting}
use cvms.Extension.Codec.{VoteExtension, Packages, decoding_vote_extension_tx}
use cvms.Extension.Votes.{
  ValidatorExtensionVote, extension_with, extension_of, extensions_of,
  make_validator_extension_list, pair_extensions,
}
use cvms.Extension.Sync.{extension_scheme}

abbrev or_none : Result (List VoteExtension) → List VoteExtension
or_none (ok l) = l
or_none (err e) = []
or_none panic = []

-- The extensions that the first transaction carries.
abbrev pub carried : Packages → List String → List VoteExtension
carried p [] = []
carried p (tx ∷ txs) = or_none (decoding_vote_extension_tx p tx)

module _ (id_of : String → ℕ) where
  -- The rows of the block at height `h`: the extensions that the next block carries.
  unfoldable pub extension_rows : Packages → Chain → ℕ → ℕ → List ValidatorExtensionVote
  extension_rows p chain c h =
      map
        (λ (ve : VoteExtension).
          extension_with
            (record {
              chain_info_id = c;
              last_height = h;
              last_timestamp = (chain.block h).timestamp;
            })
            (id_of ve.address) ve)
        (carried p (chain.block (suc h)).txs)

  module _ (vim : Map String ℕ) (agrees : Agrees id_of vim) where
    extension_of_known :
        (v : Voting) (ve : VoteExtension) (signature : Option (List ℕ))
        (row : ValidatorExtensionVote)
        → extension_of v vim ve signature ≡ ok row
        → row ≡ extension_with v (id_of ve.address) ve
    unfolding extension_of
    extension_of_known v ve none row e = elim (Option-cases (lookup ve.address vim)) [
      | inl m ↦ ground arith
      | inr (i, m) ↦ ground (arith, agrees ve.address i m)
    ]
    extension_of_known v ve (some s) row e = elim (Option-cases (lookup ve.address vim)) [
      | inl m ↦ ground arith
      | inr (i, m) ↦ ground (arith, agrees ve.address i m)
    ]

    extensions_of_known :
        (v : Voting) (ves : List VoteExtension) (rows : List ValidatorExtensionVote)
        → extensions_of v vim ves ≡ ok rows
        → rows ≡ map (λ (ve : VoteExtension). extension_with v (id_of ve.address) ve) ves
    unfolding extensions_of
    extensions_of_known v [] rows e = cc
    extensions_of_known v (ve ∷ ves) rows e =
        let (row, one, e') = bind-eq-ok (extension_of v vim ve ve.signature) _ e in
        let (rest, more, e'') = bind-eq-ok (extensions_of v vim ves) _ e' in
        cc (extension_of_known v ve ve.signature row one, extensions_of_known v ves rest more, e'')

    -- What `makeValidatorExtensionList` returns without an error.
    make_validator_extension_list_known :
        (p : Packages) (c h ts : ℕ) (txs : List String) (rows : List ValidatorExtensionVote)
        → make_validator_extension_list p c vim h ts txs ≡ ok rows
        → rows
          ≡ map
              (λ (ve : VoteExtension).
                extension_with
                  (record { chain_info_id = c; last_height = h; last_timestamp = ts })
                  (id_of ve.address)
                  ve)
              (carried p txs)
    unfolding make_validator_extension_list
    make_validator_extension_list_known p c h ts [] rows e = cc
    make_validator_extension_list_known p c h ts (tx ∷ txs) rows e =
        let (ves, decoded, e') =
          bind-eq-ok
            (wrap "failed to decode vote extension from txs[0]" (decoding_vote_extension_tx p tx)) _
            e in
        let plain =
          wrap-eq-ok "failed to decode vote extension from txs[0]" (decoding_vote_extension_tx p tx)
            decoded in
        rw plain (extensions_of_known _ ves rows e')

    pair_extensions_known :
        (p : Packages) (chain : Chain) (c h : ℕ) (rows : List ValidatorExtensionVote)
        → pair_extensions p c vim (summary_of chain h) (summary_of chain (suc h)) ≡ ok rows
        → rows ≡ extension_rows p chain c h
    unfolding pair_extensions extension_rows
    pair_extensions_known p chain c h rows e =
        let made =
          make_validator_extension_list p c vim (chain.block h).height (chain.block h).timestamp
            (chain.block (suc h)).txs in
        let plain : made ≡ ok rows = ground (
          arith,
          chain.block_height h,
          chain.last_commit h,
          wrap-eq-ok "failed to make temp validator extension list at %d height" made {a = rows},
        ) in
        make_validator_extension_list_known p c (chain.block h).height (chain.block h).timestamp
          (chain.block (suc h)).txs rows plain
        ∙ ap
            (λ k.
              map
                (λ (ve : VoteExtension).
                  extension_with
                    (record {
                      chain_info_id = c;
                      last_height = k;
                      last_timestamp = (chain.block h).timestamp;
                    })
                    (id_of ve.address) ve)
                (carried p (chain.block (suc h)).txs))
            (chain.block_height h)

pair_extensions_missing :
    (p : Packages) (vim : Map String ℕ) (chain : Chain) (c h : ℕ)
    (rows : List ValidatorExtensionVote)
    → pair_extensions p c vim (summary_of chain (suc h)) zero_summary ≢ ok rows
unfolding pair_extensions
pair_extensions_missing p vim chain c h rows e = ground (arith, chain.block_height (suc h))

-- What `extension_scheme` makes of a pair of blocks is what the chain says.
pub extension_scheme-Implements :
    (id_of : String → ℕ) (p : Packages) (chain : Chain)
    → Implements (extension_scheme p) id_of chain (extension_rows id_of p chain)
extension_scheme-Implements id_of p chain = record {
  pair_known = λ vim agrees c h rows e. pair_extensions_known id_of vim agrees p chain c h rows e;
  pair_missing = λ vim c h rows e. pair_extensions_missing p vim chain c h rows e;
}
