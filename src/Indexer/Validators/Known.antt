-- ===== src/Indexer/Validators/Known.antt =====
-- A batch without new validators does not touch the validator infos.
use cvms.Base.{
  string_eq, ℕ, ◌≡◌, refl, String, true, false, List, [], ◌∷◌, Map, exist, values, All, Error,
  Result, ok,
}
use cvms.Indexer.Types.{CosmosValidator, BlockSummary, ValidatorInfo}
use cvms.Indexer.Tables.{InfoTable}
use cvms.Indexer.Monikers.{World}
use cvms.Indexer.Validators.{
  NewAddresses, note_address, note_validators, note_summaries, register_new,
  register_new_validators,
}

-- The proposer and the validators of a block have ids.
pub record Known (vim : Map String ℕ) (b : BlockSummary) : Type 0 where
  pub known_proposer : exist b.block_proposer_address vim ≡ true
  pub known_validators :
      All (λ (v : CosmosValidator). exist v.address vim ≡ true) b.cosmos_validators

note_address_known :
    (vim : Map String ℕ) (a : String) (acc : NewAddresses)
    → exist a vim ≡ true
    → note_address vim a acc ≡ acc
unfolding note_address
note_address_known vim a (found, is_new) e = rw e

note_validators_known :
    (vim : Map String ℕ) (vs : List CosmosValidator) (acc : NewAddresses)
    → All (λ (v : CosmosValidator). exist v.address vim ≡ true) vs
    → note_validators vim vs acc ≡ acc
unfolding note_validators
note_validators_known vim [] acc h = refl
note_validators_known vim (v ∷ vs) acc (e, h) =
    rw (note_address_known vim v.address acc e) (note_validators_known vim vs acc h)

note_summaries-Known :
    (vim : Map String ℕ) (bs : List BlockSummary) (acc : NewAddresses)
    → All (Known vim) bs
    → note_summaries vim bs acc ≡ acc
unfolding note_summaries
note_summaries-Known vim [] acc h = refl
note_summaries-Known vim (b ∷ bs) acc (k, h) =
    rw
      (
        note_address_known vim b.block_proposer_address acc k.known_proposer,
        note_validators_known vim b.cosmos_validators acc k.known_validators,
      )
      (note_summaries-Known vim bs acc h)

pub register_new_validators-Known :
    {State : Type 0} (infos : InfoTable State ValidatorInfo) (fail : Error → Error)
    (make_infos : List String → Result (List ValidatorInfo)) (m : Map ℕ BlockSummary)
    (w : World State)
    → All (Known w.indexer.vim) (values m)
    → register_new_validators infos fail make_infos m w ≡ (ok tt, w)
unfolding register_new_validators register_new
register_new_validators-Known infos fail make_infos m w h =
    rw (note_summaries-Known w.indexer.vim (values m) ([], false) h)
