-- ===== src/Extension/Sync.antt =====
-- What the vote-extension indexer's batchSync and repository have of their own.
use cvms.Base.{wrapped}
use cvms.Indexer.Tables.Insert.{InsertText}
use cvms.Indexer.Batch.{Scheme}
use cvms.Extension.Codec.{Packages}
use cvms.Extension.Votes.{ValidatorExtensionVote, pair_extensions}

abbrev pub extension_text : InsertText
extension_text = record {
  index_name = "veindexer";
  failed_insert = "failed to insert validator_miss list";
  failed_tx = "failed to exec validator miss in a transaction";
}

abbrev pub extension_scheme : Packages → Scheme ValidatorExtensionVote
extension_scheme p = record {
  text = extension_text;
  insert_failed = λ e. wrapped "failed to insert new hex address list" e;
  pair_rows = pair_extensions p;
  row_id = λ v. v.validator_hex_address_id;
}
