-- ===== src/Vote/Sync.antt =====
-- What the vote indexer's batchSync and InsertValidatorVoteList have of their own.
use cvms.Indexer.Tables.Insert.{InsertText}
use cvms.Indexer.Batch.{Scheme}
use cvms.Vote.Votes.{ValidatorVote, pair_votes}

abbrev pub vote_text : InsertText
vote_text = record {
  index_name = "voteindexer";
  failed_insert = "failed to insert validator_miss list";
  failed_tx = "failed to exec validator miss in a transaction";
}

abbrev pub vote_scheme : Scheme ValidatorVote
vote_scheme = record {
  text = vote_text;
  insert_failed = λ e. e;
  pair_rows = pair_votes;
  row_id = λ v. v.validator_hex_address_id;
}
