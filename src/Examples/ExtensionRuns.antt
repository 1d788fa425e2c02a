-- ===== src/Examples/ExtensionRuns.antt =====
-- A toy codec, and a run of the vote-extension indexer with it.
use cvms.Base.{
  Each, ℕ, String, ◌≡◌, refl, ◌==◌, nat_eq, string_eq, if◌then◌else◌, false, some, none, List, [],
  ◌∷◌, arith, message, ok, err, Result, All, length, exist, put, lookup-nil,
}
use cvms.Indexer.Tables.Insert.{insert_batch}
use cvms.Indexer.Fetch.{fetch_summaries, end_height}
use cvms.Indexer.Validators.{register_new_validators}
use cvms.Indexer.Monikers.{filter_for_monikers}
use cvms.Indexer.Loop.{LoopState, turn, run}
use cvms.Indexer.Batch.{batch_rows, batch_sync}
use cvms.Indexer.Batch.Once.{Turn, IsSound, Synced}
use cvms.Extension.Codec.{VoteExtension, Bytes, AbciVote, Packages, decoding_vote_extension_tx}
use cvms.Extension.Codec.RoundTrip.{
  ReadAs, Encoders, Inverse, compressed, by_zlib, by_zstd, decoding_vote_extension_tx-encoded,
}
use cvms.Extension.Votes.{ValidatorExtensionVote, pair_extensions}
use cvms.Extension.Sync.{extension_scheme}
use cvms.Extension.Rows.{extension_rows}
use cvms.Extension.Once.{extension_run, extension_run-Synced}
use cvms.Examples.Database.{
  Db, db_tables, db_laws, toy_infos, toy-InfoLaws, toy_lists, toy_id, toy_make_infos, toy_chain,
  good_node, bad_node, good_node-IsHonest, bad_node-IsHonest, in_order, in_order-Delivers,
}
use cvms.Examples.VoteRuns.{toy_db, toy_indexer, toy_latest}

abbrev pub toy_votes : List AbciVote
toy_votes =
    record {
      validator_address = 10 ∷ [];
      block_id_flag = 2;
      vote_extension = 1 ∷ 2 ∷ 3 ∷ [];
      extension_signature = some (7 ∷ []);
    }
    ∷ record {
      validator_address = 11 ∷ [];
      block_id_flag = 2;
      vote_extension = [];
      extension_signature = none;
    }
    ∷ []

-- the first byte of a stream is its header
abbrev untag : ℕ → Bytes → Result Bytes
untag n [] = err (message "unexpected EOF")
untag n (b ∷ bz) = if b == n then ok bz else err (message "invalid header")

abbrev toy_hex : Bytes → String
toy_hex [] = ""
toy_hex (b ∷ bz) = if b == 10 then "A" else "B"

abbrev toy_text : Bytes → String
toy_text [] = ""
toy_text (b ∷ bz) = if b == 1 then "injected" else "zstd"

abbrev pub toy_packages : Packages
toy_packages = record {
  base64_decode = λ s.
      if s == "injected"
      then ok (1 ∷ 5 ∷ [])
      else (if s == "zstd" then ok (2 ∷ 5 ∷ []) else err (message "illegal base64 data"));
  zlib_read = untag 1;
  zstd_decode_all = untag 2;
  unmarshal_votes = λ b. if length b == 1 then ok toy_votes else err (message "proto");
  upper_hex = toy_hex;
}

abbrev toy_encoders : Encoders
toy_encoders = record {
  base64_encode = toy_text;
  zlib_write = λ b. 1 ∷ b;
  zstd_write = λ b. 2 ∷ b;
  marshal_votes = λ l. 5 ∷ [];
}

toy-Inverse : Inverse toy_packages toy_encoders toy_votes
toy-Inverse = record {
  base64 = base64;
  zlib = λ b. refl;
  zlib_header = λ b e. cc;
  zstd = λ b. refl;
  zstd_header = λ b e. cc;
  not_zlib = λ b. (message "invalid header", refl);
  unmarshal = refl;
  unmarshal_empty = λ e. cc;
}
  where
    base64 :
        (c : _)
        → toy_packages.base64_decode (toy_text (compressed toy_encoders c (5 ∷ [])))
          ≡ ok (compressed toy_encoders c (5 ∷ []))
    base64 by_zlib = refl
    base64 by_zstd = refl

decoding_vote_extension_tx-encoded_example :
    (found : List VoteExtension) × (decoding_vote_extension_tx toy_packages "zstd" ≡ ok found)
    × Each (ReadAs toy_packages) toy_votes found
decoding_vote_extension_tx-encoded_example =
    decoding_vote_extension_tx-encoded toy_packages toy_encoders toy_votes toy-Inverse by_zstd

abbrev extension_start : LoopState (Db ValidatorExtensionVote)
extension_start = record {
  index_point = 10;
  is_unhealth = false;
  client = record { api_endpoint = "a"; rpc_endpoint = "b" };
  world = record { indexer = toy_indexer []; db = toy_db "veindexer" };
}

abbrev extension_turns : List Turn
extension_turns =
    record {
      health_apis = [];
      health_rpcs = [];
      make_infos = toy_make_infos;
      node = λ c. bad_node;
      arrive = in_order;
      latest = toy_latest;
    }
    ∷ record {
      health_apis = "c" ∷ [];
      health_rpcs = "d" ∷ [];
      make_infos = toy_make_infos;
      node = λ c. good_node;
      arrive = in_order;
      latest = toy_latest;
    }
    ∷ []

extension_turns-IsSound : All (IsSound toy_chain) extension_turns
extension_turns-IsSound = (
  record { honest = λ c. bad_node-IsHonest; delivers = in_order-Delivers; no_fall = omega arith },
  (
    record {
      honest = λ c. good_node-IsHonest;
      delivers = in_order-Delivers;
      no_fall = omega arith;
    },
    tt,
  ),
)

extension_start-Synced :
    Synced
      (extension_scheme toy_packages)
      db_tables
      toy_id
      (extension_rows toy_id toy_packages toy_chain)
      7
      9
      []
      10
      extension_start.world
extension_start-Synced = record {
  blocks = 0;
  at_point = refl;
  rows = refl;
  pointer = refl;
  ids = λ a i e. lookup-nil a e;
  same_chain = refl;
  full = refl;
}

abbrev extension_end : LoopState (Db ValidatorExtensionVote)
extension_end = (extension_run toy_packages db_tables toy_infos extension_turns extension_start).1

extension_run-Synced_example :
    Synced
      (extension_scheme toy_packages)
      db_tables
      toy_id
      (extension_rows toy_id toy_packages toy_chain)
      7
      9
      []
      extension_end.index_point
      extension_end.world
extension_run-Synced_example =
    extension_run-Synced toy_packages db_tables toy_id toy_chain 7 toy_infos db_laws toy-InfoLaws
      toy_lists extension_turns 9 [] extension_start extension_turns-IsSound extension_start-Synced

-- The good turn went through: five blocks of two rows.
extension_end_rows : length extension_end.world.db.stored ≡ 10
unfolding run turn batch_sync fetch_summaries end_height register_new_validators put exist
    batch_rows pair_extensions decoding_vote_extension_tx filter_for_monikers insert_batch
extension_end_rows = refl
