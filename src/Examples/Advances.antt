-- ===== src/Examples/Advances.antt =====
-- Turns of the two loops that advance, on the small chain.
use mathlib.Core.Path.{subst}
use cvms.Base.{
  Bool-cases, ◌==◌, inr, lookup, false, ℕ, ◌<◌, ◌≡◌, refl, inl, String, [], ◌∷◌, arith, ok, exist,
  string_eq, Map,
}
use cvms.Indexer.Types.{Latest}
use cvms.Indexer.Calm.{Agrees}
use cvms.Indexer.Fetch.{end_height}
use cvms.Indexer.Loop.{LoopState, turn}
use cvms.Indexer.Batch.{Scheme}
use cvms.Indexer.Batch.Once.{Turn, round_of}
use cvms.Indexer.Batch.Advances.{Ready}
use cvms.Vote.Sync.{vote_scheme}
use cvms.Vote.Total.{vote_turn_advances}
use cvms.Extension.Sync.{extension_scheme}
use cvms.Extension.Total.{Extended, extension_turn_advances}
use cvms.Examples.Database.{
  Db, db_tables, db-Serves, toy_id, toy_infos, toy_make_infos, toy_chain, good_node,
  good_node-IsHonest, in_order, in_order-Delivers,
}
use cvms.Examples.VoteRuns.{toy_db, toy_indexer}
use cvms.Examples.ExtensionRuns.{toy_packages, toy_votes}
use cvms.Extension.Codec.{decoding_vote_extension_tx, to_vote_extensions}

abbrev known_ids : Map String ℕ
known_ids = ("A", 1) ∷ ("B", 2) ∷ []

known_ids-Agrees : Agrees toy_id known_ids
unfolding lookup
known_ids-Agrees a i e = elim (Bool-cases ("A" == a)) [
  | inl same ↦
      let one : i ≡ 1 = (let found = (rw same at e) in cc) in
      subst (λ b. i ≡ toy_id b) ((string_eq.test_iff "A" a).0 same) one
  | inr other ↦ elim (Bool-cases ("B" == a)) [
    | inl same ↦
        let two : i ≡ 2 = (let found = (rw (other, same) at e) in cc) in
        subst (λ b. i ≡ toy_id b) ((string_eq.test_iff "B" a).0 same) two
    | inr none_left ↦ let found = (rw (other, none_left) at e) in cc
  ]
]

-- twenty blocks behind: the batch is limited
abbrev far_latest : Latest
far_latest = record { at_guard = 30; at_end = 31; at_limit = 31 }

abbrev far_turn : Turn
far_turn = record {
  health_apis = [];
  health_rpcs = [];
  make_infos = toy_make_infos;
  node = λ c. good_node;
  arrive = in_order;
  latest = far_latest;
}

abbrev far_state : {Row : Type 0} → String → LoopState (Db Row)
far_state name = record {
  index_point = 10;
  is_unhealth = false;
  client = record { api_endpoint = "a"; rpc_endpoint = "b" };
  world = record { indexer = record (toy_indexer []) { vim = known_ids }; db = toy_db name };
}

far-Ready :
    {Row : Type 0} (scheme : Scheme Row) (name : String)
    → Ready scheme db_tables toy_infos toy_chain far_turn (far_state name) 9
unfolding exist
far-Ready scheme name = record {
  at_point = refl;
  ahead = omega arith;
  sound = record {
    honest = λ c. good_node-IsHonest;
    delivers = in_order-Delivers;
    no_fall = omega arith;
  };
  healthy = inl refl;
  full = refl;
  answers = λ c j lo hi. record { answers_block = refl; answers_validators = refl };
  known = λ j lo hi. record { known_proposer = refl; known_validators = (refl, (refl, tt)) };
}

vote_turn_advances_example :
    ((turn (round_of vote_scheme db_tables toy_infos far_turn) (far_state "voteindexer")).0 ≡ ok tt)
    × ((turn
          (round_of vote_scheme db_tables toy_infos far_turn)
          (far_state "voteindexer")).1.index_point
        ≡ end_height far_latest 11)
    × (10
        < (turn
            (round_of vote_scheme db_tables toy_infos far_turn)
            (far_state "voteindexer")).1.index_point)
vote_turn_advances_example =
    vote_turn_advances db_tables toy_infos toy_chain toy_id far_turn (far_state "voteindexer") 9
      (far-Ready vote_scheme "voteindexer") known_ids-Agrees (db-Serves _ (toy_db "voteindexer"))
      (λ j lo hi. omega arith)

far_end : end_height far_latest 11 ≡ 21
unfolding end_height
far_end = refl

toy-Extended : (j : ℕ) → Extended toy_packages toy_chain known_ids j
unfolding decoding_vote_extension_tx exist
toy-Extended j = record {
  first_tx = "injected";
  other_txs = [];
  extensions = to_vote_extensions toy_packages toy_votes;
  has_txs = refl;
  decodes = refl;
  has_ids = (refl, (refl, tt));
}

extension_turn_advances_example :
    ((turn
        (round_of (extension_scheme toy_packages) db_tables toy_infos far_turn)
        (far_state "veindexer")).0
      ≡ ok tt)
    × ((turn
          (round_of (extension_scheme toy_packages) db_tables toy_infos far_turn)
          (far_state "veindexer")).1.index_point
        ≡ end_height far_latest 11)
    × (10
        < (turn
            (round_of (extension_scheme toy_packages) db_tables toy_infos far_turn)
            (far_state "veindexer")).1.index_point)
extension_turn_advances_example =
    extension_turn_advances toy_packages db_tables toy_infos toy_chain toy_id far_turn
      (far_state "veindexer") 9 (far-Ready (extension_scheme toy_packages) "veindexer")
      known_ids-Agrees (db-Serves _ (toy_db "veindexer")) (λ j lo hi. toy-Extended j)
