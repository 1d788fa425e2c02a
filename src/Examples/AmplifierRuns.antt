-- ===== src/Examples/AmplifierRuns.antt =====
-- Polls of the amplifier-verifier indexer in a table in memory, whose updates may fail.
use mathlib.Core.Option
use cvms.Base.{
  ℕ, zero, suc, ◌≡◌, ◌≢◌, ◌⊎◌, inl, refl, String, Option, none, some, List, [], ◌∷◌, ◌&&◌, ◌==◌,
  nat_eq, string_eq, if◌then◌else◌, Result, ok, err, panic, message,
}
use cvms.Base.Post.{Ends}
use cvms.Indexer.Tables.{InfoTable}
use cvms.Indexer.Monikers.{World}
use cvms.Amplifier.Statuses.{
  AmplifierVote, VerifierVoteStatus, poll_start, not_found, succeeded_on_chain, string_to_poll_vote,
  status_to_string, string_to_poll_vote-status_to_string,
}
use cvms.Amplifier.Polls.{PollCodecs}
use cvms.Amplifier.Tables.{
  AmplifierTables, AmplifierLaws, SameVotes, Pick, insert_new, update_rows, store_polls,
}
use cvms.Amplifier.Tables.Expiry.{PicksOne, EachCounted, update_rows-Counted}
use cvms.Amplifier.Tables.Again.{updated, store_polls_again}
use cvms.Amplifier.Sync.{VerifierInfo, PollNode}
use cvms.Amplifier.Sync.Batch.{amplifier_batch_sync}
use cvms.Amplifier.Sync.Points.{IsNextPoint, amplifier_batch_points}
use cvms.Examples.Database.{in_order}
use cvms.Examples.VoteRuns.{toy_indexer}

abbrev first_of : Pick
first_of [] = none
first_of (v ∷ l) = some v

first_of-PicksOne : PicksOne first_of
first_of-PicksOne = record { picks_none = refl; picks_one = λ v l. (v, refl, inl refl) }

-- `failures` is how many updates fail before one succeeds.
record PollDb : Type 0 where
  stored : List AmplifierVote
  pointers : ℕ → String → Option ℕ
  failures : ℕ

abbrev poll_commit : Result (Unit {0}) × PollDb → PollDb → Result (Unit {0}) × PollDb
poll_commit (ok _, after) s = (ok tt, after)
poll_commit (err e, after) s = (err e, record s { failures = after.failures })
poll_commit (panic, after) s = (panic, record s { failures = after.failures })

abbrev poll_update : ℕ → List AmplifierVote → PollDb → Result (Unit {0}) × PollDb
poll_update zero l s = (ok tt, record s { stored = update_rows first_of l s.stored })
poll_update (suc n) l s = (err (message "connection lost"), record s { failures = n })

abbrev poll_tables : AmplifierTables PollDb
poll_tables = record {
  votes = λ s. s.stored;
  pointer = λ s c n. s.pointers c n;
  insert_init = λ l s. (ok tt, record s { stored = insert_new l s.stored });
  update_votes = λ l s. poll_update s.failures l s;
  update_pointer = λ c n h s. (
    ok tt,
    record s {
      pointers = λ c' n'.
          if (c == c') && (n == n')
          then Option.map (λ _. h) (s.pointers c' n')
          else s.pointers c' n';
    },
  );
  run_in_tx = λ body s. poll_commit (body s) s;
}

poll_commit_commits :
    (x : Result (Unit {0}) × PollDb) (s : PollDb)
    → (poll_commit x s).0 ≡ ok tt
    → (x.0 ≡ ok tt) × SameVotes poll_tables x.1 (poll_commit x s).1
poll_commit_commits (ok _, after) s e =
    (refl, record { same_votes = refl; same_pointer = λ c n. refl })
poll_commit_commits (err _, after) s e = cc
poll_commit_commits (panic, after) s e = cc

poll_commit_rolls_back :
    (x : Result (Unit {0}) × PollDb) (s : PollDb)
    → (poll_commit x s).0 ≢ ok tt
    → SameVotes poll_tables s (poll_commit x s).1
poll_commit_rolls_back (ok _, after) s e = absurd (e refl)
poll_commit_rolls_back (err _, after) s e = record { same_votes = refl; same_pointer = λ c n. refl }
poll_commit_rolls_back (panic, after) s e = record { same_votes = refl; same_pointer = λ c n. refl }

poll_update_updates :
    (n : ℕ) (l : List AmplifierVote) (s : PollDb)
    → (poll_update n l s).0 ≡ ok tt
    → (poll_update n l s).1.stored ≡ update_rows first_of l s.stored
poll_update_updates zero l s e = refl
poll_update_updates (suc n) l s e = cc

poll_tables-AmplifierLaws : AmplifierLaws poll_tables first_of
poll_tables-AmplifierLaws = record {
  init_inserts = λ l s e. refl;
  init_fails = λ l s e. absurd (e refl);
  votes_updated = λ l s e. poll_update_updates s.failures l s e;
  pointer_apart = λ c n h s. refl;
  tx_commits = λ body s e. poll_commit_commits (body s) s e;
  tx_rolls_back = λ body s e. poll_commit_rolls_back (body s) s e;
}

abbrev poll_row : ℕ → ℕ → VerifierVoteStatus → AmplifierVote
poll_row vote_height verifier status = record {
  chain_info_id = 7;
  chain_and_poll_id = "sui/8";
  poll_start_height = 20;
  poll_vote_height = vote_height;
  verifier_id = verifier;
  status = status;
}

-- a poll of two verifiers, of whom the second votes late
abbrev started : List AmplifierVote
started = poll_row 0 1 poll_start ∷ poll_row 0 2 poll_start ∷ []

abbrev cast : List AmplifierVote
cast = poll_row 25 1 not_found ∷ poll_row 30 2 succeeded_on_chain ∷ []

-- the first update fails
abbrev poll_db : PollDb
poll_db = record { stored = []; pointers = λ c n. some 10; failures = 1 }

first_try_fails : (store_polls poll_tables 7 30 started cast poll_db).0 ≢ ok tt
unfolding store_polls insert_new
first_try_fails e = cc

second_try_succeeds :
    (store_polls poll_tables 7 30 started cast
      (store_polls poll_tables 7 30 started cast poll_db).1).0
    ≡ ok tt
unfolding store_polls insert_new
second_try_succeeds = refl

store_polls_again_example :
    (store_polls poll_tables 7 30 started cast
      (store_polls poll_tables 7 30 started cast poll_db).1).1.stored
    ≡ updated first_of cast (insert_new started [])
store_polls_again_example =
    store_polls_again poll_tables-AmplifierLaws 7 30 started cast poll_db first_try_fails
      second_try_succeeds

polls_after :
    updated first_of cast (insert_new started [])
    ≡ poll_row 25 1 not_found ∷ poll_row 0 2 poll_start ∷ []
unfolding insert_new update_rows
polls_after = refl

update_rows-Counted_example : EachCounted cast started (update_rows first_of cast started)
update_rows-Counted_example = update_rows-Counted first_of first_of-PicksOne cast started

string_to_poll_vote-status_to_string_example :
    string_to_poll_vote (status_to_string not_found) ≡ not_found
string_to_poll_vote-status_to_string_example = string_to_poll_vote-status_to_string not_found

abbrev poll_codecs : PollCodecs
poll_codecs = record {
  raw_type = λ raw. ok none;
  batch_messages = λ raw. ok [];
  unmarshal_strings = λ s. ok (s ∷ []);
  split_commas = λ s. s ∷ [];
  strip_quotes = λ s. s;
  with_slash = λ a b. a;
}

abbrev poll_node : PollNode
poll_node = record { get_block_results = λ h. ok []; get_block_and_txs = λ h. ok [] }

abbrev verifier_infos : InfoTable PollDb VerifierInfo
verifier_infos = record {
  list_by_chain_info_id = λ c s. (ok [], s);
  insert_list = λ l s. (ok tt, s);
  list_by_monikers = λ c ms s. (ok [], s);
}

abbrev poll_world : World PollDb
poll_world = record { indexer = toy_indexer []; db = poll_db }

amplifier_batch_points_example :
    Ends
      (λ p _. (p ≡ 20) ⊎ IsNextPoint 30 20 p)
      (λ _. Unit {0})
      (amplifier_batch_sync poll_tables verifier_infos poll_codecs poll_node in_order (ok []) 30 20)
      poll_world
amplifier_batch_points_example =
    amplifier_batch_points poll_tables verifier_infos poll_codecs poll_node in_order (ok []) 30 20
      poll_world
