-- ===== src/Amplifier/Tables.antt =====
-- amplifier-verifier/repository/repository.go. What the two statements on the votes do to the rows is
-- written out from their text; which of several matching rows an UPDATE .. FROM takes is left to the
-- database by PostgreSQL, and a parameter here, as is whether a statement succeeds.
pub mod Expiry
pub mod Again
use mathlib.Core.Option
use cvms.Base.{
  ℕ, ◌+◌, ◌≡◌, ◌≢◌, String, Bool, true, false, Option, none, some, List, [], ◌∷◌, ◌++◌, map, ◌&&◌,
  ◌||◌, ◌==◌, ltb, nat_eq, string_eq, if◌then◌else◌, Result, ok, Exec, ◌>>=◌, ◌>>◌,
}
use cvms.Indexer.Tables.Insert.{or_wrap, failed_update}
use cvms.Amplifier.Statuses.{AmplifierVote}

-- CONSTRAINT uniq_verifier_id_by_poll, and the three equations of the update
abbrev pub same_key : AmplifierVote → AmplifierVote → Bool
same_key a b =
    (a.chain_info_id == b.chain_info_id)
    && (a.chain_and_poll_id == b.chain_and_poll_id)
    && (a.verifier_id == b.verifier_id)

unfoldable pub has_key : AmplifierVote → List AmplifierVote → Bool
has_key v [] = false
has_key v (r ∷ rows) = same_key r v || has_key v rows

-- INSERT .. ON CONFLICT ON CONSTRAINT uniq_verifier_id_by_poll DO NOTHING
unfoldable pub insert_new : List AmplifierVote → List AmplifierVote → List AmplifierVote
unfolding has_key
insert_new [] rows = rows
insert_new (v ∷ l) rows = insert_new l (if has_key v rows then rows else rows ++ (v ∷ []))

-- the 10 of the last condition of the update
abbrev pub block_expiry_blocks : ℕ
block_expiry_blocks = 10

-- WHERE ..: `v` is of the row's poll and verifier, and in time.
abbrev pub matches : AmplifierVote → AmplifierVote → Bool
matches r v = same_key r v && ltb v.poll_vote_height (r.poll_start_height + block_expiry_blocks)

unfoldable pub matching : AmplifierVote → List AmplifierVote → List AmplifierVote
matching r [] = []
matching r (v ∷ l) = let rest = matching r l in if matches r v then v ∷ rest else rest

-- SET status = .., poll_vote_height = ..
abbrev pub set_vote : AmplifierVote → Option AmplifierVote → AmplifierVote
set_vote r none = r
set_vote r (some v) = record r { status = v.status; poll_vote_height = v.poll_vote_height }

-- Which of the matching rows is taken.
abbrev pub Pick : Type 0
Pick = List AmplifierVote → Option AmplifierVote

-- UPDATE axelar_amplifier_verifier .. FROM _data, with `l` for the values of _data
unfoldable pub update_rows : Pick → List AmplifierVote → List AmplifierVote → List AmplifierVote
unfolding matching
update_rows pick l rows = map (λ r. set_vote r (pick (matching r l))) rows

-- The first two fields are what can be seen of a state.
pub record AmplifierTables (State : Type 0) : Type 0 where
  pub votes : State → List AmplifierVote
  pub pointer : State → ℕ → String → Option ℕ
  pub insert_init : List AmplifierVote → Exec State (Unit {0})
  pub update_votes : List AmplifierVote → Exec State (Unit {0})
  pub update_pointer : ℕ → String → ℕ → Exec State (Unit {0})
  pub run_in_tx : Exec State (Unit {0}) → Exec State (Unit {0})

abbrev pub amplifier_index : String
amplifier_index = "axelar_amplifier_verifier"

module _ {State : Type 0} (t : AmplifierTables State) where
  unfoldable pub insert_init_poll_vote_list : List AmplifierVote → Exec State (Unit {0})
  insert_init_poll_vote_list l = or_wrap "failed to insert init poll vote list" (t.insert_init l)

  -- the body of the transaction
  unfoldable pub update_and_move : ℕ → ℕ → List AmplifierVote → Exec State (Unit {0})
  update_and_move c h l = do
    or_wrap "failed to insert validator_miss list" (t.update_votes l)
    or_wrap failed_update (t.update_pointer c amplifier_index h)

  unfoldable pub update_poll_vote_list : ℕ → ℕ → List AmplifierVote → Exec State (Unit {0})
  unfolding update_and_move
  update_poll_vote_list c h [] = or_wrap failed_update (t.update_pointer c amplifier_index h)
  update_poll_vote_list c h (v ∷ l) =
      or_wrap "failed to exec validator miss in a transaction"
        (t.run_in_tx (update_and_move c h (v ∷ l)))

  abbrev pub insert_unless_none : List AmplifierVote → Exec State (Unit {0})
  insert_unless_none [] s = (ok tt, s)
  insert_unless_none (v ∷ l) s =
      or_wrap "failed to insert init vote list" (insert_init_poll_vote_list (v ∷ l)) s

  -- The two writes at the end of batchSync: the second runs if the first has succeeded.
  unfoldable pub store_polls :
      ℕ → ℕ → List AmplifierVote → List AmplifierVote → Exec State (Unit {0})
  unfolding insert_init_poll_vote_list update_poll_vote_list
  store_polls c h init l = do
    insert_unless_none init
    or_wrap "failed to insert update poll vote list" (update_poll_vote_list c h l)

  pub record SameVotes (s s' : State) : Type 0 where
    pub same_votes : t.votes s' ≡ t.votes s
    pub same_pointer : (c : ℕ) (n : String) → t.pointer s' c n ≡ t.pointer s c n

  -- What SQL and bun document of these statements and of the transaction.
  pub record AmplifierLaws (pick : Pick) : Type 0 where
    pub init_inserts :
        (l : List AmplifierVote) (s : State)
        → (t.insert_init l s).0 ≡ ok tt
        → t.votes (t.insert_init l s).1 ≡ insert_new l (t.votes s)
    pub init_fails :
        (l : List AmplifierVote) (s : State)
        → (t.insert_init l s).0 ≢ ok tt
        → t.votes (t.insert_init l s).1 ≡ t.votes s
    pub votes_updated :
        (l : List AmplifierVote) (s : State)
        → (t.update_votes l s).0 ≡ ok tt
        → t.votes (t.update_votes l s).1 ≡ update_rows pick l (t.votes s)
    pub pointer_apart :
        (c : ℕ) (n : String) (h : ℕ) (s : State) → t.votes (t.update_pointer c n h s).1 ≡ t.votes s
    pub tx_commits :
        (body : Exec State (Unit {0})) (s : State)
        → (t.run_in_tx body s).0 ≡ ok tt
        → ((body s).0 ≡ ok tt) × SameVotes (body s).1 (t.run_in_tx body s).1
    pub tx_rolls_back :
        (body : Exec State (Unit {0})) (s : State)
        → (t.run_in_tx body s).0 ≢ ok tt
        → SameVotes s (t.run_in_tx body s).1
