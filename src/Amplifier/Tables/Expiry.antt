-- ===== src/Amplifier/Tables/Expiry.antt =====
-- Which votes count: UpdatePollVoteList of amplifier-verifier/repository.
use mathlib.Core.Path.{subst}
use cvms.Base.{
  ltb→lt, lt→ltb, ◌∙◌, Bool-cases, ◌==◌, nat_eq, string_eq, All, ◌+◌, ◌<◌, ◌≡◌, refl, sym, Bool,
  true, false, inl, inr, none, some, List, [], ◌∷◌, ◌&&◌, if◌then◌else◌,
}
use cvms.Indexer.Fetch.Answers.{In}
use cvms.Amplifier.Statuses.{AmplifierVote}
use cvms.Amplifier.Tables.{Pick, same_key, set_vote, matches, matching, update_rows}

-- The database takes one of the rows that match, if there is one.
pub record PicksOne (pick : Pick) : Type 0 where
  pub picks_none : pick [] ≡ none
  pub picks_one :
      (v : AmplifierVote) (l : List AmplifierVote)
      → (u : AmplifierVote) × (pick (v ∷ l) ≡ some u) × In u (v ∷ l)

-- `u` is a vote on the poll and by the verifier of `r`, less than 10 blocks behind the poll's start.
pub record OnTime (r u : AmplifierVote) : Type 0 where
  pub same_chain : r.chain_info_id ≡ u.chain_info_id
  pub same_poll : r.chain_and_poll_id ≡ u.chain_and_poll_id
  pub same_verifier : r.verifier_id ≡ u.verifier_id
  pub in_time : u.poll_vote_height < r.poll_start_height + 10

and_true : (a b : Bool) → (a && b) ≡ true → (a ≡ true) × (b ≡ true)
and_true true true e = (refl, refl)
and_true true false e = cc
and_true false b e = cc

matches-OnTime : (r u : AmplifierVote) → matches r u ≡ true → OnTime r u
matches-OnTime r u e =
    let (key, early) = and_true (same_key r u) _ e in
    let (pair, verifier) =
      and_true
        ((r.chain_info_id == u.chain_info_id) && (r.chain_and_poll_id == u.chain_and_poll_id)) _
        key in
    let (chain, poll) = and_true (r.chain_info_id == u.chain_info_id) _ pair in
    record {
      same_chain = (nat_eq.test_iff _ _).0 chain;
      same_poll = (string_eq.test_iff _ _).0 poll;
      same_verifier = (nat_eq.test_iff _ _).0 verifier;
      in_time = ltb→lt _ _ early;
    }

OnTime-matches : (r u : AmplifierVote) → OnTime r u → matches r u ≡ true
OnTime-matches r u t =
    let chain = (nat_eq.test_iff r.chain_info_id u.chain_info_id).1 t.same_chain in
    let poll = (string_eq.test_iff r.chain_and_poll_id u.chain_and_poll_id).1 t.same_poll in
    let verifier = (nat_eq.test_iff r.verifier_id u.verifier_id).1 t.same_verifier in
    let early = lt→ltb u.poll_vote_height (r.poll_start_height + 10) t.in_time in
    rw (chain, poll, verifier, early) refl

matching-In :
    (r u : AmplifierVote) (l : List AmplifierVote) → In u (matching r l) → In u l × OnTime r u
unfolding matching
matching-In r u [] i = absurd i
matching-In r u (v ∷ l) i = keep (matches r v) refl (matching-In r u l) i
  where
    keep :
        (b : Bool)
        → matches r v ≡ b
        → (In u (matching r l) → In u l × OnTime r u)
        → In u (if b then v ∷ matching r l else matching r l)
        → In u (v ∷ l) × OnTime r u
    keep true e rest (inl same) = (inl same, rw same (matches-OnTime r v e))
    keep true e rest (inr i') = let (j, on_time) = rest i' in (inr j, on_time)
    keep false e rest i' = let (j, on_time) = rest i' in (inr j, on_time)

-- What is not among the matching votes does not match.
matching_none :
    (r : AmplifierVote) (l : List AmplifierVote) → matching r l ≡ [] → All (λ u. OnTime r u → ⊥) l
unfolding matching
matching_none r [] e = tt
matching_none r (v ∷ l) e = elim (Bool-cases (matches r v)) [
  | inl hit ↦ let e' : v ∷ matching r l ≡ [] = rw hit at e in cc
  | inr miss ↦
      let rest : matching r l ≡ [] = rw miss at e in
      (λ t. let e' : false ≡ true = sym miss ∙ OnTime-matches r v t in cc, matching_none r l rest)
]

-- What the update makes of one row: it stays if no vote of `l` is on time for it, and otherwise it
-- takes the status and the height of one that is.
pub data Counted (l : List AmplifierVote) (r : AmplifierVote) : AmplifierVote → Type 0 where
  unchanged : All (λ u. OnTime r u → ⊥) l → Counted l r r
  voted :
      (u : AmplifierVote)
      → In u l
      → OnTime r u
      → Counted l r (record r { status = u.status; poll_vote_height = u.poll_vote_height })

set_vote-Counted :
    (pick : Pick) (picks : PicksOne pick) (l : List AmplifierVote) (r : AmplifierVote)
    → Counted l r (set_vote r (pick (matching r l)))
set_vote-Counted pick picks l r = go (matching r l) refl
  where
    go : (m : List AmplifierVote) → matching r l ≡ m → Counted l r (set_vote r (pick m))
    go [] e = rw picks.picks_none (unchanged (matching_none r l e))
    go (v ∷ m) e =
        let (u, picked, i) = picks.picks_one v m in
        let (j, on_time) = matching-In r u l (subst (λ k. In u k) (sym e) i) in
        rw picked (voted u j on_time)

-- Row by row.
abbrev pub EachCounted : List AmplifierVote → List AmplifierVote → List AmplifierVote → Type 0
EachCounted l [] [] = Unit
EachCounted l [] (_ ∷ _) = ⊥
EachCounted l (_ ∷ _) [] = ⊥
EachCounted l (r ∷ rows) (r' ∷ rows') = Counted l r r' × EachCounted l rows rows'

-- The update by the votes `l` keeps the rows in number and order. A row for which no vote of its
-- verifier on its poll came less than 10 blocks behind the poll's start is unchanged. Any other row
-- gets the status and the height of such a vote of the list, and nothing else of it changes.
pub update_rows-Counted :
    (pick : Pick)
    → PicksOne pick
    → (l rows : List AmplifierVote) → EachCounted l rows (update_rows pick l rows)
unfolding update_rows
update_rows-Counted pick picks l [] = tt
update_rows-Counted pick picks l (r ∷ rows) =
    (set_vote-Counted pick picks l r, update_rows-Counted pick picks l rows)
