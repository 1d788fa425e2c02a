-- ===== src/Amplifier/Tables/Again.antt =====
-- A batch of the amplifier-verifier indexer that is tried again: its first write stands on its own,
-- and must not count twice.
use cvms.Base.{
  if_ind, ℕ, ◌≡◌, ◌≢◌, refl, ap, ◌∙◌, Bool, true, false, ◌⊎◌, inl, inr, List, [], ◌∷◌, ◌++◌, All,
  ◌||◌, beq_self, nat_eq, string_eq, if◌then◌else◌, ok,
}
use cvms.Base.Post.{Ends, Ends-bind, Post-wrap, Post-split, Post-ok, Post-failed, Post-weaken}
use cvms.Indexer.Tables.Insert.{or_wrap, failed_update}
use cvms.Amplifier.Statuses.{AmplifierVote}
use cvms.Amplifier.Tables.{
  AmplifierTables, AmplifierLaws, Pick, same_key, has_key, insert_new, update_rows,
  insert_init_poll_vote_list, insert_unless_none, update_and_move, update_poll_vote_list,
  store_polls, amplifier_index,
}

same_key_self : (v : AmplifierVote) → same_key v v ≡ true
same_key_self v =
    rw (beq_self v.chain_info_id, beq_self v.chain_and_poll_id, beq_self v.verifier_id)

-- A key that is there stays.
has_key-append :
    (v : AmplifierVote) (rows l : List AmplifierVote)
    → has_key v rows ≡ true
    → has_key v (rows ++ l) ≡ true
unfolding has_key
has_key-append v [] l e = cc
has_key-append v (r ∷ rows) l e = or_keeps (same_key r v) _ _ (has_key-append v rows l) e
  where
    or_keeps : (b x y : Bool) → (x ≡ true → y ≡ true) → (b || x) ≡ true → (b || y) ≡ true
    or_keeps true x y h k = refl
    or_keeps false x y h k = h k

has_key-last : (v : AmplifierVote) (rows : List AmplifierVote) → has_key v (rows ++ (v ∷ [])) ≡ true
unfolding has_key
has_key-last v [] = rw (same_key_self v)
has_key-last v (r ∷ rows) = or_true (same_key r v) _ (has_key-last v rows)
  where
    or_true : (b x : Bool) → x ≡ true → (b || x) ≡ true
    or_true true x h = refl
    or_true false x h = h

has_key-insert_new :
    (v : AmplifierVote) (l rows : List AmplifierVote)
    → has_key v rows ≡ true
    → has_key v (insert_new l rows) ≡ true
unfolding insert_new
has_key-insert_new v [] rows e = e
has_key-insert_new v (u ∷ l) rows e = has_key-insert_new v l _ (
    if_ind (λ k. has_key v k ≡ true) (has_key u rows) rows (rows ++ (u ∷ [])) e
      (has_key-append v rows (u ∷ []) e))

-- behind an insert, each of its keys is there
insert_new-All : (l rows : List AmplifierVote) → All (λ v. has_key v (insert_new l rows) ≡ true) l
unfolding insert_new
insert_new-All [] rows = tt
insert_new-All (v ∷ l) rows =
    (has_key-insert_new v l _ (first (has_key v rows) refl), insert_new-All l _)
  where
    first :
        (b : Bool) → has_key v rows ≡ b → has_key v (if b then rows else rows ++ (v ∷ [])) ≡ true
    first true e = e
    first false e = has_key-last v rows

insert_new_known :
    (l rows : List AmplifierVote) → All (λ v. has_key v rows ≡ true) l → insert_new l rows ≡ rows
unfolding insert_new
insert_new_known [] rows h = refl
insert_new_known (v ∷ l) rows (e, h) = rw (insert_new, e) (insert_new_known l rows h)

-- Rows whose keys are inserted already, all in one statement, are not inserted again.
pub insert_new_twice :
    (l rows : List AmplifierVote) → insert_new l (insert_new l rows) ≡ insert_new l rows
insert_new_twice l rows = insert_new_known l (insert_new l rows) (insert_new-All l rows)

-- an empty list of votes updates nothing
abbrev pub updated : Pick → List AmplifierVote → List AmplifierVote → List AmplifierVote
updated pick [] rows = rows
updated pick (v ∷ l) rows = update_rows pick (v ∷ l) rows

module _ {State : Type 0} {t : AmplifierTables State} {pick : Pick} (laws : AmplifierLaws t pick)
    (c h : ℕ) (init l : List AmplifierVote) where
  abbrev Init : State → State → Type 0
  Init s s' = t.votes s' ≡ insert_new init (t.votes s)

  abbrev Kept : State → State → Type 0
  Kept s s' = t.votes s' ≡ t.votes s

  abbrev Updated : State → State → Type 0
  Updated s s' = t.votes s' ≡ updated pick l (t.votes s)

  insert_unless_none-Init :
      (k : List AmplifierVote) (s : State)
      → k ≡ init
      → Ends (λ _. Init s) (Kept s) (insert_unless_none t k) s
  unfolding insert_new insert_init_poll_vote_list
  insert_unless_none-Init [] s e = ap (λ k. insert_new k (t.votes s)) e
  insert_unless_none-Init (v ∷ k) s e =
      Post-wrap (λ _. Init s) (Kept s) _ _ _
        (Post-wrap (λ _. Init s) (Kept s) _ (t.insert_init (v ∷ k) s).0 _
          (Post-split (λ _. Init s) (Kept s) _ _
            (λ done. laws.init_inserts (v ∷ k) s done ∙ ap (λ m. insert_new m (t.votes s)) e)
            (λ failed. laws.init_fails (v ∷ k) s failed)))

  update_body_step :
      (v : AmplifierVote) (k : List AmplifierVote) (s : State)
      → (update_and_move t c h (v ∷ k) s).0 ≡ ok tt
      → t.votes (update_and_move t c h (v ∷ k) s).1 ≡ update_rows pick (v ∷ k) (t.votes s)
  unfolding update_and_move
  update_body_step v k s done =
      let P = λ (_ : Unit {0}) (s' : State). t.votes s' ≡ update_rows pick (v ∷ k) (t.votes s) in
      let E = λ (s' : State). Unit {0} in
      Post-ok P E (update_and_move t c h (v ∷ k) s).0 (update_and_move t c h (v ∷ k) s).1 tt
        (Ends-bind P P E (or_wrap "failed to insert validator_miss list" (t.update_votes (v ∷ k)))
          (λ _. or_wrap failed_update (t.update_pointer c amplifier_index h)) s
          (Post-wrap P E _ (t.update_votes (v ∷ k) s).0 _
            (Post-split P E _ _ (λ e. laws.votes_updated (v ∷ k) s e) (λ _. tt)))
          (λ _ s' e.
            Post-wrap P E _ (t.update_pointer c amplifier_index h s').0 _
              (Post-split P E _ _ (λ _. laws.pointer_apart c amplifier_index h s' ∙ e) (λ _. tt))))
        done

  update_step :
      (k : List AmplifierVote) (s : State)
      → k ≡ l
      → Ends (λ _. Updated s) (Kept s) (update_poll_vote_list t c h k) s
  unfolding update_poll_vote_list
  update_step [] s e =
      let same = laws.pointer_apart c amplifier_index h s in
      Post-wrap (λ _. Updated s) (Kept s) _ (t.update_pointer c amplifier_index h s).0 _
        (Post-split (λ _. Updated s) (Kept s) _ _
          (λ _. same ∙ ap (λ m. updated pick m (t.votes s)) e) (λ _. same))
  update_step (v ∷ k) s e =
      let body = update_and_move t c h (v ∷ k) in
      Post-wrap (λ _. Updated s) (Kept s) _ (t.run_in_tx body s).0 _
        (Post-split (λ _. Updated s) (Kept s) _ _
          (λ done.
            let (fine, same) = laws.tx_commits body s done in
            same.same_votes ∙ update_body_step v k s fine ∙ ap (λ m. updated pick m (t.votes s)) e)
          (λ failed. (laws.tx_rolls_back body s failed).same_votes))

  -- what one run leaves, if it succeeds and if it does not
  abbrev Stored : State → State → Type 0
  Stored s s' = t.votes s' ≡ updated pick l (insert_new init (t.votes s))

  abbrev Before : State → State → Type 0
  Before s s' = Kept s s' ⊎ Init s s'

  store_polls-Ends : (s : State) → Ends (λ _. Stored s) (Before s) (store_polls t c h init l) s
  unfolding store_polls
  store_polls-Ends s =
      Ends-bind (λ _. Init s) (λ _. Stored s) (Before s) (insert_unless_none t init)
        (λ _. or_wrap "failed to insert update poll vote list" (update_poll_vote_list t c h l)) s
        (Post-weaken (λ (_ : Unit {0}). Init s) (Before s) (λ _. Init s) (Kept s) _ _
          (insert_unless_none-Init init s refl) (λ _ x. x) (λ x. inl x))
        (λ _ s1 e.
          Post-wrap (λ _. Stored s) (Before s) _ _ _
            (Post-weaken (λ (_ : Unit {0}). Stored s) (Before s) (λ _. Updated s1) (Kept s1) _ _
              (update_step l s1 refl) (λ _ x. x ∙ ap (updated pick l) e) (λ x. inr (x ∙ e))))

  again : (s s1 : State) → Before s s1 → insert_new init (t.votes s1) ≡ insert_new init (t.votes s)
  again s s1 (inl same) = ap (insert_new init) same
  again s s1 (inr done) = ap (insert_new init) done ∙ insert_new_twice init (t.votes s)

  -- If the two writes of a batch have failed, in the first or behind it, and the same batch is tried
  -- again in the state that this left and succeeds, then the votes are those of one run that
  -- succeeds: no poll is started twice.
  pub store_polls_again :
      (s : State)
      → (store_polls t c h init l s).0 ≢ ok tt
      → (store_polls t c h init l (store_polls t c h init l s).1).0 ≡ ok tt
      → t.votes (store_polls t c h init l (store_polls t c h init l s).1).1
        ≡ updated pick l (insert_new init (t.votes s))
  store_polls_again s failed done =
      let first = store_polls t c h init l s in
      let second = store_polls t c h init l first.1 in
      let before =
        Post-failed (λ (_ : Unit {0}). Stored s) (Before s) first.0 first.1 (store_polls-Ends s)
          failed in
      Post-ok (λ (_ : Unit {0}). Stored first.1) (Before first.1) second.0 second.1 tt
        (store_polls-Ends first.1) done
      ∙ ap (updated pick l) (again s first.1 before)
