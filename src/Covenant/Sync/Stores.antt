-- ===== src/Covenant/Sync/Stores.antt =====
-- What a batch of covenant-committee/indexer/batch_sync.go stores, and what it does when it meets a
-- committee member without an id.
use mathlib.Core.List.{Permᴰ}
use mathlib.Core.List.Permᴰ
use mathlib.Core.Path.{subst}
use cvms.Base.{
  ℕ, ◌<◌, ◌≡◌, refl, ap, ◌∙◌, arith, String, true, false, some, List, ◌++◌, append_assoc, leb,
  Result, ok, pure, lift, wrap,
}
use cvms.Base.Post.{Post-view, bind-keeps, Post, Ends, Ends-bind}
use cvms.Indexer.Types.{Latest}
use cvms.Indexer.Fetch.{end_height, heights}
use cvms.Covenant.Events.{Codecs}
use cvms.Covenant.Rows.{BabylonBtcDelegation, BabylonCovenantSignature}
use cvms.Covenant.Heights.{CovenantNode, HeightSent}
use cvms.Covenant.Channels.{Arrives, concat, drain_interleaving}
use cvms.Indexer.Tables.Insert.{or_wrap}
use cvms.Covenant.Insert.{CovenantTables, CovenantLaws, SameInTx, insert_covenant_lists}
use cvms.Covenant.Insert.Survives.{Inserted, WithOrWithout, insert_covenant_lists_partial}
use cvms.Covenant.Committee.{
  CovenantCommitteeInfo, CommitteeTable, CovenantWorld, get_new_covenant_committee_info_list,
  set_members, store_members, fetch_members, RemoteMonikers, on_tables, update_committee,
}
use cvms.Covenant.Sync.{
  Arrival, sync_heights, any_unknown, first_messages, second_messages, finish, covenant_batch_sync,
}

concat-swap : {A : Type 0} (x y : List A) (l : List A) → Permᴰ (x ++ (y ++ l)) (y ++ (x ++ l))
concat-swap x y l =
    subst (λ k. Permᴰ k (y ++ (x ++ l))) (append_assoc x y l)
      (subst (λ k. Permᴰ ((x ++ y) ++ l) k) (append_assoc y x l)
        (Permᴰ.append_right l (Permᴰ.append_comm x y)))

concat-perm : {A : Type 0} {xs ys : List (List A)} → Permᴰ xs ys → Permᴰ (concat xs) (concat ys)
concat-perm Permᴰ.nil = Permᴰ.nil
concat-perm (Permᴰ.cons {b = b} e d) = rw e (Permᴰ.append_left b (concat-perm d))
concat-perm (Permᴰ.swap {a' = a'} {b' = b'} {l = l} e e') =
    rw (e, e') (concat-swap b' a' (concat l))
concat-perm (Permᴰ.trans d d') = Permᴰ.trans (concat-perm d) (concat-perm d')

-- Of the three tables nothing has changed.
pub record Untouched {State : Type 0} (t : CovenantTables State) (s s' : State) : Type 0 where
  pub kept_delegations : t.delegations s' ≡ t.delegations s
  pub kept_signatures : t.signatures s' ≡ t.signatures s
  pub kept_pointer : (c : ℕ) (n : String) → t.pointer s' c n ≡ t.pointer s c n

-- The statements on the table of members are about that table alone.
pub record CommitteeLaws {State : Type 0} (t : CovenantTables State)
    (members : CommitteeTable State) : Type 0 where
  pub upsert_apart :
      (l : List CovenantCommitteeInfo) (s : State) → Untouched t s (members.upsert_list l s).1
  pub list_apart : (c : ℕ) (s : State) → Untouched t s (members.list_members c s).1

module _ {State : Type 0} (t : CovenantTables State) (members : CommitteeTable State)
    (laws' : CommitteeLaws t members) where
  Untouched-trans : {a b c : State} → Untouched t a b → Untouched t b c → Untouched t a c
  Untouched-trans u v = record {
    kept_delegations = v.kept_delegations ∙ u.kept_delegations;
    kept_signatures = v.kept_signatures ∙ u.kept_signatures;
    kept_pointer = λ c n. v.kept_pointer c n ∙ u.kept_pointer c n;
  }

  fetch_members-Untouched :
      (s : State) (w : CovenantWorld State)
      → Untouched t s w.db
      → Untouched t s (fetch_members members w).1.db
  unfolding fetch_members
  fetch_members-Untouched s w same =
      bind-keeps (λ (w' : CovenantWorld State). Untouched t s w'.db)
        (or_wrap "failed to get validator info list"
          (on_tables members (members.list_members w.chain_info_id)))
        (set_members members) w (Untouched-trans same (laws'.list_apart w.chain_info_id w.db))
        (λ _ _ h. h)

  store_members-Untouched :
      (s : State) (l : List CovenantCommitteeInfo) (w : CovenantWorld State)
      → Untouched t s w.db
      → Untouched t s (store_members members l w).1.db
  unfolding store_members
  store_members-Untouched s l w same =
      bind-keeps (λ (w' : CovenantWorld State). Untouched t s w'.db)
        (or_wrap "failed to upsert covenant committee info list for database"
          (on_tables members (members.upsert_list l)))
        (λ _. or_wrap "failed to fetch covenant committe info list" (fetch_members members)) w
        (Untouched-trans same (laws'.upsert_apart l w.db))
        (λ _ w' h. fetch_members-Untouched s w' h)

  update_committee-Untouched :
      (params : Result (List String)) (remote : RemoteMonikers) (w : CovenantWorld State)
      → Untouched t w.db (update_committee members params remote w).1.db
  unfolding update_committee
  update_committee-Untouched params remote w =
      bind-keeps (λ (w' : CovenantWorld State). Untouched t w.db w'.db)
        (lift (
          wrap "failed to get new covenant committee info list"
            (get_new_covenant_committee_info_list w.chain_info_id w.mainnet params remote)))
        (store_members members) w
        (record { kept_delegations = refl; kept_signatures = refl; kept_pointer = λ c n. refl })
        (λ l w' h. store_members-Untouched w.db l w' h)

-- The goroutines' messages arrive in any order, each channel's before its end.
pub record Delivered (arrive : Arrival) (xs : List (List BabylonBtcDelegation))
    (ys : List (List BabylonCovenantSignature)) : Type 0 where
  pub first_order : List (List BabylonBtcDelegation)
  pub second_order : List (List BabylonCovenantSignature)
  pub first_perm : Permᴰ first_order xs
  pub second_perm : Permᴰ second_order ys
  pub interleaved : Arrives first_order false second_order false (arrive xs ys)

module _ {State : Type 0} {t : CovenantTables State} (laws : CovenantLaws t)
    (members : CommitteeTable State) (params : Result (List String)) (remote : RemoteMonikers)
    (codecs : Codecs) (node : CovenantNode) (arrive : Arrival) (fuel : ℕ) (latest : Latest)
    (last new : ℕ) (w : CovenantWorld State) (sent : List HeightSent)
    (behind : last < latest.at_guard)
    (ended : sync_heights codecs node fuel w.chain_info_id w.committee
        (heights new (end_height latest new))
      ≡ some sent)
    (delivered : Delivered arrive (first_messages sent) (second_messages sent)) where
  abbrev first_collected : List BabylonBtcDelegation
  first_collected = concat delivered.first_order

  abbrev second_collected : List BabylonCovenantSignature
  second_collected = concat delivered.second_order

  batch_finishes :
      covenant_batch_sync t members params remote codecs node arrive fuel latest last new w
      ≡ some (
          finish t members params remote last
            (end_height latest new)
            (any_unknown sent)
            (record {
              closed_first = true;
              closed_second = true;
              first_list = first_collected;
              second_list = second_collected;
            })
            w)
  unfolding covenant_batch_sync
  batch_finishes =
      let guard : leb latest.at_guard last ≡ false = ground (arith, behind) in
      rw (
        guard,
        ended,
        drain_interleaving delivered.first_order delivered.second_order _ delivered.interleaved,
      )

  finish-Ends :
      (w' : CovenantWorld State) (bbd : List BabylonBtcDelegation)
      (bcs : List BabylonCovenantSignature) (end : ℕ)
      → Ends
          (λ p w''. (p ≡ end) × Inserted laws w'.chain_info_id end bcs bbd w'.db w''.db)
          (λ w''.
            SameInTx t w'.db w''.db × WithOrWithout laws w'.chain_info_id end bcs bbd w'.db w''.db)
          (finish t members params remote last end false (record {
            closed_first = true;
            closed_second = true;
            first_list = bbd;
            second_list = bcs;
          }))
          w'
  unfolding finish
  finish-Ends w' bbd bcs end =
      let P =
        λ (w'' : CovenantWorld State). Inserted laws w'.chain_info_id end bcs bbd w'.db w''.db in
      let E = λ (w'' : CovenantWorld State).
        SameInTx t w'.db w''.db × WithOrWithout laws w'.chain_info_id end bcs bbd w'.db w''.db in
      Ends-bind (λ _. P) (λ p w''. (p ≡ end) × P w'') E
        (on_tables members (insert_covenant_lists t w'.chain_info_id end bcs bbd)) (λ _. pure end)
        w'
        (Post-view (λ (_ : Unit {0}). Inserted laws w'.chain_info_id end bcs bbd w'.db)
          (λ s'. SameInTx t w'.db s' × WithOrWithout laws w'.chain_info_id end bcs bbd w'.db s')
          (λ (w'' : CovenantWorld State). w''.db)
          (insert_covenant_lists t w'.chain_info_id end bcs bbd w'.db).0
          (record w' { db = (insert_covenant_lists t w'.chain_info_id end bcs bbd w'.db).1 })
          (insert_covenant_lists_partial laws w'.chain_info_id end bcs bbd w'.db))
        (λ _ w'' h. (refl, h))

  -- A batch that lies behind the latest height, whose goroutines have all ended, with messages that
  -- arrive in any order, and have met no member without an id: it ends. If it returns no error it
  -- returns its last height, and the rows that its goroutines have sent, in some order, are stored
  -- behind the others with that height as the index pointer, also if a goroutine has panicked and
  -- sent none. On an error or a panic of the batch no signature and no pointer has changed, and of
  -- the delegations that were sent either none or all are stored.
  pub covenant_batch_stores :
      any_unknown sent ≡ false
      → (bbd : List BabylonBtcDelegation) × (bcs : List BabylonCovenantSignature) × Permᴰ bbd
          (concat (first_messages sent))
        × Permᴰ bcs (concat (second_messages sent))
        × (out : Result ℕ × CovenantWorld State) × (covenant_batch_sync t members params remote
              codecs node arrive fuel latest last new w
            ≡ some out)
        × Post
            (λ p w'.
              (p ≡ end_height latest new)
              × Inserted laws w.chain_info_id (end_height latest new) bcs bbd w.db w'.db)
            (λ w'.
              SameInTx t w.db w'.db
              × WithOrWithout laws w.chain_info_id (end_height latest new) bcs bbd w.db w'.db)
            out.0
            out.1
  covenant_batch_stores known = (
    first_collected,
    second_collected,
    concat-perm delivered.first_perm,
    concat-perm delivered.second_perm,
    finish t members params remote last (end_height latest new) false
        (record {
          closed_first = true;
          closed_second = true;
          first_list = first_collected;
          second_list = second_collected;
        })
        w,
    subst
        (λ b.
          covenant_batch_sync t members params remote codecs node arrive fuel latest last new w
          ≡ some (
              finish t members params remote last (end_height latest new) b
                (record {
                  closed_first = true;
                  closed_second = true;
                  first_list = first_collected;
                  second_list = second_collected;
                })
                w))
        known batch_finishes,
    finish-Ends w first_collected second_collected (end_height latest new),
  )

  -- If such a batch has met a member without an id, and the update of the committee succeeds, the
  -- batch returns the old height and no error, though the source wraps a message for one, and it
  -- has stored neither rows nor a pointer.
  pub unknown_member_keeps_height :
      (laws' : CommitteeLaws t members)
      → any_unknown sent ≡ true
      → (update_committee members params remote w).0 ≡ ok tt
      → (out : Result ℕ × CovenantWorld State) × (covenant_batch_sync t members params remote codecs
            node arrive fuel latest last new w
          ≡ some out)
        × (out.0 ≡ ok last)
        × Untouched t w.db out.1.db
  unfolding finish
  unknown_member_keeps_height laws' unknown updated = (
    (ok last, (update_committee members params remote w).1),
    batch_finishes ∙ ap some (rw (unknown, updated)),
    refl,
    update_committee-Untouched t members laws' params remote w,
  )
