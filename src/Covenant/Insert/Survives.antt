-- ===== src/Covenant/Insert/Survives.antt =====
-- What is in the tables behind an insert of covenant-committee/repository, when it succeeds and
-- when it fails.
use cvms.Base.{
  ℕ, String, ◌≡◌, ◌≢◌, ◌⊎◌, inl, inr, refl, sym, ap, ◌∙◌, List, [], ◌∷◌, ◌++◌, append-nil, ok,
  wrap-eq-ok, Exec, ◌>>◌,
}
use mathlib.Core.Path.{subst}
use cvms.Base.Post.{Ends, Ends-bind, Post-split, Post-wrap, Post-ok, Post-either}
use cvms.Indexer.Tables.Insert.{or_wrap}
use cvms.Covenant.Rows.{BabylonBtcDelegation, BabylonCovenantSignature}
use cvms.Covenant.Insert.{
  CovenantTables, CovenantLaws, SameInTx, covenant_body, insert_covenant_lists, insert_unless_empty,
  covenant_index, moved,
}

module _ {State : Type 0} {t : CovenantTables State} (laws : CovenantLaws t) (c h : ℕ)
    (bcs : List BabylonCovenantSignature) (bbd : List BabylonBtcDelegation) (s : State) where
  -- Both lists are in, and the pointer is at `h`.
  pub record Inserted (s' : State) : Type 0 where
    pub new_delegations : t.delegations s' ≡ t.delegations s ++ bbd
    pub new_signatures : t.signatures s' ≡ t.signatures s ++ bcs
    pub new_pointer :
        (c' : ℕ) (n' : String) → t.pointer s' c' n' ≡ moved t c covenant_index h s c' n'

  -- All of the delegations are in, or none.
  abbrev pub WithOrWithout : State → Type 0
  WithOrWithout s' =
      (t.delegations s' ≡ t.delegations s) ⊎ (t.delegations s' ≡ t.delegations s ++ bbd)

  -- behind the first statement, and behind the second
  record AfterDelegations (s' : State) : Type 0 where
    first_delegations : t.delegations s' ≡ t.delegations s ++ bbd
    first_apart : SameInTx t s s'

  record AfterSignatures (s' : State) : Type 0 where
    second_delegations : t.delegations s' ≡ t.delegations s ++ bbd
    second_signatures : t.signatures s' ≡ t.signatures s ++ bcs
    second_pointer : (c' : ℕ) (n' : String) → t.pointer s' c' n' ≡ t.pointer s c' n'

  insert_delegations_step :
      (l : List BabylonBtcDelegation)
      → l ≡ bbd
      → Ends
          (λ _. AfterDelegations)
          WithOrWithout
          (insert_unless_empty t "failed to insert btc delegation: %v" t.insert_delegations l)
          s
  insert_delegations_step [] e = record {
    first_delegations = sym (append-nil (t.delegations s)) ∙ ap (λ l. t.delegations s ++ l) e;
    first_apart = record { same_signatures = refl; same_pointer = λ c' n. refl };
  }
  insert_delegations_step (r ∷ l) e =
      Post-wrap (λ _. AfterDelegations) WithOrWithout _ (t.insert_delegations (r ∷ l) s).0
        (t.insert_delegations (r ∷ l) s).1
        (Post-split (λ _. AfterDelegations) WithOrWithout _ _
          (λ done. record {
            first_delegations =
                laws.delegations_inserted (r ∷ l) s done ∙ ap (λ l'. t.delegations s ++ l') e;
            first_apart = laws.delegations_apart (r ∷ l) s;
          })
          (λ failed. inl (laws.delegations_failed (r ∷ l) s failed)))

  insert_signatures_step :
      (l : List BabylonCovenantSignature) (s1 : State)
      → l ≡ bcs
      → AfterDelegations s1
      → Ends
          (λ _. AfterSignatures)
          WithOrWithout
          (insert_unless_empty t "failed to insert covenant signature" t.insert_signatures l)
          s1
  insert_signatures_step [] s1 e f = record {
    second_delegations = f.first_delegations;
    second_signatures =
        f.first_apart.same_signatures
        ∙ sym (append-nil (t.signatures s))
        ∙ ap (λ l. t.signatures s ++ l) e;
    second_pointer = f.first_apart.same_pointer;
  }
  insert_signatures_step (r ∷ l) s1 e f =
      let (keeps, keeps_pointer) = laws.signatures_apart (r ∷ l) s1 in
      Post-wrap (λ _. AfterSignatures) WithOrWithout _ (t.insert_signatures (r ∷ l) s1).0
        (t.insert_signatures (r ∷ l) s1).1
        (Post-split (λ _. AfterSignatures) WithOrWithout _ _
          (λ done. record {
            second_delegations = keeps ∙ f.first_delegations;
            second_signatures =
                laws.signatures_inserted (r ∷ l) s1 done
                ∙ ap (λ k. k ++ (r ∷ l)) f.first_apart.same_signatures
                ∙ ap (λ k. t.signatures s ++ k) e;
            second_pointer = λ c' n. keeps_pointer c' n ∙ f.first_apart.same_pointer c' n;
          })
          (λ failed. inr (keeps ∙ f.first_delegations)))

  update_pointer_step :
      (s2 : State)
      → AfterSignatures s2
      → Ends
          (λ _. Inserted)
          WithOrWithout
          (or_wrap "failed to update new index pointer" (t.update_pointer c covenant_index h))
          s2
  update_pointer_step s2 f =
      let (keeps, keeps_signatures) = laws.pointer_apart c covenant_index h s2 in
      Post-wrap (λ _. Inserted) WithOrWithout _ (t.update_pointer c covenant_index h s2).0
        (t.update_pointer c covenant_index h s2).1
        (Post-split (λ _. Inserted) WithOrWithout _ _
          (λ done. record {
            new_delegations = keeps ∙ f.second_delegations;
            new_signatures = keeps_signatures ∙ f.second_signatures;
            new_pointer = λ c' n'.
                laws.pointer_updated c covenant_index h s2 c' n' done ∙ rw (f.second_pointer c' n');
          })
          (λ failed. inr (keeps ∙ f.second_delegations)))

  abbrev rest : Exec State (Unit {0})
  rest = do
    insert_unless_empty t "failed to insert covenant signature" t.insert_signatures bcs
    or_wrap "failed to update new index pointer" (t.update_pointer c covenant_index h)

  covenant_body-Inserted : Ends (λ _. Inserted) WithOrWithout (covenant_body t c h bcs bbd) s
  unfolding covenant_body
  covenant_body-Inserted =
      Ends-bind (λ _. AfterDelegations) (λ _. Inserted) WithOrWithout
        (insert_unless_empty t "failed to insert btc delegation: %v" t.insert_delegations bbd)
        (λ _. rest) s (insert_delegations_step bbd refl)
        (λ _ s1 f.
          Ends-bind (λ _. AfterSignatures) (λ _. Inserted) WithOrWithout
            (insert_unless_empty t "failed to insert covenant signature" t.insert_signatures bcs)
            (λ _.
              or_wrap "failed to update new index pointer" (t.update_pointer c covenant_index h))
            s1 (insert_signatures_step bcs s1 refl f) (λ _ s2 g. update_pointer_step s2 g))

  -- The insert of the covenant signatures `bcs` and the delegations `bbd`, empty or not, in any
  -- state: if it returns no error, both lists are stored behind the others and this index's
  -- pointer, if it exists, is the height given. On an error or a panic the signatures and the
  -- pointers are as before, but of the delegations either none or all are stored.
  pub insert_covenant_lists_partial :
      Ends
        (λ _. Inserted)
        (λ s'. SameInTx t s s' × WithOrWithout s')
        (insert_covenant_lists t c h bcs bbd)
        s
  unfolding insert_covenant_lists
  insert_covenant_lists_partial =
      let body = covenant_body t c h bcs bbd in
      let P = λ (_ : Unit {0}). Inserted in
      let E = λ (s' : State). SameInTx t s s' × WithOrWithout s' in
      let apart = laws.tx_apart body s in
      Post-wrap P E _ (t.run_in_tx body s).0 (t.run_in_tx body s).1 (
        Post-split P E _ _
          (λ done.
            let (fine, same) = laws.tx_commits body s done in
            let all =
              Post-ok (λ _. Inserted) WithOrWithout (body s).0 (body s).1 tt covenant_body-Inserted
                fine in
            record {
              new_delegations = apart ∙ all.new_delegations;
              new_signatures = same.same_signatures ∙ all.new_signatures;
              new_pointer = λ c' n'. same.same_pointer c' n' ∙ all.new_pointer c' n';
            })
          (λ failed. (
            laws.tx_rolls_back body s failed,
            Post-either (λ _. Inserted) WithOrWithout (body s).0 (body s).1 covenant_body-Inserted
                (λ _ all. inr (apart ∙ all.new_delegations))
                (λ e. elim e [
                  | inl none_stored ↦ inl (apart ∙ none_stored)
                  | inr all_stored ↦ inr (apart ∙ all_stored)
                ]),
          )))

module _ {State : Type 0} {t : CovenantTables State} (laws : CovenantLaws t) (c h : ℕ)
    (v : BabylonCovenantSignature) (bcs : List BabylonCovenantSignature) (b : BabylonBtcDelegation)
    (bbd : List BabylonBtcDelegation) (s : State)
    (first : (t.insert_delegations (b ∷ bbd) s).0 ≡ ok tt)
    (second : (t.insert_signatures (v ∷ bcs) (t.insert_delegations (b ∷ bbd) s).1).0 ≢ ok tt) where
  abbrev Kept : State → Type 0
  Kept s' = t.delegations s' ≡ t.delegations s ++ (b ∷ bbd)

  covenant_body-Kept : Ends (λ _ _. ⊥) Kept (covenant_body t c h (v ∷ bcs) (b ∷ bbd)) s
  unfolding covenant_body
  covenant_body-Kept =
      Ends-bind (λ _ s1. s1 ≡ (t.insert_delegations (b ∷ bbd) s).1) (λ _ _. ⊥) Kept
        (or_wrap "failed to insert btc delegation: %v" (t.insert_delegations (b ∷ bbd)))
        (λ _. rest laws c h (v ∷ bcs) (b ∷ bbd) s) s
        (Post-wrap (λ _ s1. s1 ≡ (t.insert_delegations (b ∷ bbd) s).1) Kept _ _ _
          (Post-split (λ _ s1. s1 ≡ (t.insert_delegations (b ∷ bbd) s).1) Kept _ _ (λ _. refl)
            (λ failed. absurd (failed first))))
        (λ _ s1 e.
          Ends-bind (λ _ _. ⊥) (λ _ _. ⊥) Kept
            (or_wrap "failed to insert covenant signature" (t.insert_signatures (v ∷ bcs)))
            (λ _.
              or_wrap "failed to update new index pointer" (t.update_pointer c covenant_index h))
            s1
            (Post-wrap (λ _ _. ⊥) Kept _ _ _
              (Post-split (λ _ _. ⊥) Kept _ _
                (λ done. second (subst (λ s'. (t.insert_signatures (v ∷ bcs) s').0 ≡ ok tt) e done))
                (λ failed.
                  (laws.signatures_apart (v ∷ bcs) s1).0
                  ∙ ap t.delegations e
                  ∙ laws.delegations_inserted (b ∷ bbd) s first)))
            (λ _ _ none. absurd none))

  -- If the delegations, at least one, are inserted and the signatures, at least one, then are not,
  -- the insert of the two lists fails, and the delegations are stored all the same.
  pub failed_insert_keeps_delegations :
      ((insert_covenant_lists t c h (v ∷ bcs) (b ∷ bbd) s).0 ≢ ok tt)
      × (t.delegations (insert_covenant_lists t c h (v ∷ bcs) (b ∷ bbd) s).1
          ≡ t.delegations s ++ (b ∷ bbd))
  unfolding insert_covenant_lists
  failed_insert_keeps_delegations =
      let body = covenant_body t c h (v ∷ bcs) (b ∷ bbd) in
      let fails : (body s).0 ≢ ok tt =
        λ e. Post-ok (λ _ _. ⊥) Kept (body s).0 (body s).1 tt covenant_body-Kept e in
      (
        λ e. laws.tx_fails body s fails (wrap-eq-ok _ (t.run_in_tx body s).0 e),
        laws.tx_apart body s
            ∙ Post-either (λ _ _. ⊥) Kept (body s).0 (body s).1 covenant_body-Kept (λ _ n. absurd n)
                (λ k. k),
      )
