-- ===== src/Indexer/Tables/Insert.antt =====
-- The insert of one batch: rows and index pointer in one transaction, or the pointer alone. The
-- indexers' repositories write it out once each, with their own index name and messages.
use cvms.Base.{
  ◌++◌, ◌≡◌, ◌≢◌, sym, ap, ◌∙◌, append-nil, ok, continue-eq-ok, wrap-eq-ok, ℕ, String, List, [],
  ◌∷◌, wrap, Exec, ◌>>◌,
}
use mathlib.Core.Path.{subst}
use cvms.Base.Post.{Ends, Post-split}
use cvms.Indexer.Tables.{Tables, SameTables, Stored, TableLaws}

module _ {State : Type 0} where
  -- `if err != nil { return errors.Wrapf(err, message) }` behind an action
  abbrev pub or_wrap {ℓ} : {A : Type ℓ} → String → Exec State A → Exec State A
  or_wrap message m s = (wrap message (m s).0, (m s).1)

-- The messages of one repository.
pub record InsertText : Type 0 where
  pub index_name : String
  pub failed_insert : String
  pub failed_tx : String

abbrev pub failed_update : String
failed_update = "failed to update new index pointer"

module _ {State Row : Type 0} (t : Tables State Row) (text : InsertText) where
  -- the body of the transaction
  unfoldable pub insert_and_move : ℕ → ℕ → List Row → Exec State (Unit {0})
  insert_and_move c h l = do
    or_wrap text.failed_insert (t.insert l)
    or_wrap failed_update (t.update_pointer c text.index_name h)

  unfoldable pub insert_batch : ℕ → ℕ → List Row → Exec State (Unit {0})
  unfolding insert_and_move
  insert_batch c h [] = or_wrap failed_update (t.update_pointer c text.index_name h)
  insert_batch c h (r ∷ l) = or_wrap text.failed_tx (t.run_in_tx (insert_and_move c h (r ∷ l)))

module _ {State Row : Type 0} {t : Tables State Row} (laws : TableLaws t) (text : InsertText) where
  -- an insert that succeeded, and the update of the pointer behind it
  insert_then_move :
      (c h : ℕ) (l : List Row) (s : State)
      → (t.insert l s).0 ≡ ok tt
      → (t.update_pointer c text.index_name h (t.insert l s).1).0 ≡ ok tt
      → Stored t c text.index_name h l s (t.update_pointer c text.index_name h (t.insert l s).1).1
  insert_then_move c h l s e e' = record {
    stored_rows = laws.update_rows c text.index_name h (t.insert l s).1 ∙ laws.insert_rows l s e;
    stored_pointer = λ c' n'.
        laws.update_moves c text.index_name h (t.insert l s).1 c' n' e'
        ∙ rw (laws.insert_pointer l s c' n' e);
  }

  insert_and_move-Stored :
      (c h : ℕ) (l : List Row) (s : State)
      → (insert_and_move t text c h l s).0 ≡ ok tt
      → Stored t c text.index_name h l s (insert_and_move t text c h l s).1
  unfolding insert_and_move
  insert_and_move-Stored c h l s e =
      let m : Exec State (Unit {0}) =
        or_wrap failed_update (t.update_pointer c text.index_name h) in
      let (a, first, rest) =
        continue-eq-ok (wrap text.failed_insert (t.insert l s).0) (λ _. m) (t.insert l s).1 e in
      let second : (m (t.insert l s).1).0 ≡ ok tt = sym (ap (λ p. p.0) rest) ∙ e in
      subst (λ p. Stored t c text.index_name h l s p.1) (sym rest)
        (insert_then_move c h l s (wrap-eq-ok text.failed_insert (t.insert l s).0 first)
          (wrap-eq-ok failed_update _ second))

  Stored-SameTables :
      {c h : ℕ} {n : String} {l : List Row} {s s' s'' : State}
      → Stored t c n h l s s'
      → SameTables t s' s''
      → Stored t c n h l s s''
  Stored-SameTables st same = record {
    stored_rows = same.same_rows ∙ st.stored_rows;
    stored_pointer = λ c' n'. same.same_pointer c' n' ∙ st.stored_pointer c' n';
  }

  -- If the insert of a batch returns no error, its rows and the new pointer are stored.
  pub insert_batch-Stored :
      (c h : ℕ) (l : List Row) (s : State)
      → (insert_batch t text c h l s).0 ≡ ok tt
      → Stored t c text.index_name h l s (insert_batch t text c h l s).1
  unfolding insert_batch
  insert_batch-Stored c h [] s e =
      let moved = wrap-eq-ok failed_update (t.update_pointer c text.index_name h s).0 e in
      record {
        stored_rows = laws.update_rows c text.index_name h s ∙ sym (append-nil (t.rows s));
        stored_pointer = λ c' n'. laws.update_moves c text.index_name h s c' n' moved;
      }
  insert_batch-Stored c h (r ∷ l) s e =
      let done =
        wrap-eq-ok text.failed_tx (t.run_in_tx (insert_and_move t text c h (r ∷ l)) s).0 e in
      let (body, same) = laws.tx_commits (insert_and_move t text c h (r ∷ l)) s done in
      Stored-SameTables (insert_and_move-Stored c h (r ∷ l) s body) same

  -- If it fails, neither a row nor a pointer has changed.
  pub insert_batch-SameTables :
      (c h : ℕ) (l : List Row) (s : State)
      → (insert_batch t text c h l s).0 ≢ ok tt
      → SameTables t s (insert_batch t text c h l s).1
  unfolding insert_batch
  insert_batch-SameTables c h [] s e =
      laws.update_fails c text.index_name h s (λ p. e (ap (wrap failed_update) p))
  insert_batch-SameTables c h (r ∷ l) s e =
      laws.tx_rolls_back (insert_and_move t text c h (r ∷ l)) s
        (λ p. e (ap (wrap text.failed_tx) p))

  -- The insert of a batch, empty or not, in any state: if it returns no error the rows are stored
  -- behind the others and this index's pointer, if it exists, is the height given; on an error or a
  -- panic neither a row nor a pointer has changed.
  pub insert_batch_atomic :
      (c h : ℕ) (l : List Row) (s : State)
      → Ends
          (λ _ s'. Stored t c text.index_name h l s s')
          (λ s'. SameTables t s s')
          (insert_batch t text c h l)
          s
  insert_batch_atomic c h l s =
      Post-split (λ _ s'. Stored t c text.index_name h l s s') (λ s'. SameTables t s s')
        (insert_batch t text c h l s).0 (insert_batch t text c h l s).1
        (insert_batch-Stored c h l s) (insert_batch-SameTables c h l s)

module _ {State Row : Type 0} {t : Tables State Row} where
  -- What came before the insert and left the tables alone can be left out, and the height, the
  -- chain and the rows be given by equal ones.
  pub SameTables-Stored :
      {c c' h h' : ℕ} {n : String} {l l' : List Row} {s s' s'' : State}
      → SameTables t s s'
      → Stored t c n h l s' s''
      → c ≡ c'
      → h ≡ h'
      → l ≡ l'
      → Stored t c' n h' l' s s''
  SameTables-Stored {c = c} {h = h} {h' = h'} {n = n} {l = l} {l' = l'} {s = s} {s'' = s''} same st
        ec eh el =
      subst (λ d. Stored t d n h' l' s s'') ec
        (subst (λ j. Stored t c n j l' s s'') eh (subst (λ r. Stored t c n h r s s'') el plain))
    where
      plain : Stored t c n h l s s''
      plain = record {
        stored_rows = st.stored_rows ∙ ap (λ r. r ++ l) same.same_rows;
        stored_pointer = λ c'' n''. st.stored_pointer c'' n'' ∙ rw (same.same_pointer c'' n'');
      }
