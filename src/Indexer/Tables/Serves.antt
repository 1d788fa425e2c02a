-- ===== src/Indexer/Tables/Serves.antt =====
-- A database that takes rows: no constraint of its schema stands against them, such as the one that
-- the rows of a height are stored once.
use cvms.Base.{◌≡◌, ℕ, String, List, [], ◌∷◌, ok, Exec}
use cvms.Indexer.Tables.{Tables}
use cvms.Indexer.Tables.Insert.{InsertText, insert_batch, insert_and_move}

-- In the state `s` it takes the rows `l`; pointers it updates in any.
pub record Serves {State Row : Type 0} (t : Tables State Row) (l : List Row) (s : State)
    : Type 0 where
  pub inserts : (t.insert l s).0 ≡ ok tt
  pub updates : (c : ℕ) (n : String) (h : ℕ) (s' : State) → (t.update_pointer c n h s').0 ≡ ok tt
  -- a transaction commits if its body returns no error
  pub commits :
      (body : Exec State (Unit {0})) (s' : State)
      → (body s').0 ≡ ok tt
      → (t.run_in_tx body s').0 ≡ ok tt

module _ {State Row : Type 0} (t : Tables State Row) (text : InsertText) where
  insert_and_move_ok :
      (c h : ℕ) (l : List Row) (s : State)
      → Serves t l s
      → (insert_and_move t text c h l s).0 ≡ ok tt
  unfolding insert_and_move
  insert_and_move_ok c h l s serves =
      rw (serves.inserts, serves.updates c text.index_name h (t.insert l s).1)

  pub insert_batch_ok :
      (c h : ℕ) (l : List Row) (s : State) → Serves t l s → (insert_batch t text c h l s).0 ≡ ok tt
  unfolding insert_batch
  insert_batch_ok c h [] s serves = rw (serves.updates c text.index_name h s)
  insert_batch_ok c h (r ∷ l) s serves = rw (
      serves.commits (insert_and_move t text c h (r ∷ l)) s
        (insert_and_move_ok c h (r ∷ l) s serves))
