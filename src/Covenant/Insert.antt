-- ===== src/Covenant/Insert.antt =====
-- InsertBabylonCovenantSignatureList of covenant-committee/repository: signatures and the index
-- pointer in a transaction, and the delegations by a statement that stands in its body but runs on
-- a connection of its own (`repo.NewInsert`, not `tx.NewInsert`). PostgreSQL is a parameter.
pub mod Survives
use mathlib.Core.Option
use cvms.Base.{
  ℕ, String, ◌≡◌, ◌≢◌, Option, List, [], ◌∷◌, ◌++◌, ◌&&◌, ◌==◌, nat_eq, string_eq, if◌then◌else◌,
  Result, ok, Exec, ◌>>=◌, ◌>>◌,
}
use cvms.Indexer.Tables.Insert.{or_wrap}
use cvms.Covenant.Rows.{BabylonBtcDelegation, BabylonCovenantSignature}

-- The first three fields are what can be seen of a state.
pub record CovenantTables (State : Type 0) : Type 0 where
  pub delegations : State → List BabylonBtcDelegation
  pub signatures : State → List BabylonCovenantSignature
  pub pointer : State → ℕ → String → Option ℕ
  -- INSERT on a connection of the pool
  pub insert_delegations : List BabylonBtcDelegation → Exec State (Unit {0})
  -- INSERT and UPDATE in the transaction
  pub insert_signatures : List BabylonCovenantSignature → Exec State (Unit {0})
  pub update_pointer : ℕ → String → ℕ → Exec State (Unit {0})
  pub run_in_tx : Exec State (Unit {0}) → Exec State (Unit {0})

abbrev pub covenant_index : String
covenant_index = "babylon_covenant_signature"

module _ {State : Type 0} (t : CovenantTables State) where
  abbrev pub insert_unless_empty {ℓ} :
      {Row : Type ℓ}
      → String
      → (List Row → Exec State (Unit {0}))
      → List Row
      → Exec State (Unit {0})
  insert_unless_empty text insert [] s = (ok tt, s)
  insert_unless_empty text insert (r ∷ rows) s = or_wrap text (insert (r ∷ rows)) s

  -- the body of the transaction
  unfoldable pub covenant_body :
      ℕ → ℕ → List BabylonCovenantSignature → List BabylonBtcDelegation → Exec State (Unit {0})
  covenant_body chain_info_id height bcs_list bbd_list = do
    insert_unless_empty "failed to insert btc delegation: %v" t.insert_delegations bbd_list
    insert_unless_empty "failed to insert covenant signature" t.insert_signatures bcs_list
    or_wrap "failed to update new index pointer"
        (t.update_pointer chain_info_id covenant_index height)

  unfoldable pub insert_covenant_lists :
      ℕ → ℕ → List BabylonCovenantSignature → List BabylonBtcDelegation → Exec State (Unit {0})
  unfolding covenant_body
  insert_covenant_lists chain_info_id height bcs_list bbd_list =
      or_wrap "failed to exec covenant signature in a transaction: %v"
        (t.run_in_tx (covenant_body chain_info_id height bcs_list bbd_list))

  -- The two states show the same signatures and index pointers.
  pub record SameInTx (s s' : State) : Type 0 where
    pub same_signatures : t.signatures s' ≡ t.signatures s
    pub same_pointer : (c : ℕ) (n : String) → t.pointer s' c n ≡ t.pointer s c n

  abbrev pub moved : ℕ → String → ℕ → State → ℕ → String → Option ℕ
  moved c n h s c' n' =
      if (c == c') && (n == n') then Option.map (λ _. h) (t.pointer s c' n') else t.pointer s c' n'

  -- What SQL and bun document of these statements and of the transaction.
  pub record CovenantLaws : Type 0 where
    pub delegations_inserted :
        (l : List BabylonBtcDelegation) (s : State)
        → (t.insert_delegations l s).0 ≡ ok tt
        → t.delegations (t.insert_delegations l s).1 ≡ t.delegations s ++ l
    pub delegations_failed :
        (l : List BabylonBtcDelegation) (s : State)
        → (t.insert_delegations l s).0 ≢ ok tt
        → t.delegations (t.insert_delegations l s).1 ≡ t.delegations s
    pub delegations_apart :
        (l : List BabylonBtcDelegation) (s : State) → SameInTx s (t.insert_delegations l s).1
    pub signatures_inserted :
        (l : List BabylonCovenantSignature) (s : State)
        → (t.insert_signatures l s).0 ≡ ok tt
        → t.signatures (t.insert_signatures l s).1 ≡ t.signatures s ++ l
    pub signatures_apart :
        (l : List BabylonCovenantSignature) (s : State)
        → (t.delegations (t.insert_signatures l s).1 ≡ t.delegations s)
          × ((c : ℕ) (n : String) → t.pointer (t.insert_signatures l s).1 c n ≡ t.pointer s c n)
    pub pointer_updated :
        (c : ℕ) (n : String) (h : ℕ) (s : State) (c' : ℕ) (n' : String)
        → (t.update_pointer c n h s).0 ≡ ok tt
        → t.pointer (t.update_pointer c n h s).1 c' n' ≡ moved c n h s c' n'
    pub pointer_apart :
        (c : ℕ) (n : String) (h : ℕ) (s : State)
        → (t.delegations (t.update_pointer c n h s).1 ≡ t.delegations s)
          × (t.signatures (t.update_pointer c n h s).1 ≡ t.signatures s)
    -- a transaction commits or rolls back the statements of its own connection
    pub tx_commits :
        (body : Exec State (Unit {0})) (s : State)
        → (t.run_in_tx body s).0 ≡ ok tt
        → ((body s).0 ≡ ok tt) × SameInTx (body s).1 (t.run_in_tx body s).1
    pub tx_rolls_back :
        (body : Exec State (Unit {0})) (s : State)
        → (t.run_in_tx body s).0 ≢ ok tt
        → SameInTx s (t.run_in_tx body s).1
    -- a body that fails fails the transaction
    pub tx_fails :
        (body : Exec State (Unit {0})) (s : State)
        → (body s).0 ≢ ok tt
        → (t.run_in_tx body s).0 ≢ ok tt
    -- and the others are there whatever becomes of it
    pub tx_apart :
        (body : Exec State (Unit {0})) (s : State)
        → t.delegations (t.run_in_tx body s).1 ≡ t.delegations (body s).1
