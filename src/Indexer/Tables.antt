-- ===== src/Indexer/Tables.antt =====
-- The repositories of internal/packages/*/*/repository: their insert of a batch, over a database.
-- The database is PostgreSQL behind the bun package, which is a parameter: a type of states, what
-- can be seen of a state, the statements that the code runs, and the laws that the code relies on.
pub mod Insert
pub mod Serves
use mathlib.Core.Option
use cvms.Base.{
  ℕ, String, ◌≡◌, ◌≢◌, Bool, true, false, Option, List, ◌++◌, ◌&&◌, ◌==◌, nat_eq, string_eq,
  if◌then◌else◌, Result, ok, Exec,
}

-- One partitioned table of rows, and meta.index_pointer. The first field is what can be seen.
pub record Tables (State Row : Type 0) : Type 0 where
  pub rows : State → List Row
  -- the pointer column of the row with this chain_info_id and index_name, if it exists
  pub pointer : State → ℕ → String → Option ℕ
  -- INSERT of the rows, their ids left to the database
  pub insert : List Row → Exec State (Unit {0})
  -- UPDATE meta.index_pointer SET pointer = height WHERE chain_info_id = .. AND index_name = ..
  pub update_pointer : ℕ → String → ℕ → Exec State (Unit {0})
  -- bun's RunInTx
  pub run_in_tx : Exec State (Unit {0}) → Exec State (Unit {0})

-- A table of the meta schema that gives names to ids.
pub record InfoTable (State Info : Type 0) : Type 0 where
  -- SELECT .. WHERE chain_info_id = ..
  pub list_by_chain_info_id : ℕ → Exec State (List Info)
  -- INSERT .. ON CONFLICT ..
  pub insert_list : List Info → Exec State (Unit {0})
  -- SELECT .. WHERE chain_info_id = .. AND moniker in (..)
  pub list_by_monikers : ℕ → List String → Exec State (List Info)

module _ {State Row : Type 0} (t : Tables State Row) where
  -- The two states show the same rows and the same index pointers.
  pub record SameTables (s s' : State) : Type 0 where
    pub same_rows : t.rows s' ≡ t.rows s
    pub same_pointer : (c : ℕ) (n : String) → t.pointer s' c n ≡ t.pointer s c n

  -- The rows `l` came in behind those of `s`, and only the pointer of (`c`, `n`) moved, to `h`.
  pub record Stored (c : ℕ) (n : String) (h : ℕ) (l : List Row) (s s' : State) : Type 0 where
    pub stored_rows : t.rows s' ≡ t.rows s ++ l
    pub stored_pointer :
        (c' : ℕ) (n' : String)
        → t.pointer s' c' n' ≡ (
            if (c == c') && (n == n')
            then Option.map (λ _. h) (t.pointer s c' n')
            else t.pointer s c' n')

  -- What SQL and bun document of these statements.
  pub record TableLaws : Type 0 where
    pub insert_rows :
        (l : List Row) (s : State)
        → (t.insert l s).0 ≡ ok tt
        → t.rows (t.insert l s).1 ≡ t.rows s ++ l
    pub insert_pointer :
        (l : List Row) (s : State) (c : ℕ) (n : String)
        → (t.insert l s).0 ≡ ok tt
        → t.pointer (t.insert l s).1 c n ≡ t.pointer s c n
    pub update_rows :
        (c : ℕ) (n : String) (h : ℕ) (s : State) → t.rows (t.update_pointer c n h s).1 ≡ t.rows s
    pub update_moves :
        (c : ℕ) (n : String) (h : ℕ) (s : State) (c' : ℕ) (n' : String)
        → (t.update_pointer c n h s).0 ≡ ok tt
        → t.pointer (t.update_pointer c n h s).1 c' n' ≡ (
            if (c == c') && (n == n')
            then Option.map (λ _. h) (t.pointer s c' n')
            else t.pointer s c' n')
    -- a statement that fails has no effect
    pub update_fails :
        (c : ℕ) (n : String) (h : ℕ) (s : State)
        → (t.update_pointer c n h s).0 ≢ ok tt
        → SameTables s (t.update_pointer c n h s).1
    -- a transaction commits what its body did, or nothing
    pub tx_commits :
        (body : Exec State (Unit {0})) (s : State)
        → (t.run_in_tx body s).0 ≡ ok tt
        → ((body s).0 ≡ ok tt) × SameTables (body s).1 (t.run_in_tx body s).1
    pub tx_rolls_back :
        (body : Exec State (Unit {0})) (s : State)
        → (t.run_in_tx body s).0 ≢ ok tt
        → SameTables s (t.run_in_tx body s).1

  -- The statements on a meta table leave the rows and the pointers alone.
  pub record InfoLaws {Info : Type 0} (i : InfoTable State Info) : Type 0 where
    pub list_keeps : (c : ℕ) (s : State) → SameTables s (i.list_by_chain_info_id c s).1
    pub insert_keeps : (l : List Info) (s : State) → SameTables s (i.insert_list l s).1
    pub monikers_keeps :
        (c : ℕ) (m : List String) (s : State) → SameTables s (i.list_by_monikers c m s).1
