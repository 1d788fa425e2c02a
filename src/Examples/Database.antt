-- ===== src/Examples/Database.antt =====
-- A database in memory that meets the laws of Indexer/Tables.antt, and a small chain.
use mathlib.Core.Option
use mathlib.Core.Path.{subst}
use cvms.Base.{
  ok_injective, ℕ, ◌+◌, ◌-◌, ◌≡◌, refl, String, Bool, true, false, Option, none, some, List, [],
  ◌∷◌, ◌++◌, map, arith, if◌then◌else◌, ltb, ◌==◌, ◌&&◌, nat_eq, string_eq, All, Result, ok, err,
  panic, message,
}
use cvms.Indexer.Types.{CosmosValidator, ValidatorInfo}
use cvms.Indexer.Tables.{Tables, InfoTable, SameTables, TableLaws, InfoLaws}
use cvms.Indexer.Tables.Serves.{Serves}
use cvms.Indexer.Fetch.{Block, Node, Schedule}
use cvms.Indexer.Fetch.Honest.{Chain, IsHonest, Delivers}
use cvms.Indexer.Calm.{ListsIds}
use mathlib.Core.List.Permᴰ

pub record Db (Row : Type 0) : Type 0 where
  pub stored : List Row
  pub pointers : ℕ → String → Option ℕ
  pub infos : List ValidatorInfo

abbrev pub commit :
    {Row : Type 0} → Result (Unit {0}) × Db Row → Db Row → Result (Unit {0}) × Db Row
commit (ok _, after) s = (ok tt, after)
commit (err e, after) s = (err e, s)
commit (panic, after) s = (panic, s)

module _ {Row : Type 0} where
  abbrev pub db_tables : Tables (Db Row) Row
  db_tables = record {
    rows = λ s. s.stored;
    pointer = λ s c n. s.pointers c n;
    insert = λ l s. (ok tt, record s { stored = s.stored ++ l });
    update_pointer = λ c n h s. (
      ok tt,
      record s {
        pointers = λ c' n'.
            if (c == c') && (n == n')
            then Option.map (λ _. h) (s.pointers c' n')
            else s.pointers c' n';
      },
    );
    run_in_tx = λ body s. commit (body s) s;
  }

  same : (s : Db Row) → SameTables db_tables s s
  same s = record { same_rows = refl; same_pointer = λ c n. refl }

  pub commit_commits :
      (x : Result (Unit {0}) × Db Row) (s : Db Row)
      → (commit x s).0 ≡ ok tt
      → (x.0 ≡ ok tt) × SameTables db_tables x.1 (commit x s).1
  commit_commits (ok _, after) s e = (refl, same after)
  commit_commits (err _, after) s e = cc
  commit_commits (panic, after) s e = cc

  pub commit_rolls_back :
      (x : Result (Unit {0}) × Db Row) (s : Db Row)
      → ((commit x s).0 ≡ ok tt → ⊥)
      → SameTables db_tables s (commit x s).1
  commit_rolls_back (ok _, after) s e = absurd (e refl)
  commit_rolls_back (err _, after) s e = same s
  commit_rolls_back (panic, after) s e = same s

  abbrev pub db_laws : TableLaws db_tables
  db_laws = record {
    insert_rows = λ l s e. refl;
    insert_pointer = λ l s c n e. refl;
    update_rows = λ c n h s. refl;
    update_moves = λ c n h s c' n' e. refl;
    update_fails = λ c n h s e. absurd (e refl);
    tx_commits = λ body s e. commit_commits (body s) s e;
    tx_rolls_back = λ body s e. commit_rolls_back (body s) s e;
  }

-- The ids of the two validators, and the table that lists them as its own.
abbrev pub toy_id : String → ℕ
toy_id a = if a == "A" then 1 else (if a == "B" then 2 else 0)

abbrev pub with_toy_ids : List ValidatorInfo → List ValidatorInfo
with_toy_ids [] = []
with_toy_ids (i ∷ l) = record i { id = toy_id i.hex_address } ∷ with_toy_ids l

abbrev pub has_moniker : List String → ValidatorInfo → Bool
has_moniker [] i = false
has_moniker (m ∷ ms) i = if m == i.moniker then true else has_moniker ms i

abbrev pub keep_monikers : List String → List ValidatorInfo → List ValidatorInfo
keep_monikers ms [] = []
keep_monikers ms (i ∷ l) =
    let rest = keep_monikers ms l in if has_moniker ms i then i ∷ rest else rest

with_toy_ids-All :
    (l : List ValidatorInfo)
    → All (λ (i : ValidatorInfo). i.id ≡ toy_id i.hex_address) (with_toy_ids l)
with_toy_ids-All [] = tt
with_toy_ids-All (i ∷ l) = (refl, with_toy_ids-All l)

module _ {Row : Type 0} where
  abbrev pub toy_infos : InfoTable (Db Row) ValidatorInfo
  toy_infos = record {
    list_by_chain_info_id = λ c s. (ok (with_toy_ids s.infos), s);
    insert_list = λ l s. (ok tt, record s { infos = s.infos ++ l });
    list_by_monikers = λ c ms s. (ok (keep_monikers ms (with_toy_ids s.infos)), s);
  }

  pub toy-InfoLaws : InfoLaws db_tables toy_infos
  toy-InfoLaws = record {
    list_keeps = λ c s. same s;
    insert_keeps = λ l s. record { same_rows = refl; same_pointer = λ c n. refl };
    monikers_keeps = λ c ms s. same s;
  }

  pub toy_lists : ListsIds toy_id toy_infos
  toy_lists c s l e =
      subst (All (λ (i : ValidatorInfo). i.id ≡ toy_id i.hex_address)) (ok_injective e)
        (with_toy_ids-All s.infos)

-- The makers of the infos of new addresses: the chain's own account of its validators.
abbrev pub toy_make_infos : List String → Result (List ValidatorInfo)
toy_make_infos l = ok (
    map
      (λ a. record {
        id = 0;
        chain_info_id = 7;
        hex_address = a;
        operator_address = a;
        moniker = a;
      })
      l)

-- Two validators; A proposes every block, and B never signs.
abbrev pub toy_validators : List CosmosValidator
toy_validators =
    record {
      address = "A";
      pubkey_type = "ed25519";
      pubkey_value = "a";
      voting_power = "1";
      proposer_priority = "0";
    }
    ∷ record {
      address = "B";
      pubkey_type = "ed25519";
      pubkey_value = "b";
      voting_power = "1";
      proposer_priority = "0";
    }
    ∷ []

abbrev pub toy_block : ℕ → Block
toy_block h = record {
  height = h;
  timestamp = 100 + h;
  proposer_address = "A";
  txs = "injected" ∷ [];
  last_commit_height = h - 1;
  signatures =
      record {
        block_id_flag = 2;
        validator_address = "A";
        timestamp = 100 + h;
        signature = some "s";
      }
      ∷ record { block_id_flag = 1; validator_address = "B"; timestamp = 0; signature = none }
      ∷ [];
}

abbrev pub toy_chain : Chain
toy_chain = record {
  block = toy_block;
  validators = λ h. toy_validators;
  block_height = λ h. refl;
  last_commit = λ h. omega arith;
}

-- A node that answers, and one that does not from height 14 on.
abbrev pub good_node : Node
good_node = record { get_block = λ h. ok (toy_block h); get_validators = λ h. ok toy_validators }

abbrev pub bad_node : Node
bad_node = record {
  get_block = λ h. if ltb 13 h then err (message "timeout") else ok (toy_block h);
  get_validators = λ h. ok toy_validators;
}

pub good_node-IsHonest : IsHonest toy_chain good_node
good_node-IsHonest = record { honest_block = λ h b e. cc; honest_validators = λ h v e. cc }

pub bad_node-IsHonest : IsHonest toy_chain bad_node
bad_node-IsHonest = record {
  honest_block = λ h b e. bad (ltb 13 h) b (toy_block h) e;
  honest_validators = λ h v e. cc;
}
  where
    bad : (x : Bool) (b b' : Block) → (if x then err (message "timeout") else ok b') ≡ ok b → b ≡ b'
    bad true b b' e = cc
    bad false b b' e = cc

abbrev pub in_order {ℓ} : {Item : Type ℓ} → Schedule Item
in_order l = l

abbrev pub backwards {ℓ} : {Item : Type ℓ} → Schedule Item
backwards [] = []
backwards (x ∷ l) = backwards l ++ (x ∷ [])

pub in_order-Delivers : {Item : Type 0} → Delivers (in_order {Item = Item})
in_order-Delivers l = Permᴰ.refl l

pub db-Serves : {Row : Type 0} (l : List Row) (s : Db Row) → Serves db_tables l s
db-Serves l s = record {
  inserts = refl;
  updates = λ c n h s. refl;
  commits = λ body s e. commits (body s) s e;
}
  where
    commits :
        {Row : Type 0} (x : Result (Unit {0}) × Db Row) (s : Db Row)
        → x.0 ≡ ok tt
        → (commit x s).0 ≡ ok tt
    commits (ok _, after) s e = refl
    commits (err _, after) s e = cc
    commits (panic, after) s e = cc
