-- ===== src/Indexer/Calm.antt =====
-- The steps of a batch before its insert: they may fail, and they leave the rows, the pointers and
-- the configuration as they were, and keep the cached ids right.
pub mod Steps
use cvms.Base.{
  ℕ, ◌≡◌, refl, sym, ap, ◌∙◌, String, Bool, true, false, Option, none, some, List, [], ◌∷◌, arith,
  if◌then◌else◌, ◌==◌, string_eq, nat_eq, not, length, Map, lookup, put, lookup-put, keys, values,
  All, Error, Result, ok, err, panic, wrap, Exec, pure, lift, gets, continue, ◌>>=◌, ◌>>◌,
}
use cvms.Indexer.Types.{BlockSummary, ValidatorInfo, Indexer}
use cvms.Indexer.Tables.{Tables, InfoTable, SameTables, InfoLaws}
use cvms.Indexer.Tables.Insert.{or_wrap}
use cvms.Indexer.Monikers.{
  World, on_db, set_indexer, id_map, load_moniker_ids, filter_for_monikers, filter_by_ids,
}
use cvms.Indexer.Validators.{
  NewAddresses, note_summaries, learn_ids, or_nil, read_ids, fetch_validator_info_list,
  insert_or_reread, register_new, register_new_validators,
}

-- The ids that an indexer has cached are the database's.
abbrev pub Agrees : (String → ℕ) → Map String ℕ → Type 0
Agrees id_of vim = (a : String) (i : ℕ) → lookup a vim ≡ some i → i ≡ id_of a

-- What the database lists are its own ids.
abbrev pub ListsIds : {State : Type 0} → (String → ℕ) → InfoTable State ValidatorInfo → Type 0
ListsIds {State = State} id_of infos =
    (c : ℕ) (s : State) (l : List ValidatorInfo)
    → (infos.list_by_chain_info_id c s).0 ≡ ok l
    → All (λ (i : ValidatorInfo). i.id ≡ id_of i.hex_address) l

learn_ids-Agrees :
    (id_of : String → ℕ) (l : List ValidatorInfo) (vim : Map String ℕ)
    → All (λ (i : ValidatorInfo). i.id ≡ id_of i.hex_address) l
    → Agrees id_of vim
    → Agrees id_of (learn_ids l vim)
unfolding learn_ids
learn_ids-Agrees id_of [] vim h agrees = agrees
learn_ids-Agrees id_of (v ∷ vs) vim (e, h) agrees =
    learn_ids-Agrees id_of vs (put v.hex_address v.id vim) h (λ a i p.
      ground (
        arith,
        lookup-put v.hex_address a v.id vim,
        agrees a i,
        string_eq.test_iff v.hex_address a,
      ))

module _ {State Row : Type 0} (t : Tables State Row) (id_of : String → ℕ) where
  pub record Calm (w w' : World State) : Type 0 where
    pub tables : SameTables t w.db w'.db
    pub same_chain : w'.indexer.chain_info_id ≡ w.indexer.chain_info_id
    pub same_monikers : w'.indexer.monikers ≡ w.indexer.monikers
    pub keeps_ids : Agrees id_of w.indexer.vim → Agrees id_of w'.indexer.vim

module _ {State Row : Type 0} {t : Tables State Row} {id_of : String → ℕ} where
  pub Calm-refl : (w : World State) → Calm t id_of w w
  Calm-refl w = record {
    tables = record { same_rows = refl; same_pointer = λ c n. refl };
    same_chain = refl;
    same_monikers = refl;
    keeps_ids = λ h. h;
  }

  pub Calm-trans : {u v w : World State} → Calm t id_of u v → Calm t id_of v w → Calm t id_of u w
  Calm-trans a b = record {
    tables = record {
      same_rows = b.tables.same_rows ∙ a.tables.same_rows;
      same_pointer = λ c n. b.tables.same_pointer c n ∙ a.tables.same_pointer c n;
    };
    same_chain = b.same_chain ∙ a.same_chain;
    same_monikers = b.same_monikers ∙ a.same_monikers;
    keeps_ids = λ h. b.keeps_ids (a.keeps_ids h);
  }

  -- A repository call that leaves the tables alone.
  pub Calm-db :
      (w : World State) (s : State) → SameTables t w.db s → Calm t id_of w (record w { db = s })
  Calm-db w s same = record {
    tables = same;
    same_chain = refl;
    same_monikers = refl;
    keeps_ids = λ h. h;
  }

  module _ {ℓ κ} {A : Type ℓ} {B : Type κ} where
    pub Calm-continue :
        (r : Result A) (f : A → Exec (World State) B) (w v : World State)
        → Calm t id_of w v
        → ((a : A) → r ≡ ok a → Calm t id_of v (f a v).1)
        → Calm t id_of w (continue r f v).1
    Calm-continue (ok a) f w v h k = Calm-trans h (k a refl)
    Calm-continue (err e) f w v h k = h
    Calm-continue panic f w v h k = h

  pub Calm-if {ℓ} :
      {A : Type ℓ} (b : Bool) (w : World State) (x y : Result A × World State)
      → Calm t id_of w x.1
      → Calm t id_of w y.1
      → Calm t id_of w (if b then x else y).1
  Calm-if true w x y h k = h
  Calm-if false w x y h k = k
