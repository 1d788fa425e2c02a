-- ===== src/Indexer/Monikers.antt =====
-- Solo-validator mode of the indexers: the ids of the configured monikers, cached in the indexer,
-- and the filter of a batch by them.
use cvms.Base.{
  ℕ, Bool, true, List, [], ◌∷◌, if◌then◌else◌, ◌==◌, nat_eq, length, Map, put, exist, ok, Exec,
  pure, gets, ◌>>=◌, ◌>>◌,
}
use cvms.Indexer.Types.{Indexer}
use cvms.Indexer.Tables.{InfoTable}
use cvms.Indexer.Tables.Insert.{or_wrap}

-- An indexer and the database that it talks to.
pub record World (State : Type 0) : Type 0 where
  pub indexer : Indexer
  pub db : State

module _ {State : Type 0} where
  -- A call of the repository: only the database changes.
  abbrev pub on_db {ℓ} : {A : Type ℓ} → Exec State A → Exec (World State) A
  on_db m w = ((m w.db).0, record w { db = (m w.db).1 })

  abbrev pub set_indexer : Indexer → Exec (World State) (Unit {0})
  set_indexer i w = (ok tt, record w { indexer = i })

-- filterValidatorVoteListByMonikers, for rows with any id column
unfoldable pub filter_by_ids {ℓ} : {Row : Type ℓ} → (Row → ℕ) → Map ℕ Bool → List Row → List Row
filter_by_ids id_of m [] = []
filter_by_ids id_of m (r ∷ rows) =
    let rest = filter_by_ids id_of m rows in if exist (id_of r) m then r ∷ rest else rest

-- monikerIDMap[vi.ID] = true, for each
unfoldable pub id_map {ℓ} : {Info : Type ℓ} → (Info → ℕ) → List Info → Map ℕ Bool → Map ℕ Bool
id_map id_of [] m = m
id_map id_of (i ∷ infos) m = id_map id_of infos (put (id_of i) true m)

module _ {State Info : Type 0} (infos : InfoTable State Info) (info_id : Info → ℕ) where
  -- if len(MonikerIDMap) != len(Monikers) { .. }
  unfoldable pub load_moniker_ids : Exec (World State) (Unit {0})
  unfolding id_map
  load_moniker_ids w =
      if length w.indexer.moniker_id_map == length w.indexer.monikers
      then (ok tt, w)
      else ((do
        found ←
            or_wrap "failed to get validator_info list by monikers"
              (on_db (infos.list_by_monikers w.indexer.chain_info_id w.indexer.monikers))
        now ← gets (λ w'. w'.indexer)
        set_indexer (record now { moniker_id_map = id_map info_id found [] }))
          w)

  -- if len(Monikers) > 0 { .. }
  unfoldable pub filter_for_monikers {ℓ} :
      {Row : Type ℓ} → (Row → ℕ) → List Row → Exec (World State) (List Row)
  unfolding load_moniker_ids filter_by_ids
  filter_for_monikers row_id rows w =
      if length w.indexer.monikers == 0
      then (ok rows, w)
      else ((do
        load_moniker_ids
        now ← gets (λ w'. w'.indexer)
        pure (filter_by_ids row_id now.moniker_id_map rows))
          w)
