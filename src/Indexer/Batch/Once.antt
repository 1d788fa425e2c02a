-- ===== src/Indexer/Batch/Once.antt =====
-- The loop of an indexer: whatever fails on the way, the table holds the rows of every block between
-- the first index point and the present one, once and in order.
use mathlib.Core.Option
use mathlib.Core.Path.{ap₂, subst}
use cvms.Base.{
  map, ok, ℕ, suc, ◌+◌, ◌-◌, ◌≤◌, ◌≡◌, sym, ap, ◌∙◌, String, some, List, [], ◌∷◌, ◌++◌,
  append_assoc, arith, All, if◌then◌else◌, leb, Result, range_from, range_from-append, concat_map,
  concat_map-append, false, ◌==◌, nat_eq, string_eq, ◌&&◌, beq_self, Option,
}
use cvms.Base.Post.{Post, Ends, Post-weaken, Ends-if}
use cvms.Indexer.Types.{BlockSummary, ValidatorInfo, Latest}
use cvms.Indexer.Tables.{Tables, InfoTable, TableLaws, InfoLaws}
use cvms.Indexer.Fetch.{Node, Schedule, end_height}
use cvms.Indexer.Fetch.Honest.{Chain, IsHonest, Delivers}
use cvms.Indexer.Monikers.{World}
use cvms.Indexer.Calm.{Agrees, ListsIds, Calm}
use cvms.Indexer.Batch.{Scheme, sync_range, batch_sync}
use cvms.Indexer.Batch.Rows.{Implements}
use cvms.Indexer.Batch.Exact.{Indexed, sync_range_exact}
use cvms.Indexer.Loop.{Client, LoopState, Round, run}
use cvms.Indexer.Loop.Invariant.{Keeps, run-Holds}

-- What a turn of the loop meets: the endpoints found healthy, the node behind a
-- pair of endpoints, the order of the goroutines' messages, and the latest height as it is read.
pub record Turn : Type 0 where
  pub health_apis : List String
  pub health_rpcs : List String
  pub make_infos : List String → Result (List ValidatorInfo)
  pub node : Client → Node
  pub arrive : Schedule BlockSummary
  pub latest : Latest

abbrev pub round_of :
    {State Row : Type 0}
    → Scheme Row
    → Tables State Row
    → InfoTable State ValidatorInfo
    → Turn
    → Round State
round_of scheme t infos v = record {
  health_apis = v.health_apis;
  health_rpcs = v.health_rpcs;
  sync = λ client last start.
      batch_sync scheme t infos v.make_infos (v.node client) v.arrive v.latest last start;
}

-- Every endpoint answers for the one chain if it answers, the channel delivers each message once,
-- and the latest height does not fall between the guard of a batch and the choice of its end.
pub record IsSound (chain : Chain) (v : Turn) : Type 0 where
  pub honest : (client : Client) → IsHonest chain (v.node client)
  pub delivers : Delivers v.arrive
  pub no_fall : v.latest.at_guard ≤ v.latest.at_end

-- The end of a batch lies `k + 1` blocks behind the last index point.
pub end_height_ahead :
    (l : Latest) (last : ℕ)
    → l.at_guard ≤ l.at_end
    → leb l.at_guard last ≡ false
    → (k : ℕ) × (end_height l (suc last) ≡ last + suc k)
unfolding end_height
end_height_ahead l last h g = (end_height l (suc last) - suc last, ground arith)

-- the pointer of this chain and index, moved
moved :
    {d c point h : ℕ} (n : String) {o o' : Option ℕ}
    → o' ≡ (if (d == c) && (n == n) then Option.map (λ _. h) o else o)
    → d ≡ c
    → o ≡ some point
    → o' ≡ some h
moved {d = d} {c = c} n e same p = ground (arith, e, same, p, beq_self n)

module _ {State Row : Type 0} (scheme : Scheme Row) (t : Tables State Row) (id_of : String → ℕ)
    (rows_of : ℕ → ℕ → List Row) (c : ℕ) where
  -- `old` was in the table when the index point was `first + 1`; since then the rows of the blocks
  -- from that height up to the one before `point` have come in, and the stored pointer is `point`.
  pub record Synced (first : ℕ) (old : List Row) (point : ℕ) (w : World State) : Type 0 where
    pub blocks : ℕ
    pub at_point : point ≡ suc first + blocks
    pub rows : t.rows w.db ≡ old ++ concat_map (rows_of c) (range_from (suc first) blocks)
    pub pointer : t.pointer w.db c scheme.text.index_name ≡ some point
    pub ids : Agrees id_of w.indexer.vim
    pub same_chain : w.indexer.chain_info_id ≡ c
    pub full : w.indexer.monikers ≡ []

  -- the rows of `n` blocks and those of the next `k`
  more_rows :
      (first : ℕ) (old : List Row) (n k : ℕ) {point : ℕ} (rows rows' : List Row)
      → suc first + n ≡ point
      → rows ≡ old ++ concat_map (rows_of c) (range_from (suc first) n)
      → rows' ≡ rows ++ concat_map (rows_of c) (range_from point k)
      → rows' ≡ old ++ concat_map (rows_of c) (range_from (suc first) (n + k))
  more_rows first old n k {point = point} rows rows' at e e' =
      e'
      ∙ ap₂ (λ l p. l ++ concat_map (rows_of c) (range_from p k)) e (sym at)
      ∙ append_assoc old _ _
      ∙ ap (λ l. old ++ l)
          (sym (
              concat_map-append (rows_of c) (range_from (suc first) n)
                (range_from (suc first + n) k))
            ∙ ap (concat_map (rows_of c)) (sym (range_from-append (suc first) n k)))

  Calm-Synced :
      (first : ℕ) (old : List Row) (point : ℕ) (w w' : World State)
      → Synced first old point w
      → Calm t id_of w w'
      → Synced first old point w'
  Calm-Synced first old point w w' s calm = record {
    blocks = s.blocks;
    at_point = s.at_point;
    rows = calm.tables.same_rows ∙ s.rows;
    pointer = calm.tables.same_pointer c scheme.text.index_name ∙ s.pointer;
    ids = calm.keeps_ids s.ids;
    same_chain = calm.same_chain ∙ s.same_chain;
    full = calm.same_monikers ∙ s.full;
  }

  module _ (chain : Chain) (good : Implements scheme id_of chain rows_of)
      (infos : InfoTable State ValidatorInfo) (laws : TableLaws t) (info_laws : InfoLaws t infos)
      (lists : ListsIds id_of infos) where
    Indexed-Synced :
        (first : ℕ) (old : List Row) (point k : ℕ) (w w' : World State)
        → Synced first old point w
        → Indexed scheme t id_of rows_of point (suc k) w w'
        → Synced first old (point + suc k) w'
    Indexed-Synced first old point k w w' s i = record {
      blocks = s.blocks + suc k;
      at_point = omega (arith, s.at_point);
      rows =
          more_rows first old s.blocks (suc k) (t.rows w.db) (t.rows w'.db)
            (omega (arith, s.at_point)) s.rows
            (i.stored.stored_rows
              ∙ ap (λ d. t.rows w.db ++ concat_map (rows_of d) (range_from point (suc k)))
                  s.same_chain);
      pointer =
          moved scheme.text.index_name (i.stored.stored_pointer c scheme.text.index_name)
            s.same_chain s.pointer;
      ids = i.keeps_ids;
      same_chain = i.same_chain ∙ s.same_chain;
      full = i.same_monikers ∙ s.full;
    }

    module _ (make_infos : List String → Result (List ValidatorInfo)) (node : Node)
        (arrive : Schedule BlockSummary) (honest : IsHonest chain node)
        (delivers : Delivers arrive) where
      sync_range-Synced :
          (first : ℕ) (old : List Row) (p start end h k : ℕ) (w : World State)
          → p ≡ suc h
          → start ≡ suc (suc h)
          → end ≡ suc h + suc k
          → Synced first old p w
          → Ends
              (λ p' w'. Synced first old p' w')
              (λ w'. Synced first old p w')
              (sync_range scheme t infos make_infos node arrive start end)
              w
      sync_range-Synced first old p start end h k w ep es ee s =
          let ends =
            sync_range_exact scheme t infos laws info_laws id_of lists chain rows_of good make_infos
              node arrive honest delivers h k w s.ids s.full in
          let s' : Synced first old (suc h) w = subst (λ q. Synced first old q w) ep s in
          let out = sync_range scheme t infos make_infos node arrive start end w in
          let ends' : Post
              (λ r w'. (r ≡ suc h + suc k) × Indexed scheme t id_of rows_of (suc h) (suc k) w w')
              (λ w'. Calm t id_of w w') out.0 out.1 =
            rw (es, ee) ends in
          Post-weaken (λ p' w'. Synced first old p' w') (λ w'. Synced first old p w')
            (λ r w'. (r ≡ suc h + suc k) × Indexed scheme t id_of rows_of (suc h) (suc k) w w')
            (λ w'. Calm t id_of w w') out.0 out.1 ends'
            (λ r (e, i).
              subst (λ q. Synced first old q out.1) (sym e)
                (Indexed-Synced first old (suc h) k w out.1 s' i))
            (λ calm. Calm-Synced first old p w out.1 s calm)

      batch_sync-Synced :
          (latest : Latest) (first : ℕ) (old : List Row) (p : ℕ) (w : World State)
          → latest.at_guard ≤ latest.at_end
          → Synced first old p w
          → Ends
              (λ p' w'. Synced first old p' w')
              (λ w'. Synced first old p w')
              (batch_sync scheme t infos make_infos node arrive latest p (p + 1))
              w
      unfolding batch_sync
      batch_sync-Synced latest first old p w fall s =
          Ends-if (λ p' w'. Synced first old p' w') (λ w'. Synced first old p w')
            (leb latest.at_guard p) (ok p, w) _ (λ _. s)
            λ ahead.
              let e : p + 1 ≡ suc p = omega arith in
              let (k, far) = end_height_ahead latest p fall ahead in
              let at : p ≡ suc (first + s.blocks) = omega (arith, s.at_point) in
              sync_range-Synced first old p (p + 1) (end_height latest (p + 1)) (first + s.blocks) k
                w at (omega (arith, at)) (ap (end_height latest) e ∙ far ∙ ap (λ q. q + suc k) at) s

    pub run-Synced :
        (turns : List Turn) (first : ℕ) (old : List Row) (s : LoopState State)
        → All (IsSound chain) turns
        → Synced first old s.index_point s.world
        → Synced first old
            (run (map (round_of scheme t infos) turns) s).1.index_point
            (run (map (round_of scheme t infos) turns) s).1.world
    run-Synced turns first old s sound synced =
        run-Holds (λ p w. Synced first old p w) (map (round_of scheme t infos) turns) s
          (keeps turns sound) synced
      where
        keeps :
            (vs : List Turn)
            → All (IsSound chain) vs
            → All (Keeps (λ p w. Synced first old p w)) (map (round_of scheme t infos) vs)
        keeps [] h = tt
        keeps (v ∷ vs) (h, hs) = (
          λ client p w s'.
              batch_sync-Synced v.make_infos (v.node client) v.arrive (h.honest client) h.delivers
                v.latest first old p w h.no_fall s',
          keeps vs hs,
        )
