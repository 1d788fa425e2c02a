-- ===== src/Examples/CovenantBatches.antt =====
-- Batches of the covenant-committee indexer over the two heights of Examples/CovenantRuns.
use mathlib.Core.List.{Permᴰ}
use mathlib.Core.List.Permᴰ
use cvms.Base.{
  ℕ, ◌≡◌, refl, String, Bool, true, false, some, List, [], ◌∷◌, arith, if◌then◌else◌, nat_eq,
  string_eq, Map, lookup, Result, ok,
}
use cvms.Base.Post.{Post}
use cvms.Indexer.Types.{Latest}
use cvms.Indexer.Fetch.{end_height, heights}
use cvms.Covenant.Events.{block_events}
use cvms.Covenant.Rows.{BabylonBtcDelegation, BabylonCovenantSignature}
use cvms.Covenant.Heights.{HeightSent, send_rows, sync_height}
use cvms.Covenant.Channels.{
  from_first, first_closed, from_second, second_closed, over, first_sends, first_ends, second_sends,
  second_ends,
}
use cvms.Covenant.Insert.{SameInTx}
use cvms.Covenant.Insert.Survives.{Inserted, WithOrWithout}
use cvms.Covenant.Committee.{CommitteeTable, CovenantWorld, no_answer, update_committee}
use cvms.Covenant.Sync.{
  Arrival, CovenantDelivery, sync_heights, any_unknown, first_messages, second_messages,
  covenant_batch_sync,
}
use cvms.Covenant.Sync.Stores.{
  CommitteeLaws, Untouched, Delivered, covenant_batch_stores, unknown_member_keeps_height,
}
use cvms.Examples.CovenantDatabase.{CovenantDb, covenant_tables, covenant_tables-CovenantLaws}
use cvms.Examples.CovenantRuns.{
  plain_codecs, covenant_node, covenant_delegation, covenant_signature_row, empty_covenant_db,
}

abbrev covenant_members : CommitteeTable CovenantDb
covenant_members = record {
  upsert_list = λ l s. (ok tt, s);
  list_members = λ c s.
      (ok (record { id = 3; chain_info_id = 7; covenant_btc_pk = "pk"; moniker = "m" } ∷ []), s);
}

covenant_members-CommitteeLaws : CommitteeLaws (covenant_tables false) covenant_members
covenant_members-CommitteeLaws = record {
  upsert_apart =
      λ l s. record { kept_delegations = refl; kept_signatures = refl; kept_pointer = λ c n. refl };
  list_apart =
      λ c s. record { kept_delegations = refl; kept_signatures = refl; kept_pointer = λ c n. refl };
}

abbrev covenant_world : Map String ℕ → CovenantWorld CovenantDb
covenant_world committee = record {
  chain_info_id = 7;
  mainnet = false;
  committee = committee;
  db = empty_covenant_db;
}

abbrev then_second : List (List BabylonCovenantSignature) → List CovenantDelivery
then_second [] = second_closed ∷ []
then_second (y ∷ ys) = from_second y ∷ then_second ys

abbrev first_then : List (List BabylonBtcDelegation) → List CovenantDelivery → List CovenantDelivery
first_then [] l = first_closed ∷ l
first_then (x ∷ xs) l = from_first x ∷ first_then xs l

-- all of the first channel, behind the first message of the second
abbrev second_first : Arrival
second_first xs [] = first_then xs (second_closed ∷ [])
second_first xs (y ∷ ys) = from_second y ∷ first_then xs (then_second ys)

abbrev latest_12 : Latest
latest_12 = record { at_guard = 12; at_end = 12; at_limit = 12 }

abbrev sent_at : Bool → ℕ → HeightSent
sent_at unknown h = record {
  on_first = (covenant_delegation h ∷ []) ∷ [];
  on_second = (if unknown then [] else covenant_signature_row h ∷ []) ∷ [];
  met_unknown = unknown;
}

two_heights_end :
    (unknown : Bool)
    → sync_heights plain_codecs covenant_node 5 7
        (if unknown then [] else ("pk", 3) ∷ [])
        (heights 11 (end_height latest_12 11))
      ≡ some (sent_at unknown 11 ∷ sent_at unknown 12 ∷ [])
unfolding sync_heights end_height sync_height block_events send_rows lookup
two_heights_end true = refl
two_heights_end false = refl

two_heights-Delivered :
    (unknown : Bool)
    → Delivered second_first
        (first_messages (sent_at unknown 11 ∷ sent_at unknown 12 ∷ []))
        (second_messages (sent_at unknown 11 ∷ sent_at unknown 12 ∷ []))
two_heights-Delivered unknown = record {
  first_order = _;
  second_order = _;
  first_perm = Permᴰ.refl _;
  second_perm = Permᴰ.refl _;
  interleaved =
      second_sends (first_sends (first_sends (first_ends (second_sends (second_ends over)))));
}

met_unknown_member : any_unknown (sent_at true 11 ∷ sent_at true 12 ∷ []) ≡ true
unfolding any_unknown
met_unknown_member = refl

met_known_members : any_unknown (sent_at false 11 ∷ sent_at false 12 ∷ []) ≡ false
unfolding any_unknown
met_known_members = refl

members_updated :
    (update_committee covenant_members (ok ("pk" ∷ [])) no_answer (covenant_world [])).0 ≡ ok tt
unfolding update_committee
members_updated = refl

unknown_member_keeps_height_example :
    (out : Result ℕ × CovenantWorld CovenantDb) × (covenant_batch_sync
        (covenant_tables false)
        covenant_members
        (ok ("pk" ∷ []))
        no_answer
        plain_codecs
        covenant_node
        second_first
        5
        latest_12
        10
        11
        (covenant_world [])
      ≡ some out)
    × (out.0 ≡ ok 10)
    × Untouched (covenant_tables false) empty_covenant_db out.1.db
unknown_member_keeps_height_example =
    unknown_member_keeps_height (covenant_tables-CovenantLaws false) covenant_members
      (ok ("pk" ∷ [])) no_answer plain_codecs covenant_node second_first 5 latest_12 10 11
      (covenant_world []) (sent_at true 11 ∷ sent_at true 12 ∷ []) (omega arith)
      (two_heights_end true) (two_heights-Delivered true) covenant_members-CommitteeLaws
      met_unknown_member members_updated

covenant_batch_stores_example :
    (bbd : List BabylonBtcDelegation) × (bcs : List BabylonCovenantSignature) × Permᴰ bbd
      (covenant_delegation 11 ∷ covenant_delegation 12 ∷ [])
    × Permᴰ bcs (covenant_signature_row 11 ∷ covenant_signature_row 12 ∷ [])
    × (out : Result ℕ × CovenantWorld CovenantDb) × (covenant_batch_sync
          (covenant_tables false)
          covenant_members
          (ok ("pk" ∷ []))
          no_answer
          plain_codecs
          covenant_node
          second_first
          5
          latest_12
          10
          11
          (covenant_world (("pk", 3) ∷ []))
        ≡ some out)
    × Post
        (λ p w'.
          (p ≡ end_height latest_12 11)
          × Inserted
              (covenant_tables-CovenantLaws false)
              7
              (end_height latest_12 11)
              bcs
              bbd
              empty_covenant_db
              w'.db)
        (λ w'.
          SameInTx (covenant_tables false) empty_covenant_db w'.db
          × WithOrWithout
              (covenant_tables-CovenantLaws false)
              7
              (end_height latest_12 11)
              bcs
              bbd
              empty_covenant_db
              w'.db)
        out.0
        out.1
covenant_batch_stores_example =
    covenant_batch_stores (covenant_tables-CovenantLaws false) covenant_members (ok ("pk" ∷ []))
      no_answer plain_codecs covenant_node second_first 5 latest_12 10 11
      (covenant_world (("pk", 3) ∷ [])) (sent_at false 11 ∷ sent_at false 12 ∷ []) (omega arith)
      (two_heights_end false) (two_heights-Delivered false) met_known_members
