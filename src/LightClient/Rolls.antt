-- ===== src/LightClient/Rolls.antt =====
-- The rows of btc-lightclient/indexer/sync.go: how far one insert rolled the light client.
use cvms.Base.{
  ◌∙◌, Option-cases, ℕ, ◌+◌, ◌≡◌, refl, ◌⊎◌, inl, inr, String, Bool, true, false, List, [], ◌∷◌,
  arith, if◌then◌else◌, ltb, ◌==◌, string_eq, length, none, some, Map, lookup, Result, ok, err,
  message,
}
use cvms.LightClient.Events.{BtcHeader, BtcInsertEvent}

-- model.BabylonBTCRoll, without the id that the database gives, and with the headers themselves in
-- place of their text
pub record BabylonBtcRoll : Type 0 where
  pub chain_info_id : ℕ
  pub height : ℕ
  pub reporter_id : ℕ
  pub roll_forward_count : ℕ
  pub roll_back_count : ℕ
  pub btc_height : ℕ
  pub is_roll_back : Bool
  pub btc_headers : List BtcHeader

-- lastBTCHeight, forwardCnt, backCnt and isRollBack
pub record Counts : Type 0 where
  pub last_btc_height : ℕ
  pub forward_cnt : ℕ
  pub back_cnt : ℕ
  pub rolls_back : Bool

abbrev pub no_counts : Counts
no_counts = record { last_btc_height = 0; forward_cnt = 0; back_cnt = 0; rolls_back = false }

abbrev pub count_direction : BtcHeader → Counts → Counts
count_direction h c =
    if h.event_type == "EventBTCRollForward"
    then record c { forward_cnt = c.forward_cnt + 1 }
    else record c { back_cnt = c.back_cnt + 1; rolls_back = true }

abbrev pub count_height : BtcHeader → Counts → Counts
count_height h c =
    if ltb c.last_btc_height h.height then record c { last_btc_height = h.height } else c

-- the loop over the headers
unfoldable pub count_headers : List BtcHeader → Counts → Counts
count_headers [] c = c
count_headers (h ∷ headers) c = count_headers headers (count_height h (count_direction h c))

-- one insert event of the block at `height`
unfoldable pub roll_of : ℕ → Map String ℕ → ℕ → BtcInsertEvent → Result BabylonBtcRoll
unfolding count_headers
roll_of chain_info_id vim height e = elim (lookup e.reporter_address vim) [
  | none ↦ err (message "failed to find reporter ID in indexer ID maps")
  | some id ↦
      let c = count_headers e.btc_headers no_counts in
      ok (record {
        chain_info_id = chain_info_id;
        height = height;
        reporter_id = id;
        roll_forward_count = c.forward_cnt;
        roll_back_count = c.back_cnt;
        btc_height = c.last_btc_height;
        is_roll_back = c.rolls_back;
        btc_headers = e.btc_headers;
      })
]

-- The same figures, each on its own.
abbrev pub is_forward : BtcHeader → Bool
is_forward h = h.event_type == "EventBTCRollForward"

abbrev pub forwards : List BtcHeader → ℕ
forwards [] = 0
forwards (h ∷ headers) = if is_forward h then forwards headers + 1 else forwards headers

abbrev pub larger : ℕ → ℕ → ℕ
larger a b = if ltb a b then b else a

abbrev pub highest : List BtcHeader → ℕ
highest [] = 0
highest (h ∷ headers) = larger h.height (highest headers)

record Counted (c c' : Counts) (headers : List BtcHeader) : Type 0 where
  forward_counted : c'.forward_cnt ≡ c.forward_cnt + forwards headers
  all_counted : c'.forward_cnt + c'.back_cnt ≡ c.forward_cnt + c.back_cnt + length headers
  height_counted : c'.last_btc_height ≡ larger c.last_btc_height (highest headers)
  flag_counted : c.rolls_back ≡ ltb 0 c.back_cnt → c'.rolls_back ≡ ltb 0 c'.back_cnt

count_headers-Counted :
    (headers : List BtcHeader) (c : Counts) → Counted c (count_headers headers c) headers
unfolding count_headers
count_headers-Counted [] c = record {
  forward_counted = omega arith;
  all_counted = omega arith;
  height_counted = ground arith;
  flag_counted = λ e. e;
}
count_headers-Counted (h ∷ headers) c =
    let next = count_height h (count_direction h c) in
    let rest = count_headers-Counted headers next in
    record {
      forward_counted = ground (arith, rest.forward_counted);
      all_counted = ground (arith, rest.all_counted);
      height_counted = ground (arith, rest.height_counted);
      flag_counted = λ e. rest.flag_counted (ground (arith, e));
    }

-- The row of an insert event by a reporter with id `id`.
pub record Accounts (id height : ℕ) (e : BtcInsertEvent) (row : BabylonBtcRoll) : Type 0 where
  pub reporter : row.reporter_id ≡ id
  pub at_height : row.height ≡ height
  pub kept_headers : row.btc_headers ≡ e.btc_headers
  pub forward : row.roll_forward_count ≡ forwards e.btc_headers
  pub every_header : row.roll_forward_count + row.roll_back_count ≡ length e.btc_headers
  pub back_flag : row.is_roll_back ≡ ltb 0 row.roll_back_count
  pub top : row.btc_height ≡ highest e.btc_headers

-- An insert event whose reporter has an id gives a row: its forward count is the number of the
-- headers of that type, the two counts make up all headers, the flag says whether any rolled back,
-- and the BTC height is the highest of the headers' (0 if there are none). One whose reporter has
-- no id is an error.
pub roll_of-Accounts :
    (chain_info_id : ℕ) (vim : Map String ℕ) (height : ℕ) (e : BtcInsertEvent)
    → ((id : ℕ) × (row : BabylonBtcRoll) × (lookup e.reporter_address vim ≡ some id)
        × (roll_of chain_info_id vim height e ≡ ok row)
        × Accounts id height e row)
      ⊎ ((lookup e.reporter_address vim ≡ none)
          × (roll_of chain_info_id vim height e
              ≡ err (message "failed to find reporter ID in indexer ID maps")))
unfolding roll_of
roll_of-Accounts chain_info_id vim height e = elim (Option-cases (lookup e.reporter_address vim)) [
  | inl missing ↦ inr (missing, rw (missing, roll_of) refl)
  | inr (id, found) ↦
      let c = count_headers e.btc_headers no_counts in
      let counted = count_headers-Counted e.btc_headers no_counts in
      inl (
        id,
        record {
          chain_info_id = chain_info_id;
          height = height;
          reporter_id = id;
          roll_forward_count = c.forward_cnt;
          roll_back_count = c.back_cnt;
          btc_height = c.last_btc_height;
          is_roll_back = c.rolls_back;
          btc_headers = e.btc_headers;
        },
        found,
        rw (found, roll_of) refl,
        record {
          reporter = refl;
          at_height = refl;
          kept_headers = refl;
          forward = omega (arith, counted.forward_counted);
          every_header = omega (arith, counted.all_counted);
          back_flag = counted.flag_counted refl;
          top = counted.height_counted ∙ ground arith;
        },
      )
]
