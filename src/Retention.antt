-- ===== src/Retention.antt =====
-- ParseRetentionPeriod of internal/helper/db/retention_period.go. A Go string is its list of bytes;
-- the packages strings and strconv are a parameter.
pub mod Units
use cvms.Base.{
  ℕ, zero, suc, ◌+◌, ◌-◌, ◌*◌, String, Bool, true, false, ◌&&◌, ◌||◌, Option, none, some, List, [],
  ◌∷◌, ◌++◌, if◌then◌else◌, ltb, ◌==◌, nat_eq, Result, ok, err, panic, message,
}

abbrev pub GoString : Type 0
GoString = List ℕ

-- what strconv.Atoi returns: `negsuc n` is -1 - n
pub data ℤ : Type 0 where
  pos negsuc : ℕ → ℤ

-- A time.Duration: the longest one, or one of so many nanoseconds into the past.
pub data Duration : Type 0 where
  max_duration : Duration
  ago : ℕ → Duration

pub record Packages : Type 0 where
  pub trim_space : GoString → GoString
  pub atoi : GoString → Result ℤ

abbrev pub bytes_eq : GoString → GoString → Bool
bytes_eq [] [] = true
bytes_eq [] (y ∷ k) = false
bytes_eq (x ∷ l) [] = false
bytes_eq (x ∷ l) (y ∷ k) = (x == y) && bytes_eq l k

-- "persistence"
abbrev pub persistence_mode : GoString
persistence_mode = 112 ∷ 101 ∷ 114 ∷ 115 ∷ 105 ∷ 115 ∷ 116 ∷ 101 ∷ 110 ∷ 99 ∷ 101 ∷ []

-- time.Hour
abbrev pub hour : ℕ
hour = 3600000000000

-- s[:len(s)-1] and s[len(s)-1:] of a string that starts with `x`
unfoldable pub value_and_unit : ℕ → GoString → GoString × ℕ
value_and_unit x [] = ([], x)
value_and_unit x (y ∷ l) = let (v, u) = value_and_unit y l in (x ∷ v, u)

-- num < 1 || num > most
abbrev pub ranged : ℤ → ℕ → ℕ → String → Result Duration
ranged (pos n) most hours text =
    if ltb n 1 || ltb most n then err (message text) else ok (ago (n * hours * hour))
ranged (negsuc n) most hours text = err (message text)

-- the switch on the unit: d, w, h, m
unfoldable pub duration_of : ℕ → ℤ → Result Duration
duration_of unit num =
    if unit == 100
    then ranged num 7 24 "days out of range: %d (valid range: 1d to 7d)"
    else (if unit == 119
        then ranged num 4 (7 * 24) "weeks out of range: %d (valid range: 1w to 4w)"
        else (if unit == 104
            then ranged num 24 1 "hours out of range: %d (valid range: 1h to 24h)"
            else (if unit == 109
                then ranged num 12 (30 * 24) "months out of range: %d (valid range: 1m to 12m)"
                else err (message "invalid unit in retention period: %s"))))

module _ (p : Packages) where
  abbrev pub with_number : Result ℤ → ℕ → Result Duration
  with_number (ok num) unit = duration_of unit num
  with_number (err e) unit = err (message "invalid number in retention period: %s")
  with_number panic unit = panic

  -- The slice of an empty string is out of range.
  unfoldable pub split_and_parse : GoString → Result Duration
  unfolding value_and_unit duration_of
  split_and_parse [] = panic
  split_and_parse (x ∷ l) = with_number (p.atoi (value_and_unit x l).0) (value_and_unit x l).1

  unfoldable pub parse_retention_period : GoString → Result Duration
  unfolding split_and_parse
  parse_retention_period raw =
      let s = p.trim_space raw in
      if bytes_eq s persistence_mode then ok max_duration else split_and_parse s
