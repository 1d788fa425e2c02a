-- ===== src/Examples/RetentionRuns.antt =====
-- Retention periods: 7d with a space before it, and persistence.
use cvms.Base.{
  ◌≡◌, refl, ◌*◌, ◌-◌, [], ◌∷◌, if◌then◌else◌, ◌==◌, nat_eq, Result, ok, err, panic, message, arith,
  length,
}
use cvms.Retention.{
  GoString, ℤ, pos, max_duration, ago, Packages, hour, persistence_mode, parse_retention_period,
}
use cvms.Retention.Units.{
  days, Accepted, parse_retention_period_unit, parse_retention_period-Accepted,
}

abbrev trim : GoString → GoString
trim [] = []
trim (x ∷ l) = if x == 32 then l else x ∷ l

-- one digit is all that this number has
abbrev digit : GoString → Result ℤ
digit [] = err (message "invalid syntax")
digit (x ∷ l) = if length l == 0 then ok (pos (x - 48)) else err (message "invalid syntax")

abbrev toy_strconv : Packages
toy_strconv = record { trim_space = trim; atoi = digit }

parse_retention_period_unit_example :
    parse_retention_period toy_strconv (32 ∷ 55 ∷ 100 ∷ []) ≡ ok (ago (7 * 24 * hour))
parse_retention_period_unit_example =
    parse_retention_period_unit toy_strconv (32 ∷ 55 ∷ 100 ∷ []) 55 [] days 7 refl refl
      (omega arith) (omega arith)

seven_days : parse_retention_period toy_strconv (32 ∷ 55 ∷ 100 ∷ []) ≡ ok (ago 604800000000000)
unfolding parse_retention_period
seven_days = refl

parse_retention_period-Accepted_example : Accepted (ago 604800000000000)
parse_retention_period-Accepted_example =
    parse_retention_period-Accepted toy_strconv (32 ∷ 55 ∷ 100 ∷ []) (ago 604800000000000)
      seven_days

eight_days :
    parse_retention_period toy_strconv (56 ∷ 100 ∷ [])
    ≡ err (message "days out of range: %d (valid range: 1d to 7d)")
unfolding parse_retention_period
eight_days = refl

-- a text of white space alone panics
only_space : parse_retention_period toy_strconv (32 ∷ []) ≡ panic
unfolding parse_retention_period
only_space = refl

forever : parse_retention_period toy_strconv persistence_mode ≡ ok max_duration
unfolding parse_retention_period
forever = refl
