-- ===== src/Retention/Units.antt =====
-- What a retention period of a number and a unit comes to.
use mathlib.Core.Path.{subst}
use cvms.Base.{
  ltb, err, message, panic, ◌||◌, ◌≤◌, ◌<◌, ◌*◌, Result, String, ok_injective, ℕ, ◌≡◌, ◌≢◌, refl,
  sym, ap, ◌∙◌, true, false, Bool-cases, inl, inr, [], ◌∷◌, ◌++◌, arith, ◌==◌, nat_eq, ok,
}
use cvms.Retention.{
  max_duration, Packages, ℤ, negsuc, ranged, with_number, GoString, pos, Duration, ago, bytes_eq,
  persistence_mode, hour, value_and_unit, duration_of, split_and_parse, parse_retention_period,
}

pub data Period : Type 0 where
  hours days weeks months : Period

abbrev pub letter : Period → ℕ
letter hours = 104
letter days = 100
letter weeks = 119
letter months = 109

-- the longest period of its unit, and the hours of one
abbrev pub most : Period → ℕ
most hours = 24
most days = 7
most weeks = 4
most months = 12

abbrev pub hours_of : Period → ℕ
hours_of hours = 1
hours_of days = 24
hours_of weeks = 168
hours_of months = 720

value_and_unit_last : (x : ℕ) (l : GoString) (u : ℕ) → (value_and_unit x (l ++ (u ∷ []))).1 ≡ u
unfolding value_and_unit
value_and_unit_last x [] u = refl
value_and_unit_last x (y ∷ l) u = value_and_unit_last y l u

value_and_unit_init : (x : ℕ) (l : GoString) (u : ℕ) → (value_and_unit x (l ++ (u ∷ []))).0 ≡ x ∷ l
unfolding value_and_unit
value_and_unit_init x [] u = refl
value_and_unit_init x (y ∷ l) u = ap (λ v. x ∷ v) (value_and_unit_init y l u)

-- the last byte of a string, or 0
abbrev last_byte : GoString → ℕ → ℕ
last_byte [] d = d
last_byte (x ∷ l) d = last_byte l x

last_byte_append : (l : GoString) (u d : ℕ) → last_byte (l ++ (u ∷ [])) d ≡ u
last_byte_append [] u d = refl
last_byte_append (x ∷ l) u d = last_byte_append l u x

bytes_eq_last : (l k : GoString) (d : ℕ) → bytes_eq l k ≡ true → last_byte l d ≡ last_byte k d
bytes_eq_last [] [] d e = refl
bytes_eq_last [] (y ∷ k) d e = cc
bytes_eq_last (x ∷ l) [] d e = cc
bytes_eq_last (x ∷ l) (y ∷ k) d e = elim (Bool-cases (x == y)) [
  | inl same ↦ bytes_eq_last l k x (rw same at e) ∙ ap (last_byte k) ((nat_eq.test_iff x y).0 same)
  | inr other ↦ let wrong : false ≡ true = rw other at e in cc
]

not_persistence :
    (l : GoString) (u : Period) → bytes_eq (l ++ (letter u ∷ [])) persistence_mode ≡ false
not_persistence l u = elim (Bool-cases (bytes_eq (l ++ (letter u ∷ [])) persistence_mode)) [
  | inl same ↦ absurd (
      apart u (
        sym (last_byte_append l (letter u) 0)
        ∙ bytes_eq_last (l ++ (letter u ∷ [])) persistence_mode 0 same))
  | inr other ↦ other
]
  where
    apart : (v : Period) → letter v ≢ 101
    apart hours e = omega (arith, e)
    apart days e = omega (arith, e)
    apart weeks e = omega (arith, e)
    apart months e = omega (arith, e)

duration_of-letter :
    (u : Period) (n : ℕ)
    → 1 ≤ n
    → n ≤ most u
    → duration_of (letter u) (pos n) ≡ ok (ago (n * hours_of u * hour))
unfolding duration_of
duration_of-letter hours n lo hi = ground (arith, lo, hi)
duration_of-letter days n lo hi = ground (arith, lo, hi)
duration_of-letter weeks n lo hi = ground (arith, lo, hi)
duration_of-letter months n lo hi = ground (arith, lo, hi)

-- A number that Atoi reads as `n`, from 1 to the most of its unit, followed by the letter of the
-- unit, with or without white space round them, is the period of `n` units into the past.
pub parse_retention_period_unit :
    (p : Packages) (raw : GoString) (x : ℕ) (l : GoString) (u : Period) (n : ℕ)
    → p.trim_space raw ≡ x ∷ (l ++ (letter u ∷ []))
    → p.atoi (x ∷ l) ≡ ok (pos n)
    → 1 ≤ n
    → n ≤ most u
    → parse_retention_period p raw ≡ ok (ago (n * hours_of u * hour))
unfolding parse_retention_period split_and_parse
parse_retention_period_unit p raw x l u n trimmed number lo hi =
    rw
      (
        trimmed,
        not_persistence (x ∷ l) u,
        value_and_unit_init x l (letter u),
        value_and_unit_last x l (letter u),
        number,
        duration_of-letter u n lo hi,
      )
      refl

-- What is accepted: the longest duration for "persistence", and else a period of 1 hour to 360 days
-- into the past, whose nanoseconds are below 2^63.
pub data Accepted : Duration → Type 0 where
  persistent : Accepted max_duration
  bounded : (d : ℕ) → hour ≤ d → d ≤ 8640 * hour → d < 9223372036854775808 → Accepted (ago d)

ranged-Accepted :
    (num : ℤ) (m h : ℕ) (text : String) (d : Duration)
    → ((k : ℕ) → 1 ≤ k → k ≤ m → (hour ≤ k * h * hour) × (k * h * hour ≤ 8640 * hour))
    → ranged num m h text ≡ ok d
    → Accepted d
ranged-Accepted (negsuc n) m h text d inside e = cc
ranged-Accepted (pos n) m h text d inside e = elim (Bool-cases (ltb n 1 || ltb m n)) [
  | inl outside ↦ let wrong : err (message text) ≡ ok d = rw outside at e in cc
  | inr fine ↦
      let (lo, hi) = inside n (ground (arith, fine)) (ground (arith, fine)) in
      subst Accepted (ok_injective (rw fine at e))
        (bounded (n * h * hour) lo hi (omega (arith, lo, hi)))
]

duration_of-Accepted :
    (unit : ℕ) (num : ℤ) (d : Duration) → duration_of unit num ≡ ok d → Accepted d
unfolding duration_of
duration_of-Accepted unit num d e = elim (Bool-cases (unit == 100)) [
  | inl u ↦
      ranged-Accepted num 7 24 _ d (λ k lo hi. (omega (arith, lo, hi), omega (arith, lo, hi)))
        (rw u at e)
  | inr nd ↦ elim (Bool-cases (unit == 119)) [
    | inl u ↦
        ranged-Accepted num 4 168 _ d (λ k lo hi. (omega (arith, lo, hi), omega (arith, lo, hi)))
          (rw (nd, u) at e)
    | inr nw ↦ elim (Bool-cases (unit == 104)) [
      | inl u ↦
          ranged-Accepted num 24 1 _ d (λ k lo hi. (omega (arith, lo, hi), omega (arith, lo, hi)))
            (rw (nd, nw, u) at e)
      | inr nh ↦ elim (Bool-cases (unit == 109)) [
        | inl u ↦
            ranged-Accepted num 12 720 _ d
              (λ k lo hi. (omega (arith, lo, hi), omega (arith, lo, hi))) (rw (nd, nw, nh, u) at e)
        | inr nm ↦
            let wrong : err (message "invalid unit in retention period: %s") ≡ ok d =
              rw (nd, nw, nh, nm) at e in
            cc
      ]
    ]
  ]
]

with_number-Accepted :
    (p : Packages) (r : Result ℤ) (unit : ℕ) (d : Duration)
    → with_number p r unit ≡ ok d
    → Accepted d
with_number-Accepted p (ok num) unit d e = duration_of-Accepted unit num d e
with_number-Accepted p (err x) unit d e = cc
with_number-Accepted p panic unit d e = cc

split_and_parse-Accepted :
    (p : Packages) (s : GoString) (d : Duration) → split_and_parse p s ≡ ok d → Accepted d
unfolding split_and_parse
split_and_parse-Accepted p [] d e = cc
split_and_parse-Accepted p (x ∷ l) d e =
    with_number-Accepted p (p.atoi (value_and_unit x l).0) (value_and_unit x l).1 d e

-- Whatever the packages make of the text, a period that is accepted is the longest duration, or
-- lies between 1 hour and 360 days in the past and fits a signed 64-bit number of nanoseconds.
pub parse_retention_period-Accepted :
    (p : Packages) (raw : GoString) (d : Duration)
    → parse_retention_period p raw ≡ ok d
    → Accepted d
unfolding parse_retention_period
parse_retention_period-Accepted p raw d e =
    elim (Bool-cases (bytes_eq (p.trim_space raw) persistence_mode)) [
      | inl same ↦ subst Accepted (ok_injective (rw same at e)) persistent
      | inr other ↦ split_and_parse-Accepted p (p.trim_space raw) d (rw other at e)
    ]
