-- ===== src/Duration/Text/RoundTrip.antt =====
-- Durations of source/containers/vinstant.cpp, as text and read back.
use code_vault.Base.{
  ℕ, ◌<◌, ◌≡◌, refl, sym, ap, ◌∙◌, true, false, not, ◌&&◌, List, [], ◌∷◌, ◌++◌, Result, ok, ltb_ℤ,
  ℤ, pos, negsuc, arith, ==_iff, subst, Bool-cases, inl, inr,
}
use code_vault.Duration.{
  unspecified, positive_infinity, negative_infinity, eq_ℤ, quotient_ℕ, is_specific,
}
use code_vault.Strings.{decimal}
use code_vault.Strings.RoundTrip.{magnitude, parse_s64-decimal}
use code_vault.Duration.Text.{
  per_second, per_minute, per_hour, per_day, to_int, is_multiple, unspecified_word, infinity_word,
  negative_infinity_word, get_duration_string, truncated, units, set_duration_string,
}
use code_vault.Duration.Text.Suffixes.{
  truncated-append, ends_with-decimal, decimal_back-no_m, no_word, words-has_i,
}
use code_vault.Duration.Text.Units.{units_read}

module _ (fractional : List ℕ → Result ℤ) where
  read_milliseconds :
      (z : ℤ)
      → magnitude z < 2147483648000
      → set_duration_string fractional (decimal z ++ b'm' ∷ b's' ∷ []) ≡ ok z
  unfolding set_duration_string
  read_milliseconds z h = rw (
    ends_with-decimal z (b'm' ∷ b's' ∷ []) (b'm' ∷ b's' ∷ []),
    truncated-append (decimal z) (b'm' ∷ b's' ∷ []),
    parse_s64-decimal z (omega arith),
  )

  read_seconds :
      (z : ℤ)
      → set_duration_string fractional (decimal z ++ b's' ∷ [])
        ≡ units per_second (truncated (decimal z ++ b's' ∷ []) 1)
  unfolding set_duration_string
  read_seconds z = rw (
    ends_with-decimal z (b's' ∷ []) (b'm' ∷ b's' ∷ []),
    decimal_back-no_m z,
    ends_with-decimal z (b's' ∷ []) (b's' ∷ []),
  )

  read_minutes :
      (z : ℤ)
      → set_duration_string fractional (decimal z ++ b'm' ∷ [])
        ≡ units per_minute (truncated (decimal z ++ b'm' ∷ []) 1)
  unfolding set_duration_string
  read_minutes z =
      let t : List ℕ = b'm' ∷ [] in
      rw (
        ends_with-decimal z t (b'm' ∷ b's' ∷ []),
        ends_with-decimal z t (b's' ∷ []),
        ends_with-decimal z t (b'm' ∷ []),
      )

  read_hours :
      (z : ℤ)
      → set_duration_string fractional (decimal z ++ b'h' ∷ [])
        ≡ units per_hour (truncated (decimal z ++ b'h' ∷ []) 1)
  unfolding set_duration_string
  read_hours z =
      let t : List ℕ = b'h' ∷ [] in
      rw (
        ends_with-decimal z t (b'm' ∷ b's' ∷ []),
        ends_with-decimal z t (b's' ∷ []),
        ends_with-decimal z t (b'm' ∷ []),
        ends_with-decimal z t (b'h' ∷ []),
      )

  read_days :
      (z : ℤ)
      → set_duration_string fractional (decimal z ++ b'd' ∷ [])
        ≡ units per_day (truncated (decimal z ++ b'd' ∷ []) 1)
  unfolding set_duration_string
  read_days z =
      let t : List ℕ = b'd' ∷ [] in
      rw (
        ends_with-decimal z t (b'm' ∷ b's' ∷ []),
        ends_with-decimal z t (b's' ∷ []),
        ends_with-decimal z t (b'm' ∷ []),
        ends_with-decimal z t (b'h' ∷ []),
        no_word z b'd' unspecified_word refl words-has_i.0,
        no_word z b'd' infinity_word refl words-has_i.1,
        no_word z b'd' negative_infinity_word refl words-has_i.2,
        ends_with-decimal z t (b'd' ∷ []),
      )

  read_specific :
      (d : ℤ)
      → magnitude d < 2147483648000
      → (eq_ℤ d unspecified ≡ false)
      → (eq_ℤ d positive_infinity ≡ false)
      → (eq_ℤ d negative_infinity ≡ false)
      → set_duration_string fractional (get_duration_string d) ≡ ok d
  unfolding get_duration_string
  read_specific d h nu np nn =
      elim (Bool-cases (not (ltb_ℤ d (pos 0)) && ltb_ℤ d (pos per_second))) [
        | inl short ↦ rw short (read_milliseconds d h)
        | inr long ↦ elim (Bool-cases (is_multiple d per_day)) [
          | inl days ↦
              rw (long, nu, np, nn, days)
                (read_days (to_int (quotient_ℕ d per_day))
                  ∙ units_read d b'd' per_day (omega arith) h days)
          | inr no_days ↦ elim (Bool-cases (is_multiple d per_hour)) [
            | inl hours ↦
                rw (long, nu, np, nn, no_days, hours)
                  (read_hours (to_int (quotient_ℕ d per_hour))
                    ∙ units_read d b'h' per_hour (omega arith) h hours)
            | inr no_hours ↦ elim (Bool-cases (is_multiple d per_minute)) [
              | inl minutes ↦
                  rw (long, nu, np, nn, no_days, no_hours, minutes)
                    (read_minutes (to_int (quotient_ℕ d per_minute))
                      ∙ units_read d b'm' per_minute (omega arith) h minutes)
              | inr no_minutes ↦ elim (Bool-cases (is_multiple d per_second)) [
                | inl seconds ↦
                    rw (long, nu, np, nn, no_days, no_hours, no_minutes, seconds)
                      (read_seconds (to_int (quotient_ℕ d per_second))
                        ∙ units_read d b's' per_second (omega arith) h seconds)
                | inr no_seconds ↦
                    rw (long, nu, np, nn, no_days, no_hours, no_minutes, no_seconds)
                      (read_milliseconds d h)
              ]
            ]
          ]
        ]
      ]

eq_ℤ-sound : (a b : ℤ) → eq_ℤ a b ≡ true → a ≡ b
eq_ℤ-sound (pos m) (pos n) e = ap pos ((==_iff m n).0 e)
eq_ℤ-sound (negsuc m) (negsuc n) e = ap negsuc ((==_iff m n).0 e)
eq_ℤ-sound (pos m) (negsuc n) e = absurd (cc e)
eq_ℤ-sound (negsuc m) (pos n) e = absurd (cc e)

-- The text of a duration is read back as the duration, where the duration is UNSPECIFIED or an infinity or
-- else below 2147483648 seconds in magnitude, whatever the parser of fractional seconds does.
pub set_duration_string-get_duration_string :
    (fractional : List ℕ → Result ℤ) (d : ℤ)
    → (is_specific d ≡ true → magnitude d < 2147483648000)
    → set_duration_string fractional (get_duration_string d) ≡ ok d
unfolding set_duration_string get_duration_string
set_duration_string-get_duration_string f d h = elim (Bool-cases (eq_ℤ d unspecified)) [
  | inl u ↦
      subst (λ x. set_duration_string f (get_duration_string x) ≡ ok x)
        (sym (eq_ℤ-sound d unspecified u)) refl
  | inr nu ↦ elim (Bool-cases (eq_ℤ d positive_infinity)) [
    | inl p ↦
        subst (λ x. set_duration_string f (get_duration_string x) ≡ ok x)
          (sym (eq_ℤ-sound d positive_infinity p)) refl
    | inr np ↦ elim (Bool-cases (eq_ℤ d negative_infinity)) [
      | inl n ↦
          subst (λ x. set_duration_string f (get_duration_string x) ≡ ok x)
            (sym (eq_ℤ-sound d negative_infinity n)) refl
      | inr nn ↦ read_specific f d (h (rw (nu, np, nn))) nu np nn
    ]
  ]
]
