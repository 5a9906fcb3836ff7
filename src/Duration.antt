-- ===== src/Duration.antt =====
-- vault/internal/commands/duration.go: the durations of the command line, as days.
use rune_admin.Prelude.{
  ℕ, ap, sym, ◌∙◌, ◌*◌, ◌+◌, ◌-◌, ◌^◌, length, String, codes, ◌≡◌, ◌≢◌, ◌⊎◌, inl, inr, ◌↔◌, false,
  none, some, List, [], ◌∷◌, ◌++◌, arith, Option, Option-cases, pos, ℤ, not, ◌&&◌, ◌||◌, ◌==ℕ◌,
  if◌then◌else◌,
}
use rune_admin.Machine.{wrap64, max_int64}
use Prim.Native.Nat.{min}
use native.Mathlib.Nat.{pow-succ'}
use rune_admin.Digits.{
  leading, trailing, is_digit, is_empty, atoi, value_from, AreDigits, leading-append-trailing,
  leading-AreDigits, leading-append, trailing-append,
}

-- `([dwm])$` after a run of digits.
match_unit : List ℕ → List ℕ → Option (List ℕ × ℕ)
match_unit n (c ∷ []) =
    if (c ==ℕ b'd' || c ==ℕ b'w' || c ==ℕ b'm') && not (is_empty n) then some (n, c) else none
match_unit n _ = none

-- durationRE = `^(\d+)([dwm])$`: the two groups.
unfoldable duration_re : List ℕ → Option (List ℕ × ℕ)
unfolding match_unit
duration_re cs = match_unit (leading cs) (trailing cs)

-- The days of a unit.
days_in : ℕ → ℕ
days_in c = if c ==ℕ b'd' then 1 else if c ==ℕ b'w' then 7 else 30

-- The multiplication is that of 64-bit integers.
unfoldable pub parse_duration : String → Option ℤ
unfolding duration_re days_in
parse_duration value = elim (duration_re (codes value)) [
  | none ↦ none
  | some (n, c) ↦ some (wrap64 (pos (atoi n * days_in c)))
]

abbrev pub IsUnit : ℕ → ℕ → Type 0
IsUnit c days = ((c ≡ b'd') × (days ≡ 1)) ⊎ ((c ≡ b'w') × (days ≡ 7)) ⊎ ((c ≡ b'm') × (days ≡ 30))

match_unit_sound :
    (l t : List ℕ) {n : List ℕ} {c : ℕ}
    → match_unit l t ≡ some (n, c)
    → (t ≡ c ∷ []) × (n ≡ l) × (is_empty n ≡ false) × IsUnit c (days_in c)
unfolding match_unit days_in
match_unit_sound l [] h = cc
match_unit_sound l (c ∷ []) h = ground arith
match_unit_sound l (c ∷ d ∷ t) h = cc

IsDuration : List ℕ → List ℕ → ℕ → ℕ → Type 0
IsDuration cs n c each = (cs ≡ n ++ c ∷ []) × AreDigits n × (n ≢ []) × IsUnit c each

duration_re_sound :
    (cs n : List ℕ) (c : ℕ) → duration_re cs ≡ some (n, c) → IsDuration cs n c (days_in c)
unfolding duration_re IsDuration
duration_re_sound cs n c h =
    let (end, same, given, unit) = match_unit_sound (leading cs) (trailing cs) h in
    (cc (leading-append-trailing cs), rw same (leading-AreDigits cs), (λ e. ground arith), unit)

unit-not-digit : (c each : ℕ) → IsUnit c each → (is_digit c ≡ false) × (days_in c ≡ each)
unfolding is_digit days_in
unit-not-digit c each h = ground arith

duration_re_complete :
    (cs n : List ℕ) (c each : ℕ) → IsDuration cs n c each → duration_re cs ≡ some (n, c)
unfolding duration_re match_unit IsDuration
duration_re_complete cs n c each (text, digits, given, unit) =
    let stop = (unit-not-digit c each unit).0 in
    ground (arith, leading-append c [] stop n digits, trailing-append c [] stop n digits)

-- The number that some decimal digits write, each by its place.
abbrev pub decimal : List ℕ → ℕ
decimal [] = 0
decimal (c ∷ cs) = (c - b'0') * 10 ^ length cs + decimal cs

next_place : (n d p r : ℕ) → (n * 10 + d) * p + r ≡ n * (10 * p) + (d * p + r)
next_place n d p r = grind arith

value_from-decimal : (n : ℕ) (cs : List ℕ) → value_from n cs ≡ n * 10 ^ length cs + decimal cs
unfolding value_from
value_from-decimal n [] = grind arith
value_from-decimal n (c ∷ cs) =
    value_from-decimal (n * 10 + (c - b'0')) cs
    ∙ next_place n (c - b'0') (10 ^ length cs) (decimal cs)
    ∙ ap (λ p. n * p + decimal (c ∷ cs)) (sym (pow-succ' 10 (length cs)))

atoi-decimal : (cs : List ℕ) → atoi cs ≡ min (decimal cs) max_int64
unfolding atoi
atoi-decimal cs = ground (arith, value_from-decimal 0 cs)

-- A duration is accepted exactly if it is a run of digits and one of the letters d, w and m. It stands for the
-- decimal number that the digits write, or the largest int if that is greater, times 1, 7 or 30 days, and this
-- product is wrapped to 64 bits.
pub parse_duration_iff :
    (value : String) (days : ℤ)
    → (parse_duration value ≡ some days) ↔ (
        (n : List ℕ) × (c : ℕ) × (each : ℕ) × (codes value ≡ n ++ c ∷ [])
        × AreDigits n
        × (n ≢ [])
        × IsUnit c each
        × (days ≡ wrap64 (pos (min (decimal n) max_int64 * each))))
unfolding parse_duration IsDuration
parse_duration_iff value days = (
  (λ h. elim (Option-cases (duration_re (codes value))) [
    | inl e ↦ absurd (ground arith)
    | inr ((n, c), e) ↦
        let (text, digits, given, unit) = duration_re_sound (codes value) n c e in
        (n, c, days_in c, text, digits, given, unit, ground (arith, atoi-decimal n))
  ]),
  (λ (n, c, each, text, digits, given, unit, same). ground (
    arith,
    duration_re_complete (codes value) n c each (text, digits, given, unit),
    (unit-not-digit c each unit).1,
    atoi-decimal n,
  )),
)
