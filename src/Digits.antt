-- ===== src/Digits.antt =====
-- Runs of decimal digits: the `\d+` of the program's two regular expressions, and `strconv.Atoi`.
use rune_admin.Prelude.{
  ℕ, ◌+◌, ◌-◌, ◌*◌, ◌≤◌, ◌≡◌, refl, Bool, true, false, ◌&&◌, List, [], ◌∷◌, ◌++◌, arith, ltb, leb,
  if◌then◌else◌, All,
}
use rune_admin.Machine.{max_int64}

-- `\d`, which is ASCII in Go's regular expressions.
unfoldable pub is_digit : ℕ → Bool
is_digit c = leb b'0' c && leb c b'9'

-- The longest run of digits at the front, and what follows it.
unfoldable pub leading : List ℕ → List ℕ
unfolding is_digit
leading [] = []
leading (c ∷ cs) = let rest = leading cs in if is_digit c then c ∷ rest else []

unfoldable pub trailing : List ℕ → List ℕ
unfolding is_digit
trailing [] = []
trailing (c ∷ cs) = let rest = trailing cs in if is_digit c then rest else c ∷ cs

abbrev pub is_empty : List ℕ → Bool
is_empty [] = true
is_empty (_ ∷ _) = false

abbrev pub AreDigits : List ℕ → Type 0
AreDigits = All (λ c. is_digit c ≡ true)

-- The number that a run of digits stands for, after the digits read so far.
unfoldable pub value_from : ℕ → List ℕ → ℕ
value_from n [] = n
value_from n (c ∷ cs) = value_from (n * 10 + (c - b'0')) cs

-- strconv.Atoi of a run of digits, whose error the callers drop: out of range it is the largest int.
unfoldable pub atoi : List ℕ → ℕ
unfolding value_from
atoi cs = let n = value_from 0 cs in if ltb max_int64 n then max_int64 else n

pub atoi-le-max_int64 : (cs : List ℕ) → atoi cs ≤ max_int64
unfolding atoi
atoi-le-max_int64 cs = ground arith

pub leading-append-trailing : (cs : List ℕ) → leading cs ++ trailing cs ≡ cs
unfolding leading trailing
leading-append-trailing [] = refl
leading-append-trailing (c ∷ cs) = ground (arith, leading-append-trailing cs)

pub leading-AreDigits : (cs : List ℕ) → AreDigits (leading cs)
unfolding leading
leading-AreDigits [] = tt
leading-AreDigits (c ∷ cs) = ground (arith, leading-AreDigits cs)

-- A run of digits before something else is found whole.
module _ (c : ℕ) (rest : List ℕ) (stop : is_digit c ≡ false) where
  pub leading-append : (ds : List ℕ) → AreDigits ds → leading (ds ++ c ∷ rest) ≡ ds
  unfolding leading
  leading-append [] h = ground arith
  leading-append (d ∷ ds) h = ground (arith, leading-append ds h.1)

  pub trailing-append : (ds : List ℕ) → AreDigits ds → trailing (ds ++ c ∷ rest) ≡ c ∷ rest
  unfolding trailing
  trailing-append [] h = ground arith
  trailing-append (d ∷ ds) h = ground (arith, trailing-append ds h.1)
