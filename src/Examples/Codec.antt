-- ===== src/Examples/Codec.antt =====
-- A plain text encoding of nested lists of numbers and texts, which stands in for YAML and base64
-- in the examples. A value's text is written in front of a given rest, and read back with it.
use Prim.Native.Char.{Char}
use rune_admin.Prelude.{
  ℕ, zero, suc, String, ◌≡◌, refl, Option, none, some, List, arith, length, code, ◌==ℕ◌,
  if◌then◌else◌, [], ◌∷◌, ap, ℤ, pos, negsuc, ◌==◌, eq_iff, false, Bool-cases, inl, inr,
}

pub record Codec {ℓ} (A : Type ℓ) : Type ℓ where
  pub write : A → String → String
  pub read : String → Option (A × String)
  pub read-write : (a : A) (rest : String) → read (write a rest) ≡ some (a, rest)

-- A number in unary, with a full stop.
write_number : ℕ → String → String
write_number zero rest = String.◌∷◌ "." rest
write_number (suc n) rest = String.◌∷◌ "x" (write_number n rest)

one_more : Option (ℕ × String) → Option (ℕ × String)
one_more none = none
one_more (some (n, rest)) = some (suc n, rest)

read_number : String → Option (ℕ × String)
unfolding one_more
read_number String.[] = none
read_number (String.◌∷◌ c s) =
    let more = read_number s in if code c ==ℕ b'x' then one_more more else some (zero, s)

read-write_number : (n : ℕ) (rest : String) → read_number (write_number n rest) ≡ some (n, rest)
unfolding read_number write_number
read-write_number zero rest = refl
read-write_number (suc n) rest = ap one_more (read-write_number n rest)

pub numbers : Codec ℕ
numbers = record { write = write_number; read = read_number; read-write = read-write_number }

-- A text, with a mark in front of each character.
write_text : String → String → String
write_text String.[] rest = String.◌∷◌ "." rest
write_text (String.◌∷◌ c s) rest = String.◌∷◌ "x" (String.◌∷◌ c (write_text s rest))

one_before : Char → Option (String × String) → Option (String × String)
one_before c none = none
one_before c (some (s, rest)) = some (String.◌∷◌ c s, rest)

read_text : String → Option (String × String)
unfolding one_before
read_text String.[] = none
read_text (String.◌∷◌ m String.[]) = if code m ==ℕ b'x' then none else some (String.[], String.[])
read_text (String.◌∷◌ m (String.◌∷◌ c s)) =
    let more = read_text s in
    if code m ==ℕ b'x' then one_before c more else some (String.[], String.◌∷◌ c s)

read-write_text : (s rest : String) → read_text (write_text s rest) ≡ some (s, rest)
unfolding read_text write_text
read-write_text String.[] String.[] = refl
read-write_text String.[] (String.◌∷◌ c rest) = refl
read-write_text (String.◌∷◌ c s) rest = ap (one_before c) (read-write_text s rest)

pub texts : Codec String
texts = record { write = write_text; read = read_text; read-write = read-write_text }

module _ {ℓ κ} {A : Type ℓ} {B : Type κ} where
  read_second : Codec B → A → String → Option ((A × B) × String)
  read_second cb a s = elim (cb.read s) [ none ↦ none | some (b, rest) ↦ some ((a, b), rest) ]

  read_pair : Codec A → Codec B → String → Option ((A × B) × String)
  unfolding read_second
  read_pair ca cb s = elim (ca.read s) [ none ↦ none | some (a, rest) ↦ read_second cb a rest ]

  read-write_pair :
      (ca : Codec A) (cb : Codec B) (p : A × B) (rest : String)
      → read_pair ca cb (ca.write p.0 (cb.write p.1 rest)) ≡ some (p, rest)
  unfolding read_pair read_second
  read-write_pair ca cb (a, b) rest =
      ground (arith, ca.read-write a (cb.write b rest), cb.read-write b rest)

  pub pairs : Codec A → Codec B → Codec (A × B)
  pairs ca cb = record {
    write = λ p rest. ca.write p.0 (cb.write p.1 rest);
    read = read_pair ca cb;
    read-write = read-write_pair ca cb;
  }

  read_as : Codec A → (A → B) → String → Option (B × String)
  read_as ca g s = elim (ca.read s) [ none ↦ none | some (a, rest) ↦ some (g a, rest) ]

  -- Another type of the same values.
  pub translated : Codec A → (f : B → A) (g : A → B) → ((b : B) → g (f b) ≡ b) → Codec B
  unfolding read_as
  translated ca f g back = record {
    write = λ b. ca.write (f b);
    read = read_as ca g;
    read-write = λ b rest. ground (arith, ca.read-write (f b) rest, back b);
  }

module _ {ℓ} {A : Type ℓ} (ca : Codec A) where
  write_list : List A → String → String
  write_list [] rest = rest
  write_list (x ∷ xs) rest = ca.write x (write_list xs rest)

  read_list : ℕ → String → Option (List A × String)
  read_list zero s = some ([], s)
  read_list (suc n) s = elim (ca.read s) [
    | none ↦ none
    | some (x, rest) ↦ elim (read_list n rest) [
      | none ↦ none
      | some (xs, rest') ↦ some (x ∷ xs, rest')
    ]
  ]

  read-write_list :
      (xs : List A) (rest : String) → read_list (length xs) (write_list xs rest) ≡ some (xs, rest)
  unfolding read_list write_list
  read-write_list [] rest = refl
  read-write_list (x ∷ xs) rest =
      rw (ca.read-write x (write_list xs rest)) (rw (read-write_list xs rest) refl)

  read_counted : String → Option (List A × String)
  unfolding read_list
  read_counted s = elim (read_number s) [ none ↦ none | some (n, rest) ↦ read_list n rest ]

  -- A list, after its length.
  pub lists : Codec (List A)
  unfolding read_counted
  lists = record {
    write = λ xs rest. write_number (length xs) (write_list xs rest);
    read = read_counted;
    read-write = λ xs rest.
        ground (arith, read-write_number (length xs) (write_list xs rest), read-write_list xs rest);
  }

-- The value whose text stands alone.
pub decode {ℓ} : {A : Type ℓ} → Codec A → String → Option A
decode ca s = elim (ca.read s) [ none ↦ none | some (a, _) ↦ some a ]

pub decode-write {ℓ} : {A : Type ℓ} (ca : Codec A) (a : A) → decode ca (ca.write a "") ≡ some a
unfolding decode
decode-write ca a = ground (arith, ca.read-write a "")

-- Another alphabet of the same numbers and their signs.
of_int : ℤ → ℕ × ℕ
of_int (pos n) = (0, n)
of_int (negsuc n) = (1, n)

to_int : ℕ × ℕ → ℤ
to_int (zero, n) = pos n
to_int (suc _, n) = negsuc n

to_int-of_int : (i : ℤ) → to_int (of_int i) ≡ i
unfolding to_int of_int
to_int-of_int (pos n) = refl
to_int-of_int (negsuc n) = refl

pub integers : Codec ℤ
integers = translated (pairs numbers numbers) of_int to_int to_int-of_int

cons_filled : (c : Char) (s : String) → (String.◌∷◌ c s == "") ≡ false
cons_filled c s = elim (Bool-cases (String.◌∷◌ c s == "")) [
  | inl e ↦ absurd (let same = (eq_iff (String.◌∷◌ c s) "").0 e in cc)
  | inr e ↦ e
]

-- The text of a list is never empty.
pub write_list-filled {ℓ} :
    {A : Type ℓ} (ca : Codec A) (xs : List A) (rest : String)
    → ((lists ca).write xs rest == "") ≡ false
unfolding lists write_number
write_list-filled ca [] rest = cons_filled _ _
write_list-filled ca (x ∷ xs) rest = cons_filled _ _
