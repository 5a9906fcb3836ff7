-- ===== src/Examples/Data.antt =====
-- Concrete parameters: dates and documents in the plain encoding, a cipher without a key, and a store.
use rune_admin.Prelude.{
  ℕ, zero, suc, ℤ, pos, negsuc, String, ◌≡◌, ◌≢◌, refl, Bool, true, false, Option, none, some, List,
  [], ◌∷◌, map, ap, arith,
}
use rune_admin.Dict.{Dict, get, put, empty, get-empty}
use rune_admin.Tokens.Errors.{ok}
use rune_admin.Tokens.Role.{member_role}
use rune_admin.Tokens.Token.{Token, Dates, expiry_date}
use rune_admin.Tokens.Files.{RoleEntry, WrittenToken, ReadToken, read_back, Yaml}
use rune_admin.Tokens.Store.{Store}
use rune_admin.Tokens.Store.Access.{Clocks}
use rune_admin.Tokens.Store.Issue.{add_token}
use rune_admin.Tokens.Store.Invariant.{IsConsistent, IsFresh, add_token-IsConsistent}
use rune_admin.Tokens.Store.Invariant.OfRoles.{default_store, default_store-IsConsistent}
use rune_admin.Crypto.Metadata.{Primitives}
use rune_admin.Examples.Codec.{
  Codec, numbers, texts, pairs, translated, lists, decode, decode-write,
}

pub date_text : ℤ → String
date_text (pos d) = String.◌∷◌ "d" (numbers.write d "")
date_text (negsuc d) = "BC"

pub date_of : String → Option ℕ
date_of String.[] = none
date_of (String.◌∷◌ _ s) = decode numbers s

has_text : String → Bool
has_text String.[] = false
has_text (String.◌∷◌ _ _) = true

date_text-ne-empty : (d : ℤ) → date_text d ≢ ""
unfolding date_text has_text
date_text-ne-empty (pos d) h = let e = ap has_text h in cc
date_text-ne-empty (negsuc d) h = let e = ap has_text h in cc

date_of-date_text : (d : ℕ) → date_of (date_text (pos d)) ≡ some d
unfolding date_of date_text
date_of-date_text d = decode-write numbers d

pub dates : Dates
dates = record {
  parse_date = date_of;
  format_date = date_text;
  format_date-ne-empty = date_text-ne-empty;
  parse_date-format_date = λ d h. date_of-date_text d;
}

sign : ℤ → ℕ × ℕ
sign (pos n) = (0, n)
sign (negsuc n) = (1, n)

signed : ℕ × ℕ → ℤ
signed (zero, n) = pos n
signed (suc _, n) = negsuc n

signed-sign : (z : ℤ) → signed (sign z) ≡ z
unfolding signed sign
signed-sign (pos n) = refl
signed-sign (negsuc n) = refl

integers : Codec ℤ
integers = translated (pairs numbers numbers) sign signed signed-sign

optional : Option String → List String
optional none = []
optional (some e) = e ∷ []

first_of : List String → Option String
first_of [] = none
first_of (e ∷ _) = some e

first_of-optional : (o : Option String) → first_of (optional o) ≡ o
unfolding first_of optional
first_of-optional none = refl
first_of-optional (some e) = refl

roles_codec : Codec (Dict RoleEntry)
roles_codec =
    translated
      (lists (
        pairs texts (
          translated (pairs (lists texts) (pairs integers texts))
            (λ (e : RoleEntry). (e.scopes, (e.top_k, e.rate_limit)))
            (λ p. record { scopes = p.0; top_k = p.1.0; rate_limit = p.1.1 }) (λ e. refl))))
      (λ (d : Dict RoleEntry). d.entries) (λ es. record { entries = es }) (λ d. refl)

tokens_codec : Codec (List WrittenToken)
tokens_codec = lists (
    translated
      (pairs (pairs texts texts)
        (pairs (pairs texts texts) (translated (lists texts) optional first_of first_of-optional)))
      (λ (t : WrittenToken). ((t.user, t.token), ((t.role, t.issued_at), t.expires)))
      (λ p. record {
        user = p.0.0;
        token = p.0.1;
        role = p.1.0.0;
        issued_at = p.1.0.1;
        expires = p.1.1;
      })
      (λ t. refl))

read_tokens : String → Option (List ReadToken)
read_tokens text = elim (decode tokens_codec text) [
  | none ↦ none
  | some doc ↦ some (map read_back doc)
]

pub yaml : Yaml
unfolding read_tokens
yaml = record {
  encode_roles = λ doc. roles_codec.write doc "";
  decode_roles = decode roles_codec;
  encode_tokens = λ doc. tokens_codec.write doc "";
  decode_tokens = read_tokens;
  decode-encode_roles = λ doc. (doc, decode-write roles_codec doc, (λ n. refl));
  decode-encode_tokens = λ doc. ground (arith, decode-write tokens_codec doc);
}

-- A cipher whose key stream is zero.
bytes_codec : Codec (List ℕ)
bytes_codec = lists numbers

abbrev pub zeros : List ℕ
zeros =
    0 ∷ 0 ∷ 0 ∷ 0 ∷ 0 ∷ 0 ∷ 0 ∷ 0 ∷ 0 ∷ 0 ∷ 0 ∷ 0 ∷ 0 ∷ 0 ∷ 0 ∷ 0 ∷ 0 ∷ 0 ∷ 0 ∷ 0 ∷ 0 ∷ 0 ∷ 0 ∷ 0
    ∷ 0 ∷ 0 ∷ 0 ∷ 0 ∷ 0 ∷ 0 ∷ 0 ∷ 0 ∷ []

pub primitives : Primitives
primitives = record {
  hkdf = λ _ _. zeros;
  sha256_hex = λ token. token;
  keystream = λ _ _ _. 0;
  encode64 = λ bs. bytes_codec.write bs "";
  decode64 = decode bytes_codec;
  hkdf-length = λ _ _. refl;
  keystream-lt = λ _ _ _. omega arith;
  decode64-encode64 = λ bs h. decode-write bytes_codec bs;
}

abbrev pub bytes_of : ℕ → List ℕ
bytes_of n = n ∷ 1 ∷ 2 ∷ 3 ∷ 4 ∷ 5 ∷ 6 ∷ 7 ∷ 8 ∷ 9 ∷ 10 ∷ 11 ∷ 12 ∷ 13 ∷ 14 ∷ 15 ∷ []

abbrev pub clocks : Clocks
clocks = record { store_now = 5; limiter_now = 5; retry_now = 5 }

-- The default roles with paths for the two files, and then a token of "bob" as a member.
abbrev pub fresh_store : Store
fresh_store = record default_store { roles_path = "roles.yml"; tokens_path = "tokens.yml" }

pub fresh_store-IsConsistent : IsConsistent fresh_store
fresh_store-IsConsistent =
    let c = default_store-IsConsistent in
    record {
      indexed = c.indexed;
      assigned = c.assigned;
      well_formed = c.well_formed;
      has_defaults = c.has_defaults;
      limited = c.limited;
    }

abbrev pub bob_text : String
bob_text = "evt_000102030405060708090a0b0c0d0e0f"

abbrev pub bob : Token
bob = record {
  user = "bob";
  token = bob_text;
  role = "member";
  issued_at = dates.format_date (pos 0);
  expires = "";
}

abbrev pub bob_store : Store
bob_store = (add_token dates 0 (some (bytes_of 0)) fresh_store "bob" "member" none).0

pub issued :
    add_token dates 0 (some (bytes_of 0)) fresh_store "bob" "member" none ≡ (bob_store, ok bob)
unfolding add_token get put empty expiry_date
issued = refl

pub bob_held : get bob_store.tokens_by_user "bob" ≡ some bob
unfolding add_token get put empty expiry_date
bob_held = refl

pub bob_stored : get bob_store.tokens bob_text ≡ some bob
unfolding add_token get put empty expiry_date
bob_stored = refl

pub member_there : get bob_store.roles "member" ≡ some member_role
unfolding add_token get put empty expiry_date
member_there = refl

pub IsFresh-bytes : (n : ℕ) → IsFresh fresh_store (some (bytes_of n))
IsFresh-bytes n text h = get-empty {V = Token} text

pub bob_store-IsConsistent : IsConsistent bob_store
bob_store-IsConsistent =
    add_token-IsConsistent dates 0 (some (bytes_of 0)) fresh_store fresh_store-IsConsistent
      (IsFresh-bytes 0) "bob" "member" none
