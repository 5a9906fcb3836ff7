-- ===== src/Examples/Wire.antt =====
-- A wire between a command and the daemon: paths that are split at their slashes, and the plain text encoding in
-- place of JSON.
use package.text.Mathlib.TextLemmas.{cons-append, nil-append}
use Prim.Native.Char.{Char}
use Prim.Native.String.{◌++◌}
use rune_admin.Prelude.{
  ℕ, zero, suc, ℤ, pos, String, codes, code, ◌≡◌, refl, ap, ◌∙◌, Bool, true, false, not, ◌==◌,
  ◌==ℕ◌, if◌then◌else◌, Option, none, some, List, [], ◌∷◌, All, arith, Bool-cases, inl, inr,
}
use rune_admin.Examples.Codec.{
  Codec, numbers, texts, pairs, translated, lists, integers, decode, decode-write,
  write_list-filled,
}
use rune_admin.Server.Admin.{TokenBody, RoleBody, RoleChange, Answer, token_json}
use rune_admin.Server.Admin.Mux.{AdminJson}
use rune_admin.Commands.Client.{Value, Fields}
use rune_admin.Commands.Client as Client
use rune_admin.Commands.Token.{TokenJson, TokenResult, issue_fields}
use rune_admin.Commands.Role.{RoleJson, create_fields, update_fields, split_csv}
use rune_admin.Commands.Daemon.{IsPlain, Wire, path_of, all_unreserved, field_of, field_of_option}

prepend : Char → List String → List String
prepend c [] = String.◌∷◌ c "" ∷ []
prepend c (w ∷ ws) = String.◌∷◌ c w ∷ ws

-- The parts of a text between its slashes.
split_path : String → List String
unfolding prepend
split_path String.[] = "" ∷ []
split_path (String.◌∷◌ c s) =
    let rest = split_path s in if code c ==ℕ b'/' then "" ∷ rest else prepend c rest

split_plain :
    (a rest : String) {ws : List String}
    → all_unreserved (codes a) ≡ true
    → split_path rest ≡ "" ∷ ws
    → split_path (a ++ rest) ≡ a ∷ ws
unfolding split_path prepend
split_plain String.[] rest h e = rw nil-append e
split_plain (String.◌∷◌ c s) rest h e =
    let plain : (code c ==ℕ b'/') ≡ false = ground arith in
    let more : all_unreserved (codes s) ≡ true = ground arith in
    rw (cons-append c s rest) (rw (split_path, plain, split_plain s rest more e) refl)

slash : (s : String) → "/" ++ s ≡ String.◌∷◌ "/" s
slash s = cons-append "/" "" s ∙ ap (λ (t : String). String.◌∷◌ "/" t) (nil-append s)

split_path_of : (as_ : List String) → All IsPlain as_ → split_path (path_of as_) ≡ "" ∷ as_
unfolding split_path
split_path_of [] h = refl
split_path_of (a ∷ as_) h =
    let rest = split_plain a (path_of as_) h.0.unreserved (split_path_of as_ h.1) in
    rw (slash (a ++ path_of as_)) (rw rest refl)

tail_of : List String → Option (List String)
tail_of [] = none
tail_of (_ ∷ ws) = some ws

abbrev segments : String → Option (List String)
segments path = tail_of (split_path path)

segments_plain : (as_ : List String) → All IsPlain as_ → segments (path_of as_) ≡ some as_
unfolding tail_of
segments_plain as_ h = rw (split_path_of as_ h) refl

-- A value with the number of its kind.
abbrev Plain : Type 0
Plain = ℕ × (String × (ℤ × List String))

of_value : Value → Plain
of_value (Client.text t) = (0, (t, (pos 0, [])))
of_value (Client.number n) = (1, ("", (n, [])))
of_value (Client.texts ts) = (2, ("", (pos 0, ts)))

to_value : Plain → Value
to_value (zero, (t, _)) = Client.text t
to_value (suc zero, (_, (n, _))) = Client.number n
to_value (suc (suc _), (_, (_, ts))) = Client.texts ts

to_value-of_value : (v : Value) → to_value (of_value v) ≡ v
unfolding to_value of_value
to_value-of_value (Client.text t) = refl
to_value-of_value (Client.number n) = refl
to_value-of_value (Client.texts ts) = refl

values : Codec Value
values =
    translated (pairs numbers (pairs texts (pairs integers (lists texts)))) of_value to_value
      to_value-of_value

named : Codec (String × Value)
named = pairs texts values

abbrev encode : Fields → String
encode fs = (lists named).write fs ""

abbrev parse : String → Option Fields
parse = decode (lists named)

parse-encode : (fs : Fields) → parse (encode fs) ≡ some fs
parse-encode fs = decode-write (lists named) fs

find : String → Fields → Option Value
find k [] = none
find k ((j, v) ∷ fs) = let rest = find k fs in if j == k then some v else rest

abbrev text_of : Option Value → String
text_of (some (Client.text t)) = t
text_of _ = ""

abbrev texts_of : Option Value → List String
texts_of (some (Client.texts ts)) = ts
texts_of _ = []

abbrev number_of : Option Value → Option ℤ
number_of (some (Client.number n)) = some n
number_of _ = none

abbrev then_read {ℓ} : {A : Type ℓ} → (Fields → A) → Option Fields → Option A
then_read f none = none
then_read f (some fs) = some (f fs)

token_of : Fields → TokenBody
token_of fs = record {
  user = text_of (find "user" fs);
  role = text_of (find "role" fs);
  expires_days = number_of (find "expires_days" fs);
}

role_of : Fields → RoleBody
role_of fs = record {
  name = text_of (find "name" fs);
  scopes = texts_of (find "scope" fs);
  top_k = number_of (find "top_k" fs);
  rate_limit = text_of (find "rate_limit" fs);
}

is_there : Option Value → Bool
is_there none = false
is_there (some _) = true

change_of : Fields → RoleChange
change_of fs = record {
  scopes = field_of (is_there (find "scope" fs)) (texts_of (find "scope" fs));
  top_k = field_of_option (number_of (find "top_k" fs));
  rate_limit = field_of (is_there (find "rate_limit" fs)) (text_of (find "rate_limit" fs));
}

abbrev five : Option (List String) → Option TokenResult
five (some (u ∷ t ∷ r ∷ i ∷ e ∷ [])) =
    some (record { user = u; token = t; role = r; issued_at = i; expires = e })
five _ = none

abbrev marshal : Answer → Option String
marshal (token_json u t r i e) = some ((lists texts).write (u ∷ t ∷ r ∷ i ∷ e ∷ []) "")
marshal _ = some "."

abbrev server : AdminJson
server = record {
  decode_token = λ s. then_read token_of (parse s);
  decode_role = λ s. then_read role_of (parse s);
  decode_change = λ s. then_read change_of (parse s);
  marshal = marshal;
}

abbrev token_json_ : TokenJson
token_json_ = record {
  encode = encode;
  decode_error = λ s. none;
  decode_result = λ s. five (decode (lists texts) s);
  decode_message = λ s. some s;
  decode_rotated = λ s. none;
  decode_rows = λ s. none;
  show = λ n. "0";
}

abbrev role_json_ : RoleJson
role_json_ = record {
  encode = encode;
  decode_error = λ s. none;
  decode_roles = λ s. none;
  show = λ n. "0";
  split_comma = λ s. s ∷ [];
  trim = λ s. s;
}

issued_body :
    (user role : String) (days : Option ℤ)
    → token_of (issue_fields user role days)
      ≡ record { user = user; role = role; expires_days = days }
unfolding token_of find issue_fields
issued_body user role none = refl
issued_body user role (some d) = refl

changed_body :
    (scope : String) (top_k : Option ℤ) (limit : String)
    → change_of (update_fields role_json_ scope top_k limit) ≡ record {
      scopes = field_of (not (scope == "")) (split_csv role_json_ scope);
      top_k = field_of_option top_k;
      rate_limit = field_of (not (limit == "")) limit;
    }
unfolding change_of find is_there update_fields
changed_body scope none limit = elim (Bool-cases (scope == "")) [
  | inl e ↦ elim (Bool-cases (limit == "")) [
    | inl f ↦ rw (update_fields, e, f) refl
    | inr f ↦ rw (update_fields, e, f) refl
  ]
  | inr e ↦ elim (Bool-cases (limit == "")) [
    | inl f ↦ rw (update_fields, e, f) refl
    | inr f ↦ rw (update_fields, e, f) refl
  ]
]
changed_body scope (some n) limit = elim (Bool-cases (scope == "")) [
  | inl e ↦ elim (Bool-cases (limit == "")) [
    | inl f ↦ rw (update_fields, e, f) refl
    | inr f ↦ rw (update_fields, e, f) refl
  ]
  | inr e ↦ elim (Bool-cases (limit == "")) [
    | inl f ↦ rw (update_fields, e, f) refl
    | inr f ↦ rw (update_fields, e, f) refl
  ]
]

pub wire : Wire
unfolding role_of find create_fields
wire = record {
  segments = segments;
  server = server;
  tokens = token_json_;
  roles = role_json_;
  segments_plain = segments_plain;
  token_filled = λ fs. write_list-filled named fs "";
  role_filled = λ fs. write_list-filled named fs "";
  token_body = λ user role days.
      rw (parse-encode (issue_fields user role days), issued_body user role days) refl;
  role_body = λ name scope top_k limit.
      rw (parse-encode (create_fields role_json_ name scope top_k limit)) refl;
  change_body = λ scope top_k limit.
      rw (parse-encode (update_fields role_json_ scope top_k limit), changed_body scope top_k limit)
        refl;
  token_answer = λ user token role issued_at expires.
      let l = user ∷ token ∷ role ∷ issued_at ∷ expires ∷ [] in
      (
        (lists texts).write l "",
        refl,
        write_list-filled texts l "",
        rw (decode-write (lists texts) l) refl,
      );
}
