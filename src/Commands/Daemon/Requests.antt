-- ===== src/Commands/Daemon/Requests.antt =====
-- The requests of the commands, as the daemon's routes take them.
use Prim.Native.String.{◌++◌}
use mathlib.Core.List.{◌++◌ as ◌+++◌}
use rune_admin.Prelude.{
  append_assoc, ℕ, ℤ, String, ◌≡◌, refl, ap, ◌∙◌, Bool, true, false, not, ◌==◌, if◌then◌else◌,
  Option, none, some, List, [], ◌∷◌, concat, arith, ◌⊎◌, Bool-cases, Option-cases, inl, inr,
}
use rune_admin.Tokens.Token.{Dates}
use rune_admin.Tokens.Store.{Store}
use rune_admin.Tokens.Store.Roles.{UpdateRoleOpts, update_role}
use rune_admin.Server.Admin.{is_unset, opt_of, put_role, serve_admin}
use rune_admin.Server.Admin.States.{role_response-state}
use rune_admin.Server.Admin.Mux.{route, serve_http}
use rune_admin.Commands.Client.{
  Value, text, number, texts, Fields, Result, ok, err, Request, do_request,
}
use rune_admin.Commands.Token.{print}
use rune_admin.Commands.Role.{split_csv, update_fields}
use rune_admin.Commands.Daemon.{IsPlain, Wire, body_of, send, field_of, field_of_option}

abbrev pub opt_if {ℓ} : {A : Type ℓ} → Bool → A → Option A
opt_if true a = some a
opt_if false a = none

pub IsPlain-tokens : IsPlain "tokens"
IsPlain-tokens = record { filled = refl; unreserved = refl }

pub IsPlain-roles : IsPlain "roles"
IsPlain-roles = record { filled = refl; unreserved = refl }

pub IsPlain-rotate : IsPlain "rotate"
IsPlain-rotate = record { filled = refl; unreserved = refl }

pub IsPlain-rotate_all : IsPlain "_rotate_all"
IsPlain-rotate_all = record { filled = refl; unreserved = refl }

pub print-state {ℓ} :
    {A : Type ℓ} (report : A → List String) (r : Store × Result A) → (print report r).0 ≡ r.0
unfolding print
print-state report (s, err e) = refl
print-state report (s, ok a) = refl

opt_of_field {ℓ} : {A : Type ℓ} (b : Bool) (a : A) → opt_of (field_of b a) ≡ some (opt_if b a)
unfolding opt_of
opt_of_field true a = refl
opt_of_field false a = refl

opt_of_option {ℓ} : {A : Type ℓ} (o : Option A) → opt_of (field_of_option o) ≡ some o
unfolding opt_of
opt_of_option none = refl
opt_of_option (some a) = refl

module _ (wire : Wire) where
  -- The changes that the flags of an update ask for.
  abbrev pub opts_of : String → Option ℤ → String → UpdateRoleOpts
  opts_of scope top_k limit = record {
    opt_scopes = opt_if (not (scope == "")) (split_csv wire.roles scope);
    opt_top_k = top_k;
    opt_rate_limit = opt_if (not (limit == "")) limit;
  }

  pub update_fields_cases :
      (scope : String) (top_k : Option ℤ) (limit : String)
      → ((update_fields wire.roles scope top_k limit ≡ [])
          × (is_unset (opts_of scope top_k limit) ≡ true))
        ⊎ ((f : String × Value) × (fs : Fields) × (update_fields wire.roles scope top_k limit
              ≡ f ∷ fs)
            × (is_unset (opts_of scope top_k limit) ≡ false))
  unfolding update_fields is_unset
  update_fields_cases scope top_k limit = elim (Bool-cases (scope == "")) [
    | inr e ↦ inr (
      ("scope", texts (split_csv wire.roles scope)),
      (elim top_k [ none ↦ [] | some n ↦ ("top_k", number n) ∷ [] ])
          +++ (if limit == "" then [] else ("rate_limit", text limit) ∷ []),
      rw (update_fields, e) refl,
      rw (is_unset, e) refl,
    )
    | inl e ↦ elim (Option-cases top_k) [
      | inr (n, f) ↦ inr (
        ("top_k", number n),
        (if limit == "" then [] else ("rate_limit", text limit) ∷ []),
        rw (update_fields, e, f) refl,
        rw (is_unset, e, f) refl,
      )
      | inl f ↦ elim (Bool-cases (limit == "")) [
        | inr g ↦ inr (
          ("rate_limit", text limit),
          [],
          rw (update_fields, e, f, g) refl,
          rw (is_unset, e, f, g) refl,
        )
        | inl g ↦ inl (rw (update_fields, e, f, g) refl, rw (is_unset, e, f, g) refl)
      ]
    ]
  ]

  pub put_role-state :
      (name scope : String) (top_k : Option ℤ) (limit : String) (s : Store)
      → is_unset (opts_of scope top_k limit) ≡ false
      → (put_role name
          (some (record {
            scopes = field_of (not (scope == "")) (split_csv wire.roles scope);
            top_k = field_of_option top_k;
            rate_limit = field_of (not (limit == "")) limit;
          }))
          s).0
        ≡ (update_role s name (opts_of scope top_k limit)).0
  unfolding put_role
  put_role-state name scope top_k limit s h =
      rw (put_role, opt_of_field, opt_of_option, opt_of_field, h, if◌then◌else◌)
        (role_response-state 200 _)

  -- The paths as the commands put them together.
  pub path_two :
      (a pre : String)
      → ("/" ++ a) ++ "/" ≡ pre
      → (b : String) → IsPlain a
      → IsPlain b
      → wire.segments (concat (pre ∷ b ∷ [])) ≡ some (a ∷ b ∷ [])
  path_two a pre same b plain_a plain_b =
      ap wire.segments (
        rw (← same) (append_assoc ("/" ++ a) "/" (b ++ "") ∙ append_assoc "/" a ("/" ++ (b ++ ""))))
      ∙ wire.segments_plain (a ∷ b ∷ []) (plain_a, (plain_b, tt))

  pub path_rotate :
      (user : String)
      → IsPlain user
      → wire.segments (concat ("/tokens/" ∷ user ∷ "/rotate" ∷ []))
        ≡ some ("tokens" ∷ user ∷ "rotate" ∷ [])
  path_rotate user plain =
      ap wire.segments (
        append_assoc "/tokens" "/" (user ++ "/rotate")
        ∙ append_assoc "/" "tokens" ("/" ++ (user ++ "/rotate")))
      ∙ wire.segments_plain ("tokens" ∷ user ∷ "rotate" ∷ [])
          (IsPlain-tokens, (plain, (IsPlain-rotate, tt)))

module _ (wire : Wire) (dates : Dates) (now : ℕ → ℕ) (entropy : ℕ → Option (List ℕ)) where
  pub do_request-state {ℓ} :
      {A : Type ℓ} (de : String → Option String) (dst : Option (String → Option A)) (first : A)
      (socket : String) (request : Request) (s : Store)
      → (do_request (send wire dates now entropy) de dst first socket request s).0
        ≡ (send wire dates now entropy socket request s).0
  unfolding do_request
  do_request-state de dst first socket request s = ground arith

  -- A request whose path has the given segments does what its route does.
  pub send-state :
      (socket method : String) (path : String) (body : Option String) (segs : List String)
      (s : Store)
      → wire.segments path ≡ some segs
      → (send wire dates now entropy socket
          (record { method = method; path = path; body = body })
          s).0
        ≡ (serve_admin dates now entropy (route wire.server (body_of body) method segs) s).0
  unfolding send serve_http
  send-state socket method path body segs s h = rw (send, h) refl
