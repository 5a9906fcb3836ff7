-- ===== src/Tokens/Files/RoundTrip.antt =====
-- What a restart finds: loading the files that a persist wrote gives back the roles and the tokens.
use rune_admin.Prelude.{
  String, ◌≡◌, ◌≢◌, refl, ◌∙◌, ap, Bool, true, false, ◌||◌, ◌&&◌, Option, none, some, List, [], ◌∷◌,
  map, arith, ◌==◌, eq_iff, if◌then◌else◌, All, Bool-cases, Option-cases, inl, inr,
}
use rune_admin.Dict.{Dict, get, put, keys, empty, get-put, get-empty, contains-keys}
use rune_admin.Dict.Assoc.{is_some, contains}
use rune_admin.Digits.{leading, trailing}
use rune_admin.Tokens.Role.{Role, default_roles, validate_rate_limit}
use rune_admin.Tokens.Token.{Token}
use rune_admin.Tokens.Store.{Store}
use rune_admin.Tokens.Store.Consistent.{IsIndexed}
use rune_admin.Tokens.Store.Issue.{store_token}
use rune_admin.Tokens.Files.{
  RoleEntry, ReadToken, read_back, put_entries, written, written_tokens, roles_doc, is_zero,
  loaded_role, load_roles, fill_defaults, loaded_token, load_tokens,
}

abbrev pub entry_of : Role → RoleEntry
entry_of r = record { scopes = r.scopes; top_k = r.top_k; rate_limit = r.rate_limit }

abbrev pub map_option {ℓ κ} : {A : Type ℓ} {B : Type κ} → (A → B) → Option A → Option B
map_option f none = none
map_option f (some a) = some (f a)

-- The roles document holds each role's fields.
get-put_entries :
    (roles : Dict Role) (ns : List String) (doc : Dict RoleEntry) (n : String)
    → get (put_entries roles ns doc) n ≡ (
        if contains ns n && is_some (get roles n)
        then map_option entry_of (get roles n)
        else get doc n)
unfolding put_entries contains
get-put_entries roles [] doc n = refl
get-put_entries roles (m ∷ ns) doc n = elim (Option-cases (get roles m)) [
  | inl e ↦ rw (e, get-put_entries roles ns doc n) (ground (arith, eq_iff m n))
  | inr (r, e) ↦
      rw (e, get-put_entries roles ns (put doc m (entry_of r)) n)
        (ground (arith, eq_iff m n, get-put doc m n (entry_of r)))
]

pub get-roles_doc :
    (s : Store) (n : String) → get (roles_doc s) n ≡ map_option entry_of (get s.roles n)
unfolding roles_doc
get-roles_doc s n = ground (
  arith,
  get-put_entries s.roles (keys s.roles) empty n,
  contains-keys s.roles n,
  get-empty {V = RoleEntry} n,
)

-- Loading a document puts each of its roles into the map.
pub get-load_roles :
    (doc : Dict RoleEntry) (ns : List String) (roles : Dict Role) (n : String)
    → get (load_roles doc ns roles) n ≡ (
        if contains ns n && is_some (get doc n)
        then map_option (loaded_role n) (get doc n)
        else get roles n)
unfolding load_roles contains
get-load_roles doc [] roles n = refl
get-load_roles doc (m ∷ ns) roles n = elim (Option-cases (get doc m)) [
  | inl e ↦ rw (e, get-load_roles doc ns roles n) (ground (arith, eq_iff m n))
  | inr (cfg, e) ↦
      rw (e, get-load_roles doc ns (put roles m (loaded_role m cfg)) n)
        (ground (arith, eq_iff m n, get-put roles m n (loaded_role m cfg)))
]

no_empty_limit : validate_rate_limit "" ≢ none
unfolding validate_rate_limit leading trailing
no_empty_limit h = cc

limit_given : (s : String) → validate_rate_limit s ≡ none → (s == "") ≡ false
limit_given s h = elim (Bool-cases (s == "")) [
  | inr e ↦ e
  | inl e ↦ absurd (no_empty_limit (rw ((eq_iff s "").0 e) at h))
]

-- A well-formed role with a limit on results comes back as it was.
pub loaded_role-entry_of :
    (n : String) (r : Role)
    → r.name ≡ n
    → validate_rate_limit r.rate_limit ≡ none
    → is_zero r.top_k ≡ false
    → loaded_role n (entry_of r) ≡ r
unfolding loaded_role
loaded_role-entry_of n r named good top = ground (arith, limit_given r.rate_limit good)

loaded_token-written : (t : Token) → loaded_token (read_back (written t)) ≡ t
unfolding loaded_token written
loaded_token-written t = ground (arith, eq_iff t.expires "", eq_iff t.issued_at "")

pub fill_defaults-has :
    (roles : Dict Role)
    → is_some (get roles "admin") ≡ true
    → is_some (get roles "member") ≡ true
    → fill_defaults default_roles roles ≡ roles
unfolding fill_defaults
fill_defaults-has roles a b = ground arith

-- Whether a token with a text, or of a user, is among those loaded.
pub has_text : List Token → String → Bool
has_text [] t = false
has_text (tok ∷ toks) t = tok.token == t || has_text toks t

pub has_name : List Token → String → Bool
has_name [] u = false
has_name (tok ∷ toks) u = tok.user == u || has_name toks u

abbrev pub as_read : List Token → List ReadToken
as_read toks = map (λ t. read_back (written t)) toks

-- Each of some tokens stands in both of the maps.
abbrev pub AreIndexed : Dict Token → Dict Token → List Token → Type 0
AreIndexed tokens by_user =
    All (λ tok. (get tokens tok.token ≡ some tok) × (get by_user tok.user ≡ some tok))

load_tokens-cons :
    (tok : Token) (toks : List Token) (s : Store)
    → load_tokens (as_read (tok ∷ toks)) s ≡ load_tokens (as_read toks) (store_token s tok)
unfolding load_tokens
load_tokens-cons tok toks s =
    ap (λ k. load_tokens (as_read toks) (store_token s k)) (loaded_token-written tok)

load_tokens-nil : (s : Store) → load_tokens [] s ≡ s
unfolding load_tokens
load_tokens-nil s = refl

module _ (tokens by_user : Dict Token) where
  pub load_tokens-get :
      (toks : List Token) (s : Store)
      → AreIndexed tokens by_user toks
      → ((t : String)
          → get (load_tokens (as_read toks) s).tokens t
            ≡ (if has_text toks t then get tokens t else get s.tokens t))
        × ((u : String)
            → get (load_tokens (as_read toks) s).tokens_by_user u
              ≡ (if has_name toks u then get by_user u else get s.tokens_by_user u))
  unfolding has_text has_name
  load_tokens-get [] s h = rw load_tokens-nil ((λ t. refl), (λ u. refl))
  load_tokens-get (tok ∷ toks) s h =
      let rest = load_tokens-get toks (store_token s tok) h.1 in
      rw load_tokens-cons (
        (λ t. rest.0 t ∙ ground (arith, get-put s.tokens tok.token t tok, eq_iff tok.token t)),
        (λ u.
            rest.1 u ∙ ground (arith, get-put s.tokens_by_user tok.user u tok, eq_iff tok.user u)),
      )

-- The tokens of some users.
pub tokens_of : Dict Token → List String → List Token
tokens_of by_user [] = []
tokens_of by_user (u ∷ us) = elim (get by_user u) [
  | none ↦ tokens_of by_user us
  | some t ↦ t ∷ tokens_of by_user us
]

pub written_tokens-map :
    (by_user : Dict Token) (us : List String)
    → map read_back (written_tokens by_user us) ≡ as_read (tokens_of by_user us)
unfolding written_tokens tokens_of
written_tokens-map by_user [] = refl
written_tokens-map by_user (u ∷ us) = ground (arith, written_tokens-map by_user us)

module _ (tokens by_user : Dict Token) (x : IsIndexed tokens by_user) where
  pub AreIndexed-tokens_of : (us : List String) → AreIndexed tokens by_user (tokens_of by_user us)
  unfolding tokens_of
  AreIndexed-tokens_of [] = tt
  AreIndexed-tokens_of (u ∷ us) = elim (Option-cases (get by_user u)) [
    | inl e ↦ rw (e, tokens_of) (AreIndexed-tokens_of us)
    | inr (tok, e) ↦
        let (named, texted) = x.by_name u tok e in
        rw (e, tokens_of) ((texted, ap (get by_user) named ∙ e), AreIndexed-tokens_of us)
  ]

  pub has_name-tokens_of :
      (us : List String) (u : String)
      → has_name (tokens_of by_user us) u ≡ (contains us u && is_some (get by_user u))
  unfolding has_name tokens_of contains
  has_name-tokens_of [] u = refl
  has_name-tokens_of (v ∷ us) u = elim (Option-cases (get by_user v)) [
    | inl e ↦ ground (arith, has_name-tokens_of us u, eq_iff v u)
    | inr (tok, e) ↦ ground (arith, has_name-tokens_of us u, eq_iff v u, x.by_name v tok e)
  ]

  -- The text of a user's token is found among the tokens of users who include that user.
  pub has_text-tokens_of :
      (us : List String) (tok : Token)
      → get by_user tok.user ≡ some tok
      → contains us tok.user ≡ true
      → has_text (tokens_of by_user us) tok.token ≡ true
  unfolding has_text tokens_of contains
  has_text-tokens_of [] tok held there = cc
  has_text-tokens_of (v ∷ us) tok held there = elim (Option-cases (get by_user v)) [
    | inl e ↦ ground (arith, has_text-tokens_of us tok held, eq_iff v tok.user)
    | inr (other, e) ↦
        ground
          (arith, has_text-tokens_of us tok held, eq_iff v tok.user, eq_iff other.token tok.token)
  ]
