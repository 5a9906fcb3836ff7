-- ===== src/Tokens/Store/Consistent.antt =====
-- The invariant of the store: the two token maps hold the same tokens, each under its own text and
-- its own user, and every token has a role.
use rune_admin.Prelude.{String, ◌≡◌, none, some, arith, eq_iff}
use rune_admin.Dict.{Dict, get, put, remove, get-put, get-remove, empty, get-empty}
use rune_admin.Tokens.Token.{Token}

pub record IsIndexed (tokens by_user : Dict Token) : Type 0 where
  pub by_text :
      (t : String) (tok : Token)
      → get tokens t ≡ some tok
      → (tok.token ≡ t) × (get by_user tok.user ≡ some tok)
  pub by_name :
      (u : String) (tok : Token)
      → get by_user u ≡ some tok
      → (tok.user ≡ u) × (get tokens tok.token ≡ some tok)

pub empty-IsIndexed : IsIndexed empty empty
empty-IsIndexed = record {
  by_text = λ t tok h. cc (get-empty {V = Token} t);
  by_name = λ u tok h. cc (get-empty {V = Token} u);
}

-- A token with a new text, for a user who has none, can be added.
pub put-IsIndexed :
    (tokens by_user : Dict Token) (tok : Token)
    → IsIndexed tokens by_user
    → get tokens tok.token ≡ none
    → get by_user tok.user ≡ none
    → IsIndexed (put tokens tok.token tok) (put by_user tok.user tok)
put-IsIndexed tokens by_user tok s new_text new_user = record {
  by_text = λ t other h. ground (
    arith,
    get-put tokens tok.token t tok,
    get-put by_user tok.user other.user tok,
    eq_iff tok.token t,
    eq_iff tok.user other.user,
    eq_iff tok.user tok.user,
    s.by_text t other,
  );
  by_name = λ u other h. ground (
    arith,
    get-put by_user tok.user u tok,
    get-put tokens tok.token other.token tok,
    eq_iff tok.user u,
    eq_iff tok.token other.token,
    eq_iff tok.token tok.token,
    s.by_name u other,
  );
}

-- The token of a user can be taken out.
pub remove-IsIndexed :
    (tokens by_user : Dict Token) (user : String) (tok : Token)
    → IsIndexed tokens by_user
    → get by_user user ≡ some tok
    → IsIndexed (remove tokens tok.token) (remove by_user user)
remove-IsIndexed tokens by_user user tok s held = record {
  by_text = λ t other h. ground (
    arith,
    get-remove tokens tok.token t,
    get-remove by_user user other.user,
    eq_iff tok.token t,
    eq_iff user other.user,
    s.by_text t other,
    s.by_name user tok held,
  );
  by_name = λ u other h. ground (
    arith,
    get-remove by_user user u,
    get-remove tokens tok.token other.token,
    eq_iff user u,
    eq_iff tok.token other.token,
    s.by_name u other,
    s.by_name user tok held,
    eq_iff other.user u,
  );
}
