-- ===== src/Tokens/Store/Listing/Laws.antt =====
-- The listing of tokens is complete and in order.
use rune_admin.Prelude.{
  String, ◌≡◌, refl, true, List, [], ◌∷◌, arith, eq_iff, Option-cases, inl, inr, ◌↔◌, map, All,
}
use rune_admin.Dict.{get, keys, contains-keys}
use rune_admin.Dict.Assoc.{is_some, contains}
use rune_admin.Sort.{text_le, sort_strings}
use rune_admin.Sort.Laws.{IsSorted, sort_strings-IsSorted, contains-sort_strings}
use rune_admin.Tokens.Store.{Store}
use rune_admin.Tokens.Store.Invariant.{IsConsistent}
use rune_admin.Tokens.Store.Listing.{TokenInfo, list_users, list_tokens}

abbrev pub info_user : TokenInfo → String
info_user i = i.user

-- Each listed user is in the map.
abbrev AreHeld : Store → List String → Type 0
AreHeld s = All (λ u. is_some (get s.tokens_by_user u) ≡ true)

map-list_users :
    (s : Store) (us : List String)
    → IsConsistent s
    → AreHeld s us
    → map info_user (list_users s us) ≡ us
unfolding list_users
map-list_users s [] c h = refl
map-list_users s (u ∷ us) c h = elim (Option-cases (get s.tokens_by_user u)) [
  | inl e ↦ absurd (ground arith)
  | inr (tok, e) ↦ ground (arith, map-list_users s us c h.1, c.indexed.by_name u tok e)
]

All-of_contains :
    (P : String → Type 0) (us : List String)
    → ((u : String) → contains us u ≡ true → P u)
    → All P us
unfolding contains
All-of_contains P [] f = tt
All-of_contains P (u ∷ us) f =
    (f u (ground (arith, eq_iff u u)), All-of_contains P us (λ v h. f v (ground arith)))

-- `ListTokens` gives one entry for each user with a token, in the order of the user names.
pub list_tokens_users :
    (s : Store)
    → IsConsistent s
    → (map info_user (list_tokens s) ≡ sort_strings (keys s.tokens_by_user))
      × IsSorted text_le (map info_user (list_tokens s))
      × ((u : String)
          → (contains (map info_user (list_tokens s)) u ≡ true)
            ↔ (is_some (get s.tokens_by_user u) ≡ true))
unfolding list_tokens
list_tokens_users s c =
    let us = keys s.tokens_by_user in
    let held =
      All-of_contains (λ u. is_some (get s.tokens_by_user u) ≡ true) (sort_strings us)
        (λ u h. ground (arith, contains-sort_strings us u, contains-keys s.tokens_by_user u)) in
    let all_users = map-list_users s (sort_strings us) c held in
    (
      all_users,
      rw all_users (sort_strings-IsSorted us),
      λ u.
          rw all_users
            (ground (arith, contains-sort_strings us u, contains-keys s.tokens_by_user u)),
    )
