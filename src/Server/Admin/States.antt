-- ===== src/Server/Admin/States.antt =====
-- The store after a route is that of the operation that the route calls.
use rune_admin.Prelude.{ℕ, ℤ, String, ◌≡◌, refl, false, ◌||◌, ◌==◌, Option, some, List, arith}
use rune_admin.Tokens.Errors as Errors
use rune_admin.Tokens.Role.{Role}
use rune_admin.Tokens.Token.{Dates}
use rune_admin.Tokens.Store.{Store}
use rune_admin.Tokens.Store.Issue.{add_token, revoke_token, rotate_token, rotate_all_tokens}
use rune_admin.Tokens.Store.Roles.{delete_role}
use rune_admin.Server.Admin.{
  post_tokens, post_rotate, post_rotate_all, delete_token, delete_role_route, role_response,
}

module _ (dates : Dates) (now : ℕ → ℕ) (entropy : ℕ → Option (List ℕ)) where
  pub post_tokens-state :
      (user role : String) (days : Option ℤ) (s : Store)
      → (user == "" || role == "") ≡ false
      → (post_tokens dates
          (now 0)
          (entropy 0)
          (some (record { user = user; role = role; expires_days = days }))
          s).0
        ≡ (add_token dates (now 0) (entropy 0) s user role days).0
  unfolding post_tokens
  post_tokens-state user role days s h = ground arith

  pub post_rotate-state :
      (user : String) (s : Store)
      → (post_rotate dates (now 0) (entropy 0) user s).0
        ≡ (rotate_token dates (now 0) (entropy 0) s user).0
  unfolding post_rotate
  post_rotate-state user s = ground arith

  pub post_rotate_all-state :
      (s : Store)
      → (post_rotate_all dates now entropy s).0 ≡ (rotate_all_tokens dates now entropy s).0
  unfolding post_rotate_all
  post_rotate_all-state s = ground arith

pub delete_token-state :
    (user : String) (s : Store) → (delete_token user s).0 ≡ (revoke_token s user).0
unfolding delete_token
delete_token-state user s = ground arith

pub delete_role_route-state :
    (name : String) (s : Store) → (delete_role_route name s).0 ≡ (delete_role s name).0
unfolding delete_role_route
delete_role_route-state name s = ground arith

pub role_response-state : (n : ℕ) (r : Store × Errors.Result Role) → (role_response n r).0 ≡ r.0
unfolding role_response
role_response-state n (s, Errors.err e) = refl
role_response-state n (s, Errors.ok role) = refl
