-- ===== src/Tokens/Store/History.antt =====
-- The store as it changes: any operations, in any order, at any times.
use rune_admin.Prelude.{ℕ, ℤ, String, Option, List}
use rune_admin.Tokens.Token.{Dates}
use rune_admin.Tokens.Store.{Store}
use rune_admin.Tokens.Store.Access.{Clocks, validate}
use rune_admin.Tokens.Store.Access.Admission.{validate-IsConsistent}
use rune_admin.Tokens.Store.Issue.{add_token, revoke_token, rotate_token}
use rune_admin.Tokens.Store.Roles.{UpdateRoleOpts, add_role, update_role, delete_role}
use rune_admin.Tokens.Store.Invariant.{
  IsConsistent, IsFresh, add_token-IsConsistent, revoke_token-IsConsistent,
  rotate_token-IsConsistent,
}
use rune_admin.Tokens.Store.Invariant.OfRoles.{
  add_role-IsConsistent, update_role-IsConsistent, delete_role-IsConsistent,
}

-- One operation. New token texts are not in use.
pub data Step (dates : Dates) (s : Store) : Store → Type 0 where
  check : (clocks : Clocks) (text : String) → Step dates s (validate dates clocks s text).0
  issue :
      (now : ℕ) (entropy : Option (List ℕ)) (user role : String) (days : Option ℤ)
      → IsFresh s entropy
      → Step dates s (add_token dates now entropy s user role days).0
  revoke : (user : String) → Step dates s (revoke_token s user).0
  rotate :
      (now : ℕ) (entropy : Option (List ℕ)) (user : String)
      → IsFresh s entropy
      → Step dates s (rotate_token dates now entropy s user).0
  create_role :
      (name : String) (scopes : List String) (top_k : ℤ) (limit : String)
      → Step dates s (add_role s name scopes top_k limit).0
  change : (name : String) (opts : UpdateRoleOpts) → Step dates s (update_role s name opts).0
  drop_role : (name : String) → Step dates s (delete_role s name).0

pub data Reach (dates : Dates) (s : Store) : Store → Type 0 where
  here : Reach dates s s
  then_step : {t u : Store} → Reach dates s t → Step dates t u → Reach dates s u

pub Step-IsConsistent :
    (dates : Dates) {s t : Store} → IsConsistent s → Step dates s t → IsConsistent t
Step-IsConsistent dates {s} c (check clocks text) = validate-IsConsistent dates clocks s text c
Step-IsConsistent dates {s} c (issue now entropy user role days fresh) =
    add_token-IsConsistent dates now entropy s c fresh user role days
Step-IsConsistent dates {s} c (revoke user) = revoke_token-IsConsistent s c user
Step-IsConsistent dates {s} c (rotate now entropy user fresh) =
    rotate_token-IsConsistent dates now entropy s c fresh user
Step-IsConsistent dates {s} c (create_role name scopes top_k limit) =
    add_role-IsConsistent s c name scopes top_k limit
Step-IsConsistent dates {s} c (change name opts) = update_role-IsConsistent s c name opts
Step-IsConsistent dates {s} c (drop_role name) = delete_role-IsConsistent s c name

-- Whatever operations are made on a consistent store, in any order, with new token texts that are
-- not in use: it stays consistent.
pub Reach-IsConsistent :
    (dates : Dates) {s t : Store} → IsConsistent s → Reach dates s t → IsConsistent t
Reach-IsConsistent dates c here = c
Reach-IsConsistent dates c (then_step r st) =
    Step-IsConsistent dates (Reach-IsConsistent dates c r) st
