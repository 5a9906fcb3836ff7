-- ===== src/Examples/Roles.antt =====
-- Roles on the store with one token, and the timer of the writes.
use rune_admin.Prelude.{
  String, ◌≡◌, ◌≢◌, ◌↔◌, refl, true, false, ◌&&◌, none, some, [], ◌∷◌, if◌then◌else◌,
}
use rune_admin.Dict.{get, put, empty}
use rune_admin.Dict.Assoc.{is_some}
use rune_admin.Tokens.Errors.{ok}
use rune_admin.Tokens.Role.{Role, member_role, is_default_role_name}
use rune_admin.Digits.{leading, trailing}
use rune_admin.Tokens.Token.{Token}
use rune_admin.Tokens.Store.Issue.{add_token}
use rune_admin.Tokens.Store.Roles.{UpdateRoleOpts, override, has_role, update_role, delete_role}
use rune_admin.Tokens.Store.Roles.Effects.{update_role_effects, delete_role_iff}
use rune_admin.Tokens.Persister.{Persister, new_persister, schedule, shutdown, expire}
use rune_admin.Tokens.Persister.Steps.{
  run, expires, calls_back, schedules, writes_after_shutdown, begins, is_pending,
  pending_until_write, move,
}
use rune_admin.Tokens.Store.Issue.{revoke_token}
use rune_admin.Server.Admin.{revoke, delete_token, serve_admin}
use rune_admin.Server.Admin.Laws.{serve_admin_refused}
use rune_admin.Prelude.{◌≤◌, arith, ◌==◌, ◌+◌}
use rune_admin.Tokens.Store.{Store}
use rune_admin.Examples.Data.{bob_store, dates}

-- A store with a role that nobody has.
abbrev with_auditor : Store
with_auditor = record bob_store {
  roles = put bob_store.roles "auditor" (record member_role { name = "auditor" });
}

delete_role_iff_example :
    (((delete_role with_auditor "auditor").1 ≡ none) ↔ (
      (is_default_role_name "auditor" ≡ false)
      × (is_some (get with_auditor.roles "auditor") ≡ true)
      × ((u : String) (tok : Token)
          → get with_auditor.tokens_by_user u ≡ some tok
          → tok.role ≢ "auditor")))
    × ((delete_role with_auditor "auditor").1 ≡ none
        → (let s' = (delete_role with_auditor "auditor").0 in
            ((q : String)
              → get s'.roles q ≡ (if "auditor" == q then none else get with_auditor.roles q))
            × (s'.tokens ≡ with_auditor.tokens)
            × (s'.tokens_by_user ≡ with_auditor.tokens_by_user)
            × (s'.rate_limiters ≡ with_auditor.rate_limiters)))
    × ((delete_role with_auditor "auditor").1 ≢ none
        → (delete_role with_auditor "auditor").0 ≡ with_auditor)
delete_role_iff_example = delete_role_iff with_auditor "auditor"

abbrev slower : UpdateRoleOpts
slower = record { opt_scopes = none; opt_top_k = none; opt_rate_limit = some "9/60s" }

slower_done :
    update_role bob_store "member" slower
    ≡ ((update_role bob_store "member" slower).0, ok (record member_role { rate_limit = "9/60s" }))
unfolding update_role add_token get put empty trailing leading
slower_done = refl

update_role_effects_example :
    let s' = (update_role bob_store "member" slower).0 in
    (role : Role) × (get bob_store.roles "member" ≡ some role)
    × (get s'.roles "member" ≡ some (record member_role { rate_limit = "9/60s" }))
    × (member_role.scopes ≡ role.scopes)
    × (member_role.top_k ≡ role.top_k)
    × ("9/60s" ≡ override slower.opt_rate_limit role.rate_limit)
    × ((u : String)
        → get s'.rate_limiters u ≡ (
            if is_some slower.opt_rate_limit && has_role bob_store.tokens_by_user "member" u
            then none
            else get bob_store.rate_limiters u))
update_role_effects_example = update_role_effects bob_store "member" slower slower_done

-- At the `Shutdown` one callback has let go of the lock, and another timer has expired.
abbrev racing : Persister
racing = record (expire 0 (schedule new_persister)) { cleared = 1 }

writes_after_shutdown_example :
    (run (shutdown racing) (calls_back ∷ begins ∷ schedules ∷ begins ∷ [])).1
      + (run (shutdown racing) (calls_back ∷ begins ∷ schedules ∷ begins ∷ [])).0.cleared
    ≡ 1
writes_after_shutdown_example =
    writes_after_shutdown racing (calls_back ∷ begins ∷ schedules ∷ begins ∷ [])

no_write_yet : (run (schedule new_persister) (schedules ∷ expires 1 ∷ [])).1 ≡ 0
unfolding run move
no_write_yet = refl

pending_until_write_example :
    is_pending (run (schedule new_persister) (schedules ∷ expires 1 ∷ [])).0 ≡ true
pending_until_write_example =
    pending_until_write new_persister (schedules ∷ expires 1 ∷ []) refl refl no_write_yet

-- Nobody has no token to revoke.
nobody : 400 ≤ (serve_admin dates (λ _. 0) (λ _. none) (revoke "nobody") bob_store).1.status
unfolding serve_admin add_token get put empty revoke_token delete_token
nobody = omega arith

serve_admin_refused_example :
    (serve_admin dates (λ _. 0) (λ _. none) (revoke "nobody") bob_store).0 ≡ bob_store
serve_admin_refused_example =
    serve_admin_refused dates (λ _. 0) (λ _. none) (revoke "nobody") bob_store refl nobody
