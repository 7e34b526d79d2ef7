-- ===== src/Tests/Records.antt =====
-- internal/audit and the lists of internal/user: changes with their records, redacted values, and pages.
use golang_backend.Base.{
  nat_eq, ◌==◌, if◌then◌else◌, ◌≡◌, refl, some, none, [], ◌∷◌, true, pos, ◌≤◌, ◌<◌, ◌*◌, ◌-◌, ◌+◌,
  ◌^◌, ◌⊎◌, string_eq, ltb, arith,
}
use golang_backend.Fault.{Error, caused, internal, plain}
use golang_backend.Fault.Laws.{IsFault}
use golang_backend.Json.{Json, text, object, member, end}
use golang_backend.Database.Action.{ok, err, Run, World, M, pure}
use golang_backend.Audit.Writer.{Change, required, audit_params, mutate}
use golang_backend.Audit.Laws.{Recorded, mutate_failed, mutate-ok}
use golang_backend.Audit.Redact.{redact, is_clean, redact_safe, redact_keeps}
use golang_backend.User.Service as Users
use golang_backend.User.Service.{valid_page, offset_bits, pagination}
use golang_backend.User.Pages.{valid_page-offset}
use golang_backend.Tests.Fixtures.{lib, run_at, audited, actor, world}

abbrev run : Run
run = run_at 100

-- a change that fails in its body
abbrev broken : Run
broken = record run { faults = λ n. if n == 1 then some (plain "down") else none }

abbrev deletes_again : M (Unit {0} × Change)
deletes_again = Users.delete_body lib broken (some actor) "bob"

abbrev down : Error
down = caused internal "Internal server error" (plain "down")

mutates_not :
    mutate broken audited (some actor) "DELETE" deletes_again world
    ≡ (err down, (mutate broken audited (some actor) "DELETE" deletes_again world).1)
unfolding golang_backend.Audit.Redact.sensitive_key golang_backend.Audit.Writer.mutate
    golang_backend.Database.Action.query_row golang_backend.Database.Action.transaction
    golang_backend.Database.Action.wrap golang_backend.Database.Users.lock_user
    golang_backend.Fault.db golang_backend.User.Service.delete_body
    golang_backend.Database.Uuid.with_key golang_backend.Database.Action.pure
    golang_backend.Database.Action.◌>>=◌ golang_backend.Base.string_eq
mutates_not = refl

mutate_failed_example :
    ((mutate broken audited (some actor) "DELETE" deletes_again world).1.db ≡ world.db)
    × IsFault down
mutate_failed_example =
    mutate_failed broken audited (some actor) "DELETE" deletes_again world mutates_not

abbrev body : M (Unit {0} × Change)
body = Users.delete_body lib run (some actor) "bob"

abbrev mutated : World
mutated = (mutate run audited (some actor) "DELETE" body world).1

mutates : mutate run audited (some actor) "DELETE" body world ≡ (ok tt, mutated)
unfolding golang_backend.Audit.Writer.mutate golang_backend.Audit.Writer.write
    golang_backend.Base.trim_space golang_backend.Database.Action.check
    golang_backend.Database.Action.draw golang_backend.Database.Action.exec
    golang_backend.Database.Action.for_each golang_backend.Database.Action.pure
    golang_backend.Database.Action.query golang_backend.Database.Action.query_row
    golang_backend.Database.Action.transaction golang_backend.Database.Action.wrap
    golang_backend.Database.Logs.insert_audit
    golang_backend.Database.Permissions.count_active_permission_holders
    golang_backend.Database.Permissions.holders
    golang_backend.Database.Permissions.lock_permission_by_name
    golang_backend.Database.Roles.list_role_permission_ids
    golang_backend.Database.Roles.permission_ids
    golang_backend.Database.Sessions.revoke_families_of_user
    golang_backend.Database.Sessions.revoke_tokens_of_user
    golang_backend.Database.Sessions.revoke_user_auth_refresh_tokens
    golang_backend.Database.Sessions.revoke_user_refresh_families
    golang_backend.Database.Users.active_user golang_backend.Database.Users.lock_user
    golang_backend.Database.Users.soft_delete golang_backend.Database.Users.soft_delete_user
    golang_backend.Role.Privilege.first_unheld
    golang_backend.Role.Privilege.guard_system_permission_holders
    golang_backend.Role.Privilege.newly_unheld
    golang_backend.Role.Privilege.permissions_within_actor
    golang_backend.Role.Privilege.revoke_user_sessions
    golang_backend.Role.Privilege.role_within_actor golang_backend.Role.Privilege.unheld_among
    golang_backend.User.Service.delete_body golang_backend.Database.Uuid.with_key
    golang_backend.Database.Action.◌>>=◌ golang_backend.Base.string_eq
mutates = refl

mutate-ok_example :
    (v u : World) × (c : Change) × (v.db ≡ world.db)
    × (body v ≡ (ok (tt, c), u))
    × Recorded run required (audit_params audited (some actor) "DELETE" c) u.db mutated.db
mutate-ok_example = mutate-ok run audited (some actor) "DELETE" body world mutates

third_page : valid_page (pos 3) (pos 20) ≡ some (3, 20)
unfolding golang_backend.User.Service.valid_page
third_page = refl

valid_page-offset_example :
    (pos 3 ≡ pos 3)
    × (pos 20 ≡ pos 20)
    × (1 ≤ 3)
    × (1 ≤ 20)
    × (20 ≤ 100)
    × ((2 ^ 56 < 3) ⊎ ((offset_bits 3 20 ≡ (3 - 1) * 20) × ((3 - 1) * 20 ≤ 2147483647)))
valid_page-offset_example = valid_page-offset (pos 3) (pos 20) third_page

abbrev payload : Json
payload = object (member "Password" (text "p") (member "id" (text "q") end))

abbrev clean_payload : Json
clean_payload = object (member "id" (text "q") end)

redact_safe_example :
    (is_clean lib.lower (redact lib.lower payload) ≡ true)
    × (redact lib.lower (redact lib.lower payload) ≡ redact lib.lower payload)
redact_safe_example = redact_safe lib.lower payload

is_clean_payload : is_clean lib.lower clean_payload ≡ true
unfolding golang_backend.Audit.Redact.sensitive_key golang_backend.Base.string_eq
    golang_backend.Audit.Redact.is_clean
is_clean_payload = refl

redact_keeps_example : redact lib.lower clean_payload ≡ clean_payload
redact_keeps_example = redact_keeps lib.lower clean_payload is_clean_payload
