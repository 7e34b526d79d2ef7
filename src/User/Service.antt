-- ===== src/User/Service.antt =====
-- internal/user/service.go: the operations on users.
use Prim.Native.String.{len}
use golang_backend.Base.{
  ℕ, ◌+◌, ◌-◌, ◌*◌, ◌/◌, ◌%◌, ◌^◌, String, Bool, true, false, not, ◌&&◌, ◌||◌, Option, none, some,
  List, [], ◌∷◌, ◌==◌, string_eq, ltb, leb, if◌then◌else◌, map, ℤ, pos,
}
use golang_backend.Fault.{Error, fault, plain, invalid, forbidden, error_if}
use golang_backend.Fault
use golang_backend.Library.{Library}
use golang_backend.Model
use golang_backend.Model.{CreateUserBody, UpdateUserBody, Pagination, project_user, user_json}
use golang_backend.Database.Tables
use golang_backend.Database.Action.{Run, M, pure, raise, wrap, ◌>>=◌, ◌>>◌, check, draw}
use golang_backend.Database.Uuid.{by_uuid}
use golang_backend.Database.Users.{
  find_user, lock_user, create_user, update_user, soft_delete_user, count_users, list_users,
}
use golang_backend.Audit.Writer.{Actor, Policy, Change, capture, mutate}
use golang_backend.Role.Privilege.{
  role_within_actor, guard_system_permission_holders, revoke_user_sessions,
}
use golang_backend.Role.Service

-- `len(b.Password) < 6 || len(b.Password) > 72`
unfoldable pub password_check : String → Option Error
password_check password =
    error_if (ltb (len password) 6 || ltb 72 (len password))
      (fault invalid "Password must contain 6-72 bytes")

-- `int64(page-1)*int64(limit)`, as its bits
unfoldable pub offset_bits : ℕ → ℕ → ℕ
offset_bits page limit = (page - 1) * limit % 2 ^ 64

-- … `> 2147483647`, which no negative number is
unfoldable pub offset_too_large : ℕ → ℕ → Bool
unfolding offset_bits
offset_too_large page limit =
    let bits = offset_bits page limit in ltb bits (2 ^ 63) && ltb 2147483647 bits

abbrev above : ℕ → ℕ → Option (ℕ × ℕ)
above page limit =
    if leb 1 page && (leb 1 limit && (leb limit 100 && not (offset_too_large page limit)))
    then some (page, limit)
    else none

-- the test on the page and the limit, with the two of them where it passes
unfoldable pub valid_page : ℤ → ℤ → Option (ℕ × ℕ)
unfolding offset_too_large
valid_page (pos page) (pos limit) = above page limit
valid_page page limit = none

abbrev sort_key : String → Option String
sort_key key =
    if key == "" || key == "created_at"
    then some "createdAt"
    else if key == "createdAt" || key == "updatedAt" || key == "email"
    then some key
    else none

abbrev sort_direction : String → Option String
sort_direction direction =
    if direction == ""
    then some "asc"
    else if direction == "asc" || direction == "desc"
    then some direction
    else none

abbrev or_invalid : {A : Type 0} → Option A → String → M A
or_invalid none message = raise (fault invalid message)
or_invalid (some a) message = pure a

-- `(int(total) + limit - 1) / limit`, and what the page says of it
unfoldable pub pagination : ℕ → ℕ → ℕ → Pagination
pagination page limit total =
    let pages = (total + limit - 1) / limit in
    record {
      page = page;
      limit = limit;
      total_items = total;
      total_pages = pages;
      has_next_page = ltb page pages;
      has_prev_page = ltb 1 page;
    }

abbrev optional_check : {A : Type 0} → (A → Option Error) → Option A → Option Error
optional_check test none = none
optional_check test (some a) = test a

abbrev is_none : Option String → Bool
is_none none = true
is_none (some s) = false

-- `b.RoleID != nil && *b.RoleID != old.RoleID`
abbrev pub role_changes : Option String → String → Bool
role_changes none old = false
role_changes (some role) old = not (role == old)

module _ (lib : Library) (run : Run) where
  abbrev uuid_check : String → Option Error
  uuid_check id = Fault.uuid (lib.valid_uuid id)

  -- `enrich`
  unfoldable pub enrich : Model.User → M Model.User
  enrich out = do
    r ← Service.get lib run out.role_id
    let permissions = map (λ (p : Model.RolePermission). p.permission) r.permissions
    pure (record out {
      role = some (record { id = r.id; name = r.name; permissions = permissions });
    })

  -- `Get`
  unfoldable pub get : String → M Model.User
  unfolding enrich
  get id = do check (uuid_check id); row ← wrap (find_user run id); enrich (project_user row)

  enrich_each : List Tables.User → M (List Model.User)
  unfolding enrich
  enrich_each [] = pure []
  enrich_each (row ∷ rows) = do
    value ← enrich (project_user row)
    rest ← enrich_each rows
    pure (value ∷ rest)

  -- `List`
  unfoldable pub list : ℤ → ℤ → String → String → String → M (List Model.User × Pagination)
  unfolding enrich_each
  list page limit search sort_by order_by = do
    valid ← or_invalid (valid_page page limit) "Invalid pagination"
    key ← or_invalid (sort_key sort_by) "Invalid sortBy"
    direction ← or_invalid (sort_direction order_by) "Invalid orderBy"
    total ← wrap (count_users lib.email_like run search)
    rows ← wrap (
        list_users lib.email_like run (record {
          search = search;
          sort_by = key;
          direction = direction;
          page_limit = valid.1;
          page_offset = offset_bits valid.0 valid.1 % 2 ^ 32;
        }))
    out ← enrich_each rows
    pure (out, pagination valid.0 valid.1 total)

  unfoldable pub hash_password : String → M String
  hash_password password = do
    salt ← draw run
    elim (lib.bcrypt salt password) [
      | some hash ↦ pure hash
      | none ↦ raise (Fault.db (plain "bcrypt"))
    ]

  unfoldable pub create_body : Option Actor → CreateUserBody → String → M (Model.User × Change)
  create_body actor b hash = do
    role_within_actor run actor b.role_id
    row ← wrap (
        create_user lib.lower run
          (record { email = b.email; password = hash; role_id = b.role_id }))
    let out = project_user row
    pure (out, capture lib.lower out.id none (some (user_json out)))

  -- `Create`
  unfoldable pub create : Policy → Option Actor → CreateUserBody → M Model.User
  create p actor b = do
    check (Fault.email b.email)
    check (uuid_check b.role_id)
    check (password_check b.password)
    hash ← hash_password b.password
    out ← mutate run p actor "CREATE" (create_body actor b hash)
    get out.id

  unfoldable pub optional_within : Option Actor → Option String → M (Unit {0})
  optional_within actor none = pure tt
  optional_within actor (some role) = role_within_actor run actor role

  -- the check to run after the change, where the role changes
  unfoldable pub guard_if : Bool → M (M (Unit {0}))
  guard_if true = guard_system_permission_holders run
  guard_if false = pure (pure tt)

  unfoldable pub revoke_if : Bool → String → M (Unit {0})
  revoke_if true id = revoke_user_sessions run id
  revoke_if false id = pure tt

  unfoldable pub update_body : Option Actor → String → UpdateUserBody → M (Model.User × Change)
  unfolding optional_within guard_if revoke_if
  update_body actor id b = do
    old ← wrap (lock_user run id)
    role_within_actor run actor old.role_id
    optional_within actor b.role_id
    holders ← guard_if (role_changes b.role_id old.role_id)
    row ←
        wrap (update_user lib.lower run (record { id = id; email = b.email; role_id = b.role_id }))
    holders
    revoke_if (role_changes b.role_id old.role_id) id
    let before = user_json (project_user old)
    let out = project_user row
    pure (out, capture lib.lower id (some before) (some (user_json out)))

  -- `Update`
  unfoldable pub update : Policy → Option Actor → String → UpdateUserBody → M Model.User
  update p actor id b = do
    check (uuid_check id)
    check (error_if (is_none b.email && is_none b.role_id) (fault invalid "No fields to update"))
    check (optional_check Fault.email b.email)
    check (optional_check uuid_check b.role_id)
    _ ← mutate run p actor "UPDATE" (update_body actor id b)
    get id

  -- the statements read the id as a `uuid`, the first of them fails where it is none; `Delete` itself
  -- compares the id with the actor's as a text
  unfoldable pub delete_body : Option Actor → String → M (Unit {0} × Change)
  delete_body actor id = do
    key ← wrap (by_uuid lib run pure id)
    row ← wrap (lock_user run key)
    role_within_actor run actor row.role_id
    holders ← guard_system_permission_holders run
    wrap (soft_delete_user run key)
    holders
    revoke_user_sessions run key
    pure (tt, capture lib.lower id (some (user_json (project_user row))) none)

  -- `Delete`; it reads the actor, so it is given one
  unfoldable pub delete : Policy → Actor → String → M (Unit {0})
  delete p actor id = do
    check (uuid_check id)
    check (error_if (actor.id == id) (fault forbidden "You cannot delete your own account."))
    mutate run p (some actor) "DELETE" (delete_body (some actor) id)
