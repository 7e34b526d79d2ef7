-- ===== src/Mysql/Users.antt =====
-- internal/db/mysql/sqlc/user.sql.go, the two reads of users of auth.sql.go, and `SeedUser` of seed.sql.go.
-- `lower` is SQL's; `like` is `LIKE concat('%',…,'%')`, the pattern first.
use golang_backend.Base.{
  ℕ, String, Bool, false, not, ◌&&◌, ◌||◌, Option, none, some, List, ◌∷◌, ◌==◌, string_eq, nat_eq,
  if◌then◌else◌, any, update_where, keep_if, find_first, sort_by, text_le, leb, ltb, take, length,
}
use mathlib.Core.Option
use golang_backend.Fault.{mysql}
use golang_backend.Database.Tables.{Db, User}
use golang_backend.Database.Action.{
  Result, ok, err, Run, M, draw, statement, query, query_row, exec, ◌>>=◌,
}
use golang_backend.Database.Users.{
  is_active, active_user, active_email, changed, coalesce, email_taken, role_missing, soft_delete,
  drop,
}
use golang_backend.Database.Seeds.{SeedUserParams, reseeded, seeded_user}
use golang_backend.Mysql.Errors.{duplicate_entry, no_referenced_row, data_too_long, too_long}

abbrev pub new_user : ℕ → String → String → String → String → User
new_user now email password role id = record {
  id = id;
  email = email;
  password = password;
  role_id = role;
  deleted_at = none;
  created_at = now;
  updated_at = now;
}

-- `email varchar(255)`, `password varchar(255)`
unfoldable pub insert_user : ℕ → String → String → String → String → Db → Result (Unit {0} × Db)
insert_user now email password role id d =
    if too_long 255 email || too_long 255 password
    then err data_too_long
    else if any (λ v. v.id == id || v.email == email) d.users
    then err duplicate_entry
    else if any (λ r. r.id == role) d.roles
    then ok (tt, record d { users = new_user now email password role id ∷ d.users })
    else err no_referenced_row

abbrev pub some_too_long : ℕ → Option String → Bool
some_too_long width none = false
some_too_long width (some text) = too_long width text

unfoldable pub change_user_row :
    ℕ → String → Option String → Option String → Db → Result (Unit {0} × Db)
change_user_row now id email role d =
    if not (any (λ u. u.id == id) d.users)
    then ok (tt, d)
    else if some_too_long 255 email
    then err data_too_long
    else if email_taken d id email
    then err duplicate_entry
    else if role_missing d role
    then err no_referenced_row
    else ok
        (tt, record d { users = update_where (λ u. u.id == id) (changed now email role) d.users })

pub record ListUsersParams : Type 0 where
  pub search : String
  pub sort_key : ℕ
  pub descending : ℕ
  pub limit : ℕ
  pub offset : ℕ  -- the bits of an int32

-- one `CASE` of the ORDER BY: the rows where it is NULL are all alike
abbrev by_number : ℕ → ℕ → Option Bool
by_number m n = if leb m n && leb n m then none else some (leb m n)

abbrev pub by_sort_key : ℕ → User → User → Option Bool
by_sort_key key u v =
    if key == 1
    then (if u.email == v.email then none else some (text_le u.email v.email))
    else if key == 2
    then by_number u.created_at v.created_at
    else if key == 3
    then by_number u.updated_at v.updated_at
    else none

unfoldable pub row_order : ℕ → ℕ → User → User → Bool
row_order key descending u v =
    if descending == 0
    then coalesce (by_sort_key key u v) (text_le u.id v.id)
    else if descending == 1
    then coalesce (by_sort_key key v u) (text_le u.id v.id)
    else text_le u.id v.id

-- `ON DUPLICATE KEY UPDATE role_id=VALUES(role_id),deleted_at=NULL,…`, for the address or the id
unfoldable pub seed_user_row : ℕ → String → SeedUserParams → String → Db → Result (Unit {0} × Db)
seed_user_row now email a id d = elim (find_first (λ r. r.name == a.name) d.roles) [
  | none ↦ ok (tt, d)
  | some role ↦
      if too_long 255 email || too_long 255 a.password
      then err data_too_long
      else if any (λ u. u.id == id) d.users
      then ok
          (tt, record d { users = update_where (λ u. u.id == id) (reseeded now role.id) d.users })
      else if any (λ u. u.email == email) d.users
      then ok (
        tt,
        record d { users = update_where (λ u. u.email == email) (reseeded now role.id) d.users },
      )
      else ok (tt, record d { users = seeded_user now email a.password role.id id ∷ d.users })
]

module _ (lower : String → String) (like : String → String → Bool) where
  -- `deleted_at IS NULL AND (search='' OR lower(email) LIKE concat('%',lower(search),'%'))`
  unfoldable pub selected : String → Db → List User
  unfolding is_active
  selected search d =
      keep_if (λ u. is_active u && (search == "" || like (lower search) (lower u.email))) d.users

  unfoldable pub page_of : ListUsersParams → Db → List User
  page_of a d =
      take a.limit
        (drop a.offset (sort_by (row_order a.sort_key a.descending) (selected a.search d)))

module _ (lower : String → String) (like : String → String → Bool) (run : Run) where
  unfoldable pub count_users : String → M ℕ
  count_users search = query run (λ d. length (selected lower like search d))

  -- an OFFSET below zero is refused
  unfoldable pub list_users : ListUsersParams → M (List User)
  list_users a =
      statement run
        λ d. if ltb a.offset 2147483648 then ok (page_of lower like a d, d) else err (mysql 1064)

module _ (run : Run) where
  unfoldable pub find_user : String → M User
  find_user id = query_row run (active_user id)

  unfoldable pub lock_user : String → M User
  lock_user id = query_row run (active_user id)

  unfoldable pub find_active_user_by_id : String → M User
  find_active_user_by_id id = query_row run (active_user id)

  unfoldable pub find_active_user_by_email : String → M User
  find_active_user_by_email email = query_row run (active_email email)

  unfoldable pub soft_delete_user : String → M (Unit {0})
  soft_delete_user id = exec run (soft_delete run.now id)

module _ (lower : String → String) (run : Run) where
  unfoldable pub create_user : String → String → String → String → M (Unit {0})
  create_user id email password role =
      statement run (insert_user run.now (lower email) password role id)

  unfoldable pub update_user : String → Option String → Option String → M (Unit {0})
  update_user id email role =
      statement run (change_user_row run.now id (Option.map lower email) role)

  unfoldable pub seed_user : SeedUserParams → M (Unit {0})
  seed_user a = do id ← draw run; statement run (seed_user_row run.now (lower a.email) a id)
