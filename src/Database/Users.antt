-- ===== src/Database/Users.antt =====
-- internal/db/sqlc/user.sql.go, and the two reads of users of internal/db/sqlc/auth.sql.go.
-- `lower` is SQL's; `matches` is `email ILIKE '%'||search||'%'`.
use golang_backend.Base.{
  ℕ, ◌-◌, String, Bool, true, false, not, ◌&&◌, ◌||◌, Option, none, some, List, [], ◌∷◌, ◌==◌,
  string_eq, if◌then◌else◌, any, keep_if, find_first, update_where, sort_by, text_le, leb, ltb,
  take, length,
}
use golang_backend.Fault.{pg}
use golang_backend.Database.Tables.{Db, User}
use golang_backend.Database.Action.{
  Result, ok, err, Run, M, draw, statement, query, query_row, exec, row_of, ◌>>=◌,
}

unfoldable pub is_active : User → Bool
is_active u = elim u.deleted_at [ none ↦ true | some t ↦ false ]

-- `id=$1 AND deleted_at IS NULL`, of the uuid that `$1` is read as, which is the text that the rows have; what
-- a text is read as is `by_uuid` of Database/Uuid
unfoldable pub active_user : String → Db → Option User
unfolding is_active
active_user id d = find_first (λ u. u.id == id && is_active u) d.users

unfoldable pub active_email : String → Db → Option User
unfolding is_active
active_email email d = find_first (λ u. u.email == email && is_active u) d.users

pub record CreateUserParams : Type 0 where
  pub email : String
  pub password : String
  pub role_id : String

pub record UpdateUserParams : Type 0 where
  pub id : String
  pub email : Option String
  pub role_id : Option String

pub record ListUsersParams : Type 0 where
  pub search : String
  pub sort_by : String
  pub direction : String
  pub page_limit : ℕ
  pub page_offset : ℕ  -- the bits of an int32

abbrev pub coalesce {ℓ} : {A : Type ℓ} → Option A → A → A
coalesce none a = a
coalesce (some b) a = b

unfoldable pub insert_user : ℕ → String → String → String → String → Db → Result (User × Db)
insert_user now email password role id d =
    let u : User = record {
      id = id;
      email = email;
      password = password;
      role_id = role;
      deleted_at = none;
      created_at = now;
      updated_at = now;
    } in
    if any (λ v. v.id == id || v.email == email) d.users
    then err (pg "23505")
    else if any (λ r. r.id == role) d.roles
    then ok (u, record d { users = u ∷ d.users })
    else err (pg "23503")

abbrev pub lowered : (String → String) → Option String → Option String
lowered lower none = none
lowered lower (some e) = some (lower e)

abbrev pub changed : ℕ → Option String → Option String → User → User
changed now email role u = record u {
  email = coalesce email u.email;
  role_id = coalesce role u.role_id;
  updated_at = now;
}

-- an address that another row has
abbrev pub email_taken : Db → String → Option String → Bool
email_taken d id none = false
email_taken d id (some e) = any (λ v. not (v.id == id) && v.email == e) d.users

abbrev pub role_missing : Db → Option String → Bool
role_missing d none = false
role_missing d (some role) = not (any (λ r. r.id == role) d.roles)

-- every row at `id` is changed; without one there is nothing to return
unfoldable pub change_user : ℕ → String → Option String → Option String → Db → Result (User × Db)
change_user now id email role d =
    let users' = update_where (λ u. u.id == id) (changed now email role) d.users in
    if not (any (λ u. u.id == id) d.users)
    then row_of none d
    else if email_taken d id email
    then err (pg "23505")
    else if role_missing d role
    then err (pg "23503")
    else row_of (find_first (λ u. u.id == id) users') (record d { users = users' })

-- of the uuid that `$1` is read as, as above
unfoldable pub soft_delete : ℕ → String → Db → Db
soft_delete now id d = record d {
  users =
      update_where (λ u. u.id == id) (λ u. record u { deleted_at = some now; updated_at = now })
        d.users;
}

abbrev pub by_key : String → User → User → Option Bool
by_key key u v =
    if key == "email"
    then (if u.email == v.email then none else some (text_le u.email v.email))
    else if key == "createdAt"
    then (if leb u.created_at v.created_at && leb v.created_at u.created_at
        then none
        else some (leb u.created_at v.created_at))
    else if key == "updatedAt"
    then (if leb u.updated_at v.updated_at && leb v.updated_at u.updated_at
        then none
        else some (leb u.updated_at v.updated_at))
    else none

-- the `ORDER BY CASE …` of `ListUsers`; a direction other than the two leaves the order by `id`
unfoldable pub user_order : String → String → User → User → Bool
user_order key direction u v =
    if direction == "asc"
    then coalesce (by_key key u v) (text_le u.id v.id)
    else if direction == "desc"
    then coalesce (by_key key v u) (text_le u.id v.id)
    else text_le u.id v.id

abbrev pub drop {ℓ} : {A : Type ℓ} → ℕ → List A → List A
drop n [] = []
drop n (x ∷ xs) = if leb n 0 then x ∷ xs else drop (n - 1) xs

module _ (matches : String → String → Bool) where
  unfoldable pub selected : String → Db → List User
  unfolding is_active
  selected search d = keep_if (λ u. is_active u && (search == "" || matches search u.email)) d.users

  unfoldable pub page_of : ListUsersParams → Db → List User
  unfolding selected user_order
  page_of a d =
      take a.page_limit
        (drop a.page_offset (sort_by (user_order a.sort_by a.direction) (selected a.search d)))

module _ (matches : String → String → Bool) (run : Run) where
  unfoldable pub count_users : String → M ℕ
  count_users search = query run (λ d. length (selected matches search d))

  -- an OFFSET below zero is refused
  unfoldable pub list_users : ListUsersParams → M (List User)
  list_users a =
      statement run
        λ d. if ltb a.page_offset 2147483648 then ok (page_of matches a d, d) else err (pg "2201X")

module _ (run : Run) where
  unfoldable pub find_user : String → M User
  find_user id = query_row run (active_user id)

  unfoldable pub lock_user : String → M User
  lock_user id = query_row run (active_user id)

  unfoldable pub find_active_user_by_id : String → M User
  find_active_user_by_id id = query_row run (active_user id)

  unfoldable pub find_active_user_by_email : String → M User
  unfolding active_email
  find_active_user_by_email email = query_row run (active_email email)

  unfoldable pub soft_delete_user : String → M (Unit {0})
  soft_delete_user id = exec run (soft_delete run.now id)

module _ (lower : String → String) (run : Run) where
  unfoldable pub create_user : CreateUserParams → M User
  unfolding insert_user
  create_user a = do
    id ← draw run
    statement run (insert_user run.now (lower a.email) a.password a.role_id id)

  unfoldable pub update_user : UpdateUserParams → M User
  unfolding change_user
  update_user a = statement run (change_user run.now a.id (lowered lower a.email) a.role_id)
