-- ===== src/Mysql/Refinement/Users.antt =====
-- internal/db/mysql_adapter.go: the methods on users.
use golang_backend.Base.{
  ℕ, String, ◌≡◌, refl, sym, ap, ◌∙◌, Bool, true, false, not, ◌&&◌, ◌||◌, Option, none, some, List,
  [], ◌∷◌, arith, ◌==◌, ==_refl, string_eq, nat_eq, if◌then◌else◌, any, all, find_first,
  update_where, keep_if, sort_by, length, ltb, take, ◌⊎◌, inl, inr, Bool-cases, ==→eq, text_le,
  subst,
}
use golang_backend.Library.{Library}
use golang_backend.Database.Action.{ok, err, query}
use golang_backend.Database.Postgres.{postgres}
use golang_backend.Mysql.Errors.{too_long}
use golang_backend.Mysql.Adapter
use golang_backend.Mysql.Adapter.{mysql_queries}
use golang_backend.Mysql.Refinement.Uuids.{some_uuid-Implements, uuid-Implements}
use golang_backend.Database.Uuid.{by_some_uuid}
use golang_backend.Mysql.Simulation.{
  SameRows, then_find, Always, change_agrees, row_agrees, statement-Implements, found-Implements,
  inserted-Implements,
}
use golang_backend.Mysql.Refinement.Errors.{db-duplicate, db-no_referenced}
use mathlib.Core.Option
use mathlib.Core.Path.{fun_ext}
use golang_backend.Database.Tables.{Db, User}
use golang_backend.Database.Users as Postgres
use golang_backend.Database.Users.{
  is_active, by_key, active_user, active_email, soft_delete, changed, coalesce, email_taken,
  role_missing, lowered, ListUsersParams, drop,
}
use golang_backend.Mysql.Users
use golang_backend.Fault.{pg, mysql}
use golang_backend.Mysql.Users.{some_too_long, by_sort_key}
use golang_backend.Mysql.Adapter.{key_of, flag, users_params}
use golang_backend.Mysql.Conditions.{UserFits, UpdateFits, PageAsked, is_page_asked}
use golang_backend.Mysql.Contract.{UserMethods}

insert_user-SameRows :
    (now : ℕ) (email password role id : String) (d : Db)
    → too_long 255 email ≡ false
    → too_long 255 password ≡ false
    → SameRows
        (then_find (active_user id) (Users.insert_user now email password role id d))
        (Postgres.insert_user now email password role id d)
unfolding Users.insert_user Postgres.insert_user active_user is_active
insert_user-SameRows now email password role id d fits hash =
    ground (arith, db-duplicate, db-no_referenced, ==_refl id)

absent_user :
    (id : String) (us : List User)
    → any (λ u. u.id == id) us ≡ false
    → find_first (λ u. u.id == id && is_active u) us ≡ none
absent_user id [] h = refl
absent_user id (u ∷ us) h = ground (arith, absent_user id us)

-- a change of the row that is read back leaves it active
active_row :
    (now : ℕ) (id : String) (email role : Option String) (us : List User)
    → all (λ u. not (u.id == id) || is_active u) us ≡ true
    → find_first
        (λ u. u.id == id && is_active u)
        (update_where (λ u. u.id == id) (changed now email role) us)
      ≡ find_first (λ u. u.id == id) (update_where (λ u. u.id == id) (changed now email role) us)
unfolding is_active
active_row now id email role [] h = refl
active_row now id email role (u ∷ us) h = ground (arith, active_row now id email role us)

change_user-SameRows :
    (now : ℕ) (id : String) (email role : Option String) (d : Db)
    → some_too_long 255 email ≡ false
    → all (λ u. not (u.id == id) || is_active u) d.users ≡ true
    → SameRows
        (then_find (active_user id) (Users.change_user_row now id email role d))
        (Postgres.change_user now id email role d)
unfolding Users.change_user_row Postgres.change_user active_user
change_user-SameRows now id email role d fits active = ground (
  arith,
  db-duplicate,
  db-no_referenced,
  absent_user id d.users,
  active_row now id email role d.users,
)

lowered_lem :
    (lower : String → String) (email : Option String) → Option.map lower email ≡ lowered lower email
lowered_lem lower none = refl
lowered_lem lower (some e) = refl

keep_if-ext :
    (p q : User → Bool) (us : List User) → ((u : User) → p u ≡ q u) → keep_if p us ≡ keep_if q us
keep_if-ext p q us h = ap (λ f. keep_if f us) (fun_ext h)

-- `ILIKE` is `LIKE` in lower case
abbrev pub CaseBlind : Library → Type 0
CaseBlind lib =
    (search email : String)
    → lib.email_like search email ≡ lib.sql_like (lib.lower search) (lib.lower email)

selected_lem :
    (lib : Library) (text : String) (d : Db)
    → CaseBlind lib
    → Users.selected lib.lower lib.sql_like text d ≡ Postgres.selected lib.email_like text d
unfolding Users.selected Postgres.selected is_active
selected_lem lib text d blind =
    keep_if-ext _ _ d.users
      (λ u. ap (λ b. is_active u && (text == "" || b)) (sym (blind text u.email)))

either : (s a b : String) → (s == a || s == b) ≡ true → (s ≡ a) ⊎ (s ≡ b)
either s a b h = elim (Bool-cases (s == a)) [
  | inl e ↦ inl (==→eq s a e)
  | inr n ↦ inr (==→eq s b (ground arith))
]

-- the three columns that a page is sorted by
one_of : (s a b c : String) → (s == a || (s == b || s == c)) ≡ true → (s ≡ a) ⊎ ((s ≡ b) ⊎ (s ≡ c))
one_of s a b c h = elim (Bool-cases (s == a)) [
  | inl e ↦ inl (==→eq s a e)
  | inr n ↦ elim (Bool-cases (s == b)) [
    | inl e ↦ inr (inl (==→eq s b e))
    | inr m ↦ inr (inr (==→eq s c (ground arith)))
  ]
]

by_key_lem :
    (s : String) (u v : User)
    → (s ≡ "email") ⊎ ((s ≡ "createdAt") ⊎ (s ≡ "updatedAt"))
    → by_sort_key (key_of s) u v ≡ by_key s u v
unfolding string_eq nat_eq
by_key_lem s u v (inl e) = subst (λ s. by_sort_key (key_of s) u v ≡ by_key s u v) (sym e) refl
by_key_lem s u v (inr (inl e)) = subst (λ s. by_sort_key (key_of s) u v ≡ by_key s u v) (sym e) refl
by_key_lem s u v (inr (inr e)) = subst (λ s. by_sort_key (key_of s) u v ≡ by_key s u v) (sym e) refl

order_lem :
    (s direction : String) (u v : User)
    → (s ≡ "email") ⊎ ((s ≡ "createdAt") ⊎ (s ≡ "updatedAt"))
    → (direction ≡ "asc") ⊎ (direction ≡ "desc")
    → Users.row_order (key_of s) (flag (direction == "desc")) u v
      ≡ Postgres.user_order s direction u v
unfolding Users.row_order Postgres.user_order string_eq nat_eq
order_lem s direction u v sort (inl e) =
    subst (λ d. Users.row_order (key_of s) (flag (d == "desc")) u v ≡ Postgres.user_order s d u v)
      (sym e) (ap (λ x. coalesce x (text_le u.id v.id)) (by_key_lem s u v sort))
order_lem s direction u v sort (inr e) =
    subst (λ d. Users.row_order (key_of s) (flag (d == "desc")) u v ≡ Postgres.user_order s d u v)
      (sym e) (ap (λ x. coalesce x (text_le u.id v.id)) (by_key_lem s v u sort))

page_lem :
    (lib : Library) (a : ListUsersParams) (d : Db)
    → CaseBlind lib
    → is_page_asked a ≡ true
    → Users.page_of lib.lower lib.sql_like (users_params a) d ≡ Postgres.page_of lib.email_like a d
unfolding Users.page_of Postgres.page_of
page_lem lib a d blind asked =
    let sort = one_of a.sort_by "email" "createdAt" "updatedAt" (ground arith) in
    let direction = either a.direction "asc" "desc" (ground arith) in
    let order = fun_ext (λ u. fun_ext (λ v. order_lem a.sort_by a.direction u v sort direction)) in
    ap
      (λ us. take a.page_limit (
        drop a.page_offset
          (sort_by (Users.row_order (key_of a.sort_by) (flag (a.direction == "desc"))) us)))
      (selected_lem lib a.search d blind)
    ∙ ap
        (λ le.
          take a.page_limit
            (drop a.page_offset (sort_by le (Postgres.selected lib.email_like a.search d))))
        order

list_users-SameRows :
    (lib : Library) (a : ListUsersParams) (d : Db)
    → CaseBlind lib
    → is_page_asked a ≡ true
    → SameRows
        (if ltb a.page_offset 2147483648
          then ok (Users.page_of lib.lower lib.sql_like (users_params a) d, d)
          else err (mysql 1064))
        (if ltb a.page_offset 2147483648
          then ok (Postgres.page_of lib.email_like a d, d)
          else err (pg "2201X"))
list_users-SameRows lib a d blind asked = ground (arith, page_lem lib a d blind asked)

module _ (lib : Library) (blind : CaseBlind lib) where
  pub user_methods : UserMethods lib (mysql_queries lib) (postgres lib)
  unfolding Postgres.count_users Users.count_users Postgres.create_user Users.create_user
      Adapter.create_user Postgres.find_active_user_by_email Users.find_active_user_by_email
      Postgres.find_active_user_by_id Users.find_active_user_by_id Postgres.find_user
      Users.find_user Postgres.list_users Users.list_users Adapter.list_users Postgres.lock_user
      Users.lock_user Postgres.soft_delete_user Users.soft_delete_user Postgres.update_user
      Users.update_user Adapter.update_user query
  user_methods = record {
    count_users = λ text.
        statement-Implements Always
          (λ now d. ok (length (Users.selected lib.lower lib.sql_like text d), d))
          (λ now d. ok (length (Postgres.selected lib.email_like text d), d))
          λ run w pre. (ap length (selected_lem lib text w.db blind), refl);
    create_user = λ a.
        uuid-Implements lib
          (λ run k1. Postgres.create_user lib.lower run (record a { role_id = k1 })) a.role_id
          (inserted-Implements (UserFits lib a)
            (λ now id. Users.insert_user now (lib.lower a.email) a.password a.role_id id)
            active_user
            (λ now id. Postgres.insert_user now (lib.lower a.email) a.password a.role_id id)
            λ run w fits.
              insert_user-SameRows run.now (lib.lower a.email) a.password a.role_id
                (run.fresh w.drawn) w.db fits.0 fits.1);
    find_active_user_by_email = λ email run w pre. row_agrees run (active_email email) w;
    find_active_user_by_id = λ id.
        uuid-Implements lib (λ run k1. Postgres.find_active_user_by_id run k1) id
          (λ run w pre. row_agrees run (active_user id) w);
    find_user = λ id.
        uuid-Implements lib (λ run k1. Postgres.find_user run k1) id
          (λ run w pre. row_agrees run (active_user id) w);
    list_users = λ a.
        statement-Implements (PageAsked a)
          (λ now d.
            if ltb a.page_offset 2147483648
            then ok (Users.page_of lib.lower lib.sql_like (users_params a) d, d)
            else err (mysql 1064))
          (λ now d.
            if ltb a.page_offset 2147483648
            then ok (Postgres.page_of lib.email_like a d, d)
            else err (pg "2201X"))
          λ run w asked. list_users-SameRows lib a w.db blind asked;
    lock_user = λ id.
        uuid-Implements lib (λ run k1. Postgres.lock_user run k1) id
          (λ run w pre. row_agrees run (active_user id) w);
    soft_delete_user = λ id.
        uuid-Implements lib (λ run k1. Postgres.soft_delete_user run k1) id
          (λ run w pre. change_agrees run (soft_delete run.now id) w);
    update_user = λ a.
        uuid-Implements lib
          (λ run k1.
            by_some_uuid lib run
              (λ k2. Postgres.update_user lib.lower run (record a { id = k1; role_id = k2 }))
              a.role_id)
          a.id
          (some_uuid-Implements lib
            (λ run k2. Postgres.update_user lib.lower run (record a { id = a.id; role_id = k2 }))
            a.role_id
            (found-Implements (UpdateFits lib a)
              (λ now. Users.change_user_row now a.id (Option.map lib.lower a.email) a.role_id)
              (active_user a.id)
              (λ now. Postgres.change_user now a.id (lowered lib.lower a.email) a.role_id)
              λ run w fits.
                subst
                  (λ email.
                    SameRows
                      (then_find (active_user a.id) (
                        Users.change_user_row run.now a.id (Option.map lib.lower a.email) a.role_id
                          w.db))
                      (Postgres.change_user run.now a.id email a.role_id w.db))
                  (lowered_lem lib.lower a.email)
                  (change_user-SameRows run.now a.id (Option.map lib.lower a.email) a.role_id w.db
                    fits.0 fits.1)));
  }
