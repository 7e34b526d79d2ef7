-- ===== src/User/Changes.antt =====
-- internal/user/service.go, `Update`: what the change of one row does to the others.
use golang_backend.Base.{
  ==→eq, if◌then◌else◌, ℕ, String, ◌≡◌, refl, ◌∙◌, ap, Bool, true, false, ◌&&◌, Option, some, List,
  [], ◌∷◌, arith, ◌==◌, string_eq, find_first, update_where,
}
use golang_backend.Database.Tables.{Db, User, ActivityLog}
use golang_backend.Database.Permissions.{holders}
use golang_backend.Database.Users.{is_active, changed}
use golang_backend.Role.Laws.{StillHeld}
use golang_backend.User.Sessions.{SessionsEnded}

pub changed_at :
    (now : ℕ) (id : String) (email role : Option String) (old : User) (us : List User)
    → find_first (λ u. u.id == id && is_active u) us ≡ some old
    → find_first
        (λ u. u.id == id && is_active u)
        (update_where (λ u. u.id == id) (changed now email role) us)
      ≡ some (changed now email role old)
unfolding is_active
changed_at now id email role old [] h = absurd (cc h)
changed_at now id email role old (u ∷ us) h = ground (arith, changed_at now id email role old us)

pub others_stay :
    (now : ℕ) (id j : String) (email role : Option String) (us : List User)
    → (j == id) ≡ false
    → find_first
        (λ u. u.id == j && is_active u)
        (update_where (λ u. u.id == id) (changed now email role) us)
      ≡ find_first (λ u. u.id == j && is_active u) us
unfolding is_active
others_stay now id j email role [] h = refl
others_stay now id j email role (u ∷ us) h = ground (arith, others_stay now id j email role us)

pub found_after :
    (now : ℕ) (id j : String) (email role : Option String) (old : User) (us : List User) (b : Bool)
    → (j == id) ≡ b
    → find_first (λ u. u.id == id && is_active u) us ≡ some old
    → find_first
        (λ u. u.id == j && is_active u)
        (update_where (λ u. u.id == id) (changed now email role) us)
      ≡ (if b
          then some (changed now email role old)
          else find_first (λ u. u.id == j && is_active u) us)
found_after now id j email role old us true same h =
    ap
      (λ k.
        find_first (λ u. u.id == k && is_active u)
          (update_where (λ u. u.id == id) (changed now email role) us))
      (==→eq j id same)
    ∙ changed_at now id email role old us h
found_after now id j email role old us false differ h = others_stay now id j email role us differ

-- what a change of the role, if there is one, brings with it
abbrev pub RoleChange : Bool → String → Db → Db → Type 0
RoleChange true id d d' = SessionsEnded id d' × StillHeld d d'
RoleChange false id d d' = Unit {0}

pub RoleChange-log :
    (changes : Bool) (id : String) (d d' : Db) (rows : List ActivityLog)
    → RoleChange changes id d d'
    → RoleChange changes id d (record d' { logs = rows })
unfolding holders
RoleChange-log true id d d' rows (over, held) = (over, held)
RoleChange-log false id d d' rows done = done
