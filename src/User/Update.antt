-- ===== src/User/Update.antt =====
-- internal/user/service.go, `Update`: what an update does, and who may do it.
use golang_backend.Base.{if◌then◌else◌, String, ◌≡◌, Option, some, ◌==◌, string_eq}
use golang_backend.Library.{Library}
use golang_backend.Model
use golang_backend.Model.{UpdateUserBody}
use golang_backend.Database.Tables.{Db, User}
use golang_backend.Database.Action.{Run}
use golang_backend.Database.Roles.{permission_ids}
use golang_backend.Database.Users.{active_user, lowered, changed}
use golang_backend.Audit.Writer.{Actor}
use golang_backend.Role.Laws.{Within}
use golang_backend.User.Service.{role_changes}
use golang_backend.User.Changes.{RoleChange}

module _ (lib : Library) (run : Run) where
  -- what an update of the user does to the tables
  pub record Updated (actor : Option Actor) (id : String) (b : UpdateUserBody) (d d' : Db)
      : Type 0 where
    pub old : User
    pub was_active : active_user id d ≡ some old
    pub within_old : Within actor (permission_ids old.role_id d) d
    pub within_new :
        (role : String) → b.role_id ≡ some role → Within actor (permission_ids role d) d
    pub users_after :
        (j : String)
        → active_user j d' ≡ (
            if j == id
            then some (changed run.now (lowered lib.lower b.email) b.role_id old)
            else active_user j d)
    pub role_change : RoleChange (role_changes b.role_id old.role_id) id d d'
