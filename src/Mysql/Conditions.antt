-- ===== src/Mysql/Conditions.antt =====
-- internal/db/mysql/migrations: where the two databases may differ: the widths of the columns, ids that
-- are taken, a lease that does not move, and an order that `ListUsers` is not asked for.
use golang_backend.Base.{
  ℕ, String, ◌≡◌, some, none, Bool, true, false, not, ◌&&◌, ◌||◌, ◌==◌, string_eq, any, all, ltb,
}
use mathlib.Core.Option
use mathlib.Core.Option.{Option}
use golang_backend.Library.{Library}
use golang_backend.Database.Action.{Run, World}
use golang_backend.Database.Users.{is_active, CreateUserParams, UpdateUserParams, ListUsersParams}
use golang_backend.Database.Outbox.{EnqueueEmailParams, RenewEmailParams, renewable}
use golang_backend.Database.Notices.{CreateNotificationParams}
use golang_backend.Database.Files.{CreateFileParams, known_storage}
use golang_backend.Database.Logs.{InsertAuditParams}
use golang_backend.Database.Seeds.{SeedUserParams}
use golang_backend.Mysql.Errors.{too_long}
use golang_backend.Mysql.Users.{some_too_long}
use golang_backend.Mysql.Outbox.{leased_until}
use golang_backend.Mysql.Files.{file_too_long}

abbrev pub Fits : ℕ → String → Run → World → Type 0
Fits width text run w = too_long width text ≡ false

-- an address and a hash of at most 255 characters
abbrev pub UserFits : Library → CreateUserParams → Run → World → Type 0
UserFits lib a run w =
    (too_long 255 (lib.lower a.email) ≡ false) × (too_long 255 a.password ≡ false)

-- no row at the id is deleted: the services lock the row first, which finds no deleted one
abbrev pub UpdateFits : Library → UpdateUserParams → Run → World → Type 0
UpdateFits lib a run w =
    (some_too_long 255 (Option.map lib.lower a.email) ≡ false)
    × (all (λ u. not (u.id == a.id) || is_active u) w.db.users ≡ true)

-- the values that `List` of internal/user/service.go lets through
abbrev pub is_page_asked : ListUsersParams → Bool
is_page_asked a =
    (a.sort_by == "email" || (a.sort_by == "createdAt" || a.sort_by == "updatedAt"))
    && ((a.direction == "asc" || a.direction == "desc") && ltb a.page_offset 2147483648)

abbrev pub PageAsked : ListUsersParams → Run → World → Type 0
PageAsked a run w = is_page_asked a ≡ true

abbrev pub FileFits : CreateFileParams → Run → World → Type 0
FileFits a run w = (file_too_long a ≡ false) × (known_storage a.storage ≡ true)

abbrev pub NoticeFits : CreateNotificationParams → Run → World → Type 0
NoticeFits a run w = (too_long 160 a.title || too_long 4000 a.body) ≡ false

abbrev pub MailFits : EnqueueEmailParams → Run → World → Type 0
MailFits a run w =
    (too_long 255 a.recipient || (too_long 160 a.title || too_long 4000 a.body)) ≡ false

abbrev pub LogFits : InsertAuditParams → Run → World → Type 0
LogFits a run w = (too_long 64 a.behavior || too_long 64 a.module_name) ≡ false

-- no lease that is renewed ends already at the instant that it is renewed to
abbrev pub LeaseMoves : RenewEmailParams → Run → World → Type 0
LeaseMoves a run w =
    any (λ j. renewable run.now a j && leased_until j.lease_until a.lease_until) w.db.email_jobs
    ≡ false

-- the id that is drawn is new
abbrev pub NewRole : String → Run → World → Type 0
NewRole name run w =
    (too_long 64 name ≡ false) × (any (λ r. r.id == run.fresh w.drawn) w.db.roles ≡ false)

abbrev pub NewPermission : String → Run → World → Type 0
NewPermission name run w =
    (too_long 128 name ≡ false) × (any (λ p. p.id == run.fresh w.drawn) w.db.permissions ≡ false)

abbrev pub NewUser : Library → SeedUserParams → Run → World → Type 0
NewUser lib a run w =
    (too_long 255 (lib.lower a.email) ≡ false)
    × (too_long 255 a.password ≡ false)
    × (any (λ u. u.id == run.fresh w.drawn) w.db.users ≡ false)

-- a text in the spelling in which PostgreSQL writes it as a uuid
abbrev pub Spelled : Library → String → (Run → World → Type 0) → Run → World → Type 0
Spelled lib id Pre run w = (lib.read_uuid id ≡ some id) × Pre run w

abbrev pub SomeSpelled : Library → Option String → (Run → World → Type 0) → Run → World → Type 0
SomeSpelled lib none Pre = Pre
SomeSpelled lib (some id) Pre = Spelled lib id Pre
