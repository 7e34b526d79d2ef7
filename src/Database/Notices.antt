-- ===== src/Database/Notices.antt =====
-- internal/db/sqlc/notification.sql.go: the statements on notifications and their counters.
use golang_backend.Base.{
  ℕ, suc, String, Bool, true, not, ◌&&◌, ◌||◌, Option, none, some, List, ◌∷◌, ◌==◌, string_eq,
  nat_eq, ltb, leb, if◌then◌else◌, any, keep_if, find_first, update_where, sort_by, text_le, take,
}
use mathlib.Core.Option
use golang_backend.Fault.{pg}
use golang_backend.Database.Tables.{Db, Notification, NotificationCounter, EmailStatus}
use golang_backend.Database.Action.{Result, ok, err, Run, M, statement, query, query_row, exec}
use golang_backend.Database.Sessions.{is_set}

unfoldable pub notification_at : String → Db → Option Notification
notification_at id d = find_first (λ n. n.id == id) d.notifications

unfoldable pub own_notification_at : String → String → Db → Option Notification
own_notification_at id recipient d =
    find_first (λ n. n.id == id && n.recipient_id == recipient) d.notifications

unfoldable pub counter_at : String → Db → Option NotificationCounter
counter_at recipient d = find_first (λ c. c.recipient_id == recipient) d.counters

-- `ON CONFLICT(recipient_id) DO NOTHING`
unfoldable pub insert_counter : String → Db → Result (Unit {0} × Db)
insert_counter recipient d =
    if any (λ c. c.recipient_id == recipient) d.counters
    then ok (tt, d)
    else if any (λ u. u.id == recipient) d.users
    then ok
        (tt, record d { counters = record { recipient_id = recipient; sequence = 0 } ∷ d.counters })
    else err (pg "23503")

abbrev pub increment : NotificationCounter → NotificationCounter
increment c = record c { sequence = suc c.sequence }

pub record CreateNotificationParams : Type 0 where
  pub id : String
  pub recipient_id : String
  pub actor_id : Option String
  pub title : String
  pub body : String
  pub email_status : EmailStatus
  pub sequence : ℕ

abbrev pub new_notification : ℕ → CreateNotificationParams → Notification
new_notification now a = record {
  id = a.id;
  recipient_id = a.recipient_id;
  actor_id = a.actor_id;
  title = a.title;
  body = a.body;
  email_status = a.email_status;
  read_at = none;
  created_at = now;
  sequence = a.sequence;
}

abbrev pub known_actor : Db → Option String → Bool
known_actor d none = true
known_actor d (some id) = any (λ u. u.id == id) d.users

-- the unique index on the recipient and the sequence
unfoldable pub insert_notification : ℕ → CreateNotificationParams → Db → Result (Unit {0} × Db)
insert_notification now a d =
    if any (λ n. n.id == a.id || (n.recipient_id == a.recipient_id && n.sequence == a.sequence))
      d.notifications
    then err (pg "23505")
    else if any (λ u. u.id == a.recipient_id) d.users && known_actor d a.actor_id
    then ok (tt, record d { notifications = new_notification now a ∷ d.notifications })
    else err (pg "23503")

-- `coalesce(read_at,now())`
abbrev pub read_now : ℕ → Notification → Notification
read_now now n = elim n.read_at [ none ↦ record n { read_at = some now } | some t ↦ n ]

-- `ORDER BY created_at DESC,id DESC`
abbrev pub newest_first : Notification → Notification → Bool
newest_first m n =
    if m.created_at == n.created_at then text_le n.id m.id else leb n.created_at m.created_at

abbrev pub in_sequence : Notification → Notification → Bool
in_sequence m n = leb m.sequence n.sequence

abbrev pub against_sequence : Notification → Notification → Bool
against_sequence m n = leb n.sequence m.sequence

pub record NotificationPageParams : Type 0 where
  pub recipient_id : String
  pub has_cursor : Bool
  pub sequence : ℕ

pub record NotificationBacklogParams : Type 0 where
  pub recipient_id : String
  pub has_cursor : Bool
  pub sequence : ℕ
  pub unread_only : Bool

-- `recipient_id=$1 AND ($2=false OR sequence < $3) ORDER BY sequence DESC LIMIT 51`
unfoldable pub rows_of_page : NotificationPageParams → Db → List Notification
rows_of_page a d = take 51 (
    sort_by against_sequence (
      keep_if
        (λ n. n.recipient_id == a.recipient_id && (not a.has_cursor || ltb n.sequence a.sequence))
        d.notifications))

abbrev pub in_backlog : NotificationBacklogParams → Notification → Bool
in_backlog a n =
    n.recipient_id == a.recipient_id
    && (((a.has_cursor && ltb a.sequence n.sequence)
          || (not a.has_cursor && not (is_set n.read_at)))
        && (not a.unread_only || not (is_set n.read_at)))

unfoldable pub rows_of_backlog : NotificationBacklogParams → Db → List Notification
rows_of_backlog a d = take 50 (sort_by in_sequence (keep_if (in_backlog a) d.notifications))

unfoldable pub own_rows : String → Bool → Db → List Notification
own_rows recipient unread d = take 50 (
    sort_by newest_first (
      keep_if (λ n. n.recipient_id == recipient && (not unread || not (is_set n.read_at)))
        d.notifications))

module _ (run : Run) where
  unfoldable pub create_notification : CreateNotificationParams → M (Unit {0})
  create_notification a = statement run (insert_notification run.now a)

  unfoldable pub ensure_notification_counter : String → M (Unit {0})
  ensure_notification_counter recipient = statement run (insert_counter recipient)

  unfoldable pub increment_notification_counter : String → M (Unit {0})
  increment_notification_counter recipient = exec run λ d. record d {
    counters = update_where (λ c. c.recipient_id == recipient) increment d.counters;
  }

  unfoldable pub notification_sequence : String → M ℕ
  notification_sequence recipient =
      query_row run (λ d. Option.map NotificationCounter.sequence (counter_at recipient d))

  unfoldable pub find_notification : String → M Notification
  find_notification id = query_row run (notification_at id)

  unfoldable pub lock_own_notification : String → String → M Notification
  lock_own_notification id recipient = query_row run (own_notification_at id recipient)

  unfoldable pub read_notification : String → M (Unit {0})
  read_notification id = exec run λ d. record d {
    notifications = update_where (λ n. n.id == id) (read_now run.now) d.notifications;
  }

  unfoldable pub list_own_notifications : String → Bool → M (List Notification)
  list_own_notifications recipient unread = query run (own_rows recipient unread)

  unfoldable pub notification_cursor : String → String → M ℕ
  notification_cursor id recipient =
      query_row run (λ d. Option.map Notification.sequence (own_notification_at id recipient d))

  unfoldable pub notification_page : NotificationPageParams → M (List Notification)
  notification_page a = query run (rows_of_page a)

  unfoldable pub notification_backlog : NotificationBacklogParams → M (List Notification)
  notification_backlog a = query run (rows_of_backlog a)
