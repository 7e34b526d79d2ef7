-- ===== src/Mysql/Notices.antt =====
-- internal/db/mysql/sqlc/notification.sql.go: the statements on notifications and their counters.
use golang_backend.Base.{
  ℕ, String, Bool, ◌&&◌, ◌||◌, not, List, ◌∷◌, ◌==◌, string_eq, nat_eq, if◌then◌else◌, any, keep_if,
  update_where, sort_by, take, ltb,
}
use mathlib.Core.Option
use golang_backend.Database.Tables.{Db, Notification, NotificationCounter, EmailStatus}
use golang_backend.Database.Action.{Result, ok, err, Run, M, statement, query, query_row, exec}
use golang_backend.Database.Sessions.{is_set}
use golang_backend.Database.Notices.{
  CreateNotificationParams, new_notification, known_actor, counter_at, increment, notification_at,
  own_notification_at, read_now, newest_first, in_sequence, against_sequence,
}
use golang_backend.Mysql.Errors.{duplicate_entry, no_referenced_row, data_too_long, too_long}

-- `ON DUPLICATE KEY UPDATE sequence=sequence`
unfoldable pub insert_counter : String → Db → Result (Unit {0} × Db)
insert_counter recipient d =
    if any (λ c. c.recipient_id == recipient) d.counters
    then ok (tt, d)
    else if any (λ u. u.id == recipient) d.users
    then ok
        (tt, record d { counters = record { recipient_id = recipient; sequence = 0 } ∷ d.counters })
    else err no_referenced_row

-- `title varchar(160)`, `body varchar(4000)`
unfoldable pub insert_notification : ℕ → CreateNotificationParams → Db → Result (Unit {0} × Db)
insert_notification now a d =
    if too_long 160 a.title || too_long 4000 a.body
    then err data_too_long
    else if any
        (λ n. n.id == a.id || (n.recipient_id == a.recipient_id && n.sequence == a.sequence))
        d.notifications
    then err duplicate_entry
    else if any (λ u. u.id == a.recipient_id) d.users && known_actor d a.actor_id
    then ok (tt, record d { notifications = new_notification now a ∷ d.notifications })
    else err no_referenced_row

-- flags are numbers: `CAST(… AS SIGNED)=0`
pub record NotificationPageParams : Type 0 where
  pub recipient_id : String
  pub has_cursor : ℕ
  pub sequence : ℕ

pub record NotificationBacklogParams : Type 0 where
  pub recipient_id : String
  pub has_cursor : ℕ
  pub sequence : ℕ
  pub unread_only : ℕ

unfoldable pub rows_of_page : NotificationPageParams → Db → List Notification
rows_of_page a d = take 51 (
    sort_by against_sequence (
      keep_if
        (λ n. n.recipient_id == a.recipient_id && (a.has_cursor == 0 || ltb n.sequence a.sequence))
        d.notifications))

abbrev pub in_backlog : NotificationBacklogParams → Notification → Bool
in_backlog a n =
    n.recipient_id == a.recipient_id
    && (((a.has_cursor == 1 && ltb a.sequence n.sequence)
          || (a.has_cursor == 0 && not (is_set n.read_at)))
        && (a.unread_only == 0 || not (is_set n.read_at)))

unfoldable pub rows_of_backlog : NotificationBacklogParams → Db → List Notification
rows_of_backlog a d = take 50 (sort_by in_sequence (keep_if (in_backlog a) d.notifications))

unfoldable pub own_rows : String → ℕ → Db → List Notification
own_rows recipient unread d = take 50 (
    sort_by newest_first (
      keep_if (λ n. n.recipient_id == recipient && (unread == 0 || not (is_set n.read_at)))
        d.notifications))

module _ (run : Run) where
  unfoldable pub create_notification : CreateNotificationParams → M (Unit {0})
  create_notification a = statement run (insert_notification run.now a)

  unfoldable pub ensure_notification_counter : String → M (Unit {0})
  ensure_notification_counter recipient = statement run (insert_counter recipient)

  unfoldable pub increment_notification_counter : String → M (Unit {0})
  increment_notification_counter recipient = exec run λ d. record d {
    counters = update_where (λ c. c.recipient_id == recipient) increment d.counters;
  }

  unfoldable pub notification_sequence : String → M ℕ
  notification_sequence recipient =
      query_row run (λ d. Option.map NotificationCounter.sequence (counter_at recipient d))

  unfoldable pub find_notification : String → M Notification
  find_notification id = query_row run (notification_at id)

  unfoldable pub lock_own_notification : String → String → M Notification
  lock_own_notification id recipient = query_row run (own_notification_at id recipient)

  unfoldable pub read_notification : String → M (Unit {0})
  read_notification id = exec run λ d. record d {
    notifications = update_where (λ n. n.id == id) (read_now run.now) d.notifications;
  }

  unfoldable pub set_notification_email_status : String → EmailStatus → M (Unit {0})
  set_notification_email_status id status = exec run λ d. record d {
    notifications =
        update_where (λ n. n.id == id) (λ n. record n { email_status = status }) d.notifications;
  }

  unfoldable pub list_own_notifications : String → ℕ → M (List Notification)
  list_own_notifications recipient unread = query run (own_rows recipient unread)

  unfoldable pub notification_cursor : String → String → M ℕ
  notification_cursor id recipient =
      query_row run (λ d. Option.map Notification.sequence (own_notification_at id recipient d))

  unfoldable pub notification_page : NotificationPageParams → M (List Notification)
  notification_page a = query run (rows_of_page a)

  unfoldable pub notification_backlog : NotificationBacklogParams → M (List Notification)
  notification_backlog a = query run (rows_of_backlog a)
