-- ===== src/Notification/Service.antt =====
-- internal/notification/service.go: `Create`, `List`, `Read`, `Cursor`, `Page`, `Backlog`. `Send` hands a
-- mail to github.com/wneessen/go-mail and has no state; the worker is given its outcome.
use Prim.Native.String.{len}
use golang_backend.Base.{
  ℕ, String, Bool, true, false, not, ◌&&◌, ◌||◌, Option, none, some, List, ◌==◌, string_eq, ltb,
  if◌then◌else◌, trim_space, map, take, length, get_elem?,
}
use golang_backend.Fault.{Error, plain}
use golang_backend.Json.{Json, text, number, object, member, end}
use golang_backend.Library.{Library}
use golang_backend.Model.{optional_number}
use golang_backend.Database.Tables.{
  Notification, EmailStatus, not_requested, awaiting, delivered, undelivered, User,
}
use golang_backend.Database.Action.{Run, M, pure, raise, ◌>>=◌, ◌>>◌, check, draw}
use golang_backend.Database.Users.{find_active_user_by_id, lock_user}
use golang_backend.Database.Outbox.{enqueue_email}
use golang_backend.Database.Notices.{
  create_notification, ensure_notification_counter, increment_notification_counter,
  notification_sequence, find_notification, lock_own_notification, read_notification,
  list_own_notifications, notification_cursor, notification_page, notification_backlog,
}
use golang_backend.Audit.Writer.{Actor, Policy, Change, capture, mutate}
use golang_backend.Auth.Session.{optional_row}

pub record Item : Type 0 where
  pub id : String
  pub recipient_id : String
  pub title : String
  pub body : String
  pub email_status : EmailStatus
  pub read_at : Option ℕ
  pub created_at : ℕ

pub record CreateInput : Type 0 where
  pub recipient_id : String
  pub title : String
  pub body : String
  pub send_email : Bool

abbrev pub err_recipient : Error
err_recipient = plain "recipient not found"

abbrev pub err_item : Error
err_item = plain "notification not found"

abbrev pub err_invalid : Error
err_invalid = plain "invalid notification"

-- `project`
unfoldable pub project : Notification → Item
project row = record {
  id = row.id;
  recipient_id = row.recipient_id;
  title = row.title;
  body = row.body;
  email_status = row.email_status;
  read_at = row.read_at;
  created_at = row.created_at;
}

abbrev status_text : EmailStatus → String
status_text not_requested = "NOT_REQUESTED"
status_text awaiting = "PENDING"
status_text delivered = "SENT"
status_text undelivered = "FAILED"

unfoldable pub item_json : Item → Json
item_json i = object (
    member "id" (text i.id) (
      member "recipientId" (text i.recipient_id) (
        member "title" (text i.title) (
          member "body" (text i.body) (
            member "emailStatus" (text (status_text i.email_status)) (
              member "readAt" (optional_number i.read_at)
                (member "createdAt" (number i.created_at) end)))))))

abbrev pub or_raise : {A : Type 0} → Error → Option A → M A
or_raise e none = raise e
or_raise e (some a) = pure a

unfoldable pub input_is_bad : CreateInput → Bool
input_is_bad input =
    trim_space input.title == ""
    || (trim_space input.body == "" || (ltb 160 (len input.title) || ltb 4000 (len input.body)))

abbrev pub initial_status : Bool → Bool → EmailStatus
initial_status false smtp = not_requested
initial_status true false = undelivered
initial_status true true = awaiting

module _ (lib : Library) (run : Run) (smtp_enabled : Bool) where
  unfoldable pub enqueue_if : Bool → String → User → CreateInput → M (Unit {0})
  enqueue_if false id user input = pure tt
  enqueue_if true id user input = do
    job ← draw run
    enqueue_email run (record {
      id = job;
      notification_id = id;
      recipient = user.email;
      title = trim_space input.title;
      body = trim_space input.body;
    })

  unfoldable pub create_body : Actor → CreateInput → M (Item × Change)
  unfolding enqueue_if optional_row
  create_body actor input = do
    found ← optional_row (lock_user run input.recipient_id)
    locked ← or_raise err_recipient found
    ensure_notification_counter run input.recipient_id
    increment_notification_counter run input.recipient_id
    sequence ← notification_sequence run input.recipient_id
    id ← draw run
    create_notification run (record {
      id = id;
      recipient_id = input.recipient_id;
      actor_id = some actor.id;
      title = trim_space input.title;
      body = trim_space input.body;
      email_status = initial_status input.send_email smtp_enabled;
      sequence = sequence;
    })
    enqueue_if (input.send_email && smtp_enabled) id locked input
    row ← find_notification run id
    let value = project row
    pure (value, capture lib.lower id none (some (item_json value)))

  -- `Create`; it reads the actor, so it is given one
  unfoldable pub create : Policy → Actor → CreateInput → M Item
  unfolding optional_row
  create p actor input = do
    check (if input_is_bad input then some err_invalid else none)
    found ← optional_row (find_active_user_by_id run input.recipient_id)
    _ ← or_raise err_recipient found
    mutate run p (some actor) "CREATE" (create_body actor input)

  -- `List`
  unfoldable pub list : String → Bool → M (List Item)
  list recipient unread = do
    rows ← list_own_notifications run recipient unread
    pure (map project rows)

  unfoldable pub read_body : Actor → String → M (Item × Change)
  unfolding optional_row
  read_body actor id = do
    found ← optional_row (lock_own_notification run id actor.id)
    prior ← or_raise err_item found
    read_notification run id
    row ← find_notification run id
    let before = item_json (project prior)
    let value = project row
    pure (value, capture lib.lower id (some before) (some (item_json value)))

  -- `Read`
  unfoldable pub read : Policy → Actor → String → M Item
  read p actor id = mutate run p (some actor) "UPDATE" (read_body actor id)

  -- `Cursor`; the sequence stands in an option in place of `has`
  unfoldable pub cursor : String → String → M (Option ℕ)
  unfolding optional_row
  cursor recipient id =
      if id == "" then pure none else if not (lib.valid_uuid id) then raise err_invalid else do
        found ← optional_row (notification_cursor run id recipient)
        sequence ← or_raise err_invalid found
        pure (some sequence)

  abbrev pub has_value : Option ℕ → Bool
  has_value none = false
  has_value (some n) = true

  abbrev pub value_or_zero : Option ℕ → ℕ
  value_or_zero none = 0
  value_or_zero (some n) = n

  abbrev id_of : Option Notification → String
  id_of none = ""
  id_of (some n) = n.id

  -- the rows that are shown and the next cursor, which is empty on the last page
  unfoldable pub cut : List Notification → List Notification × String
  cut rows = if ltb 50 (length rows) then (take 50 rows, id_of (get_elem? rows 49)) else (rows, "")

  -- `Page`
  unfoldable pub page : String → String → M (List Item × String)
  unfolding cut
  page recipient id = do
    sequence ← cursor recipient id
    rows ← notification_page run (record {
      recipient_id = recipient;
      has_cursor = has_value sequence;
      sequence = value_or_zero sequence;
    })
    pure (map project (cut rows).0, (cut rows).1)

  rows_for : String → Option ℕ → Bool → Option User → M (Option (List (Item × ℕ)))
  rows_for recipient sequence unread none = pure none
  rows_for recipient sequence unread (some user) = do
    rows ← notification_backlog run (record {
      recipient_id = recipient;
      has_cursor = has_value sequence;
      sequence = value_or_zero sequence;
      unread_only = unread;
    })
    pure (some (map (λ n. (project n, Notification.sequence n)) rows))

  -- `Backlog`; `none` where the recipient is not active
  unfoldable pub backlog : String → Option ℕ → Bool → M (Option (List (Item × ℕ)))
  unfolding rows_for optional_row
  backlog recipient sequence unread = do
    user ← optional_row (find_active_user_by_id run recipient)
    rows_for recipient sequence unread user
