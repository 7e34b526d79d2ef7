-- ===== src/Mysql/Refinement/Notices.antt =====
-- internal/db/mysql_adapter.go: the methods on notifications.
use golang_backend.Base.{
  ℕ, String, ◌≡◌, refl, Bool, true, false, ◌||◌, arith, ◌==◌, string_eq, nat_eq, update_where,
}
use golang_backend.Library.{Library}
use golang_backend.Database.Action.{ok, query}
use golang_backend.Database.Postgres.{postgres}
use golang_backend.Mysql.Errors.{too_long}
use golang_backend.Mysql.Adapter
use golang_backend.Mysql.Adapter.{mysql_queries}
use golang_backend.Mysql.Refinement.Uuids.{some_uuid-Implements, uuid-Implements}
use golang_backend.Database.Uuid.{by_some_uuid, by_uuid}
use golang_backend.Mysql.Simulation.{
  SameRows, Always, change_agrees, row_agrees, statement-Implements,
}
use golang_backend.Mysql.Refinement.Errors.{db-duplicate, db-no_referenced}
use mathlib.Core.Option
use golang_backend.Database.Tables.{Db, Notification, NotificationCounter}
use golang_backend.Database.Notices as Postgres
use golang_backend.Database.Notices.{
  CreateNotificationParams, NotificationPageParams, NotificationBacklogParams, increment, read_now,
}
use golang_backend.Mysql.Notices
use golang_backend.Mysql.Adapter.{flag, page_params, backlog_params}
use golang_backend.Mysql.Conditions.{NoticeFits}
use golang_backend.Mysql.Contract.{NoticeMethods}

insert_notification-SameRows :
    (now : ℕ) (a : CreateNotificationParams) (d : Db)
    → (too_long 160 a.title || too_long 4000 a.body) ≡ false
    → SameRows (Notices.insert_notification now a d) (Postgres.insert_notification now a d)
unfolding Notices.insert_notification Postgres.insert_notification
insert_notification-SameRows now a d fits = ground (arith, db-duplicate, db-no_referenced)

insert_counter-SameRows :
    (recipient : String) (d : Db)
    → SameRows (Notices.insert_counter recipient d) (Postgres.insert_counter recipient d)
unfolding Notices.insert_counter Postgres.insert_counter
insert_counter-SameRows recipient d = ground (arith, db-no_referenced)

-- a flag that is a number says what the Boolean says
own_rows_lem :
    (recipient : String) (unread : Bool) (d : Db)
    → Notices.own_rows recipient (flag unread) d ≡ Postgres.own_rows recipient unread d
unfolding Notices.own_rows Postgres.own_rows nat_eq
own_rows_lem recipient true d = refl
own_rows_lem recipient false d = refl

rows_of_page_lem :
    (recipient : String) (cursor : Bool) (sequence : ℕ) (d : Db)
    → Notices.rows_of_page
        (record { recipient_id = recipient; has_cursor = flag cursor; sequence = sequence })
        d
      ≡ Postgres.rows_of_page
          (record { recipient_id = recipient; has_cursor = cursor; sequence = sequence })
          d
unfolding Notices.rows_of_page Postgres.rows_of_page nat_eq
rows_of_page_lem recipient true sequence d = refl
rows_of_page_lem recipient false sequence d = refl

rows_of_backlog_lem :
    (recipient : String) (cursor unread : Bool) (sequence : ℕ) (d : Db)
    → Notices.rows_of_backlog
        (record {
          recipient_id = recipient;
          has_cursor = flag cursor;
          sequence = sequence;
          unread_only = flag unread;
        })
        d
      ≡ Postgres.rows_of_backlog
          (record {
            recipient_id = recipient;
            has_cursor = cursor;
            sequence = sequence;
            unread_only = unread;
          })
          d
unfolding Notices.rows_of_backlog Postgres.rows_of_backlog nat_eq
rows_of_backlog_lem recipient true true sequence d = refl
rows_of_backlog_lem recipient true false sequence d = refl
rows_of_backlog_lem recipient false true sequence d = refl
rows_of_backlog_lem recipient false false sequence d = refl

module _ (lib : Library) where
  pub notice_methods : NoticeMethods lib (mysql_queries lib) (postgres lib)
  unfolding Postgres.create_notification Notices.create_notification
      Postgres.ensure_notification_counter Notices.ensure_notification_counter
      Postgres.find_notification Notices.find_notification Postgres.increment_notification_counter
      Notices.increment_notification_counter Postgres.list_own_notifications
      Notices.list_own_notifications Adapter.list_own_notifications Postgres.lock_own_notification
      Notices.lock_own_notification Postgres.notification_backlog Notices.notification_backlog
      Adapter.notification_backlog Postgres.notification_cursor Notices.notification_cursor
      Postgres.notification_page Notices.notification_page Adapter.notification_page
      Postgres.notification_sequence Notices.notification_sequence Postgres.read_notification
      Notices.read_notification query
  notice_methods = record {
    create_notification = λ a.
        uuid-Implements lib
          (λ run k1.
            by_uuid lib run
              (λ k2.
                by_some_uuid lib run
                  (λ k3.
                    Postgres.create_notification run
                      (record a { id = k1; recipient_id = k2; actor_id = k3 }))
                  a.actor_id)
              a.recipient_id)
          a.id
          (uuid-Implements lib
            (λ run k2.
              by_some_uuid lib run
                (λ k3.
                  Postgres.create_notification run
                    (record a { id = a.id; recipient_id = k2; actor_id = k3 }))
                a.actor_id)
            a.recipient_id
            (some_uuid-Implements lib
              (λ run k3.
                Postgres.create_notification run
                  (record a { id = a.id; recipient_id = a.recipient_id; actor_id = k3 }))
              a.actor_id
              (statement-Implements (NoticeFits a) (λ now. Notices.insert_notification now a)
                (λ now. Postgres.insert_notification now a)
                λ run w fits. insert_notification-SameRows run.now a w.db fits)));
    ensure_notification_counter = λ recipient.
        uuid-Implements lib (λ run k1. Postgres.ensure_notification_counter run k1) recipient
          (statement-Implements Always (λ now. Notices.insert_counter recipient)
            (λ now. Postgres.insert_counter recipient)
            λ run w pre. insert_counter-SameRows recipient w.db);
    find_notification = λ id.
        uuid-Implements lib (λ run k1. Postgres.find_notification run k1) id
          (λ run w pre. row_agrees run (Postgres.notification_at id) w);
    increment_notification_counter = λ recipient.
        uuid-Implements lib (λ run k1. Postgres.increment_notification_counter run k1) recipient
          (λ run w pre.
            change_agrees run
              (λ d. record d {
                counters = update_where (λ c. c.recipient_id == recipient) increment d.counters;
              })
              w);
    list_own_notifications = λ recipient unread.
        uuid-Implements lib (λ run k1. Postgres.list_own_notifications run k1 unread) recipient
          (statement-Implements Always (λ now d. ok (Notices.own_rows recipient (flag unread) d, d))
            (λ now d. ok (Postgres.own_rows recipient unread d, d))
            λ run w pre. (own_rows_lem recipient unread w.db, refl));
    lock_own_notification = λ id recipient.
        uuid-Implements lib
          (λ run k1. by_uuid lib run (λ k2. Postgres.lock_own_notification run k1 k2) recipient) id
          (uuid-Implements lib (λ run k2. Postgres.lock_own_notification run id k2) recipient
            (λ run w pre. row_agrees run (Postgres.own_notification_at id recipient) w));
    notification_backlog = λ a.
        uuid-Implements lib
          (λ run k1. Postgres.notification_backlog run (record a { recipient_id = k1 }))
          a.recipient_id
          (statement-Implements Always
            (λ now d. ok (Notices.rows_of_backlog (backlog_params a) d, d))
            (λ now d. ok (Postgres.rows_of_backlog a d, d))
            λ run w pre. (
              rows_of_backlog_lem a.recipient_id a.has_cursor a.unread_only a.sequence w.db,
              refl,
            ));
    notification_cursor = λ id recipient.
        uuid-Implements lib
          (λ run k1. by_uuid lib run (λ k2. Postgres.notification_cursor run k1 k2) recipient) id
          (uuid-Implements lib (λ run k2. Postgres.notification_cursor run id k2) recipient
            (λ run w pre.
              row_agrees run
                (λ d.
                  Option.map Notification.sequence (Postgres.own_notification_at id recipient d))
                w));
    notification_page = λ a.
        uuid-Implements lib
          (λ run k1. Postgres.notification_page run (record a { recipient_id = k1 })) a.recipient_id
          (statement-Implements Always (λ now d. ok (Notices.rows_of_page (page_params a) d, d))
            (λ now d. ok (Postgres.rows_of_page a d, d))
            λ run w pre. (rows_of_page_lem a.recipient_id a.has_cursor a.sequence w.db, refl));
    notification_sequence = λ recipient.
        uuid-Implements lib (λ run k1. Postgres.notification_sequence run k1) recipient
          (λ run w pre.
            row_agrees run
              (λ d. Option.map NotificationCounter.sequence (Postgres.counter_at recipient d)) w);
    read_notification = λ id.
        uuid-Implements lib (λ run k1. Postgres.read_notification run k1) id
          (λ run w pre.
            change_agrees run
              (λ d. record d {
                notifications = update_where (λ n. n.id == id) (read_now run.now) d.notifications;
              })
              w);
  }
