-- ===== src/Notification/Counters.antt =====
-- internal/db/sqlc/notification.sql.go: what the statements of a creation do to the counters.
use golang_backend.Base.{
  ℕ, suc, String, ◌≡◌, refl, sym, ap, Bool, true, false, not, ◌||◌, Option, none, some, List, [],
  ◌∷◌, arith, ◌==◌, string_eq, nat_eq, leb, find_first, update_where, any, all,
}
use mathlib.Core.Option
use golang_backend.Library.{Library}
use golang_backend.Database.Tables.{Db, NotificationCounter, User}
use golang_backend.Database.Action.{ok, Run, World}
use golang_backend.Database.Laws.{bind-ok, pure-ok, statement-ok}
use golang_backend.Database.Effects.{draw-same}
use golang_backend.Database.Outbox.{enqueue_email, insert_job}
use golang_backend.Database.Notices.{
  insert_counter, increment, CreateNotificationParams, new_notification, insert_notification,
  create_notification,
}
use golang_backend.Notification.Service.{CreateInput, enqueue_if}

abbrev pub value_of : Option NotificationCounter → ℕ
value_of none = 0
value_of (some c) = c.sequence

-- how far the recipient's counter has come
abbrev pub count_of : String → List NotificationCounter → ℕ
count_of recipient cs = value_of (find_first (λ c. c.recipient_id == recipient) cs)

-- no notification of the recipient is ahead of the counter
abbrev pub Behind : String → Db → Type 0
Behind r d =
    all (λ n. not (n.recipient_id == r) || leb n.sequence (count_of r d.counters)) d.notifications
    ≡ true

pub incremented :
    (r : String) (cs : List NotificationCounter) (n : ℕ)
    → Option.map NotificationCounter.sequence (
        find_first
          (λ c. c.recipient_id == r)
          (update_where (λ c. c.recipient_id == r) increment cs))
      ≡ some n
    → n ≡ suc (count_of r cs)
incremented r [] n h = absurd (cc h)
incremented r (c ∷ cs) n h = ground (arith, incremented r cs n)

pub other_counts :
    (r j : String) (cs : List NotificationCounter)
    → (j == r) ≡ false
    → count_of j (update_where (λ c. c.recipient_id == r) increment cs) ≡ count_of j cs
other_counts r j [] h = refl
other_counts r j (c ∷ cs) h = ground (arith, other_counts r j cs)

absent :
    (r j : String) (cs : List NotificationCounter)
    → (r == j) ≡ true
    → any (λ c. c.recipient_id == r) cs ≡ false
    → count_of j cs ≡ 0
absent r j [] h k = refl
absent r j (c ∷ cs) h k = ground (arith, absent r j cs)

pub ensured :
    (r j : String) (d : Db) {d' : Db}
    → insert_counter r d ≡ ok (tt, d')
    → (count_of j d'.counters ≡ count_of j d.counters) × (d'.notifications ≡ d.notifications)
unfolding insert_counter
ensured r j d h = (ground (arith, absent r j d.counters), ground arith)

module _ (lib : Library) (run : Run) (smtp : Bool) where
  pub enqueue_if-same :
      (b : Bool) (id : String) (user : User) (input : CreateInput) (w : World) {w' : World}
      → enqueue_if lib run smtp b id user input w ≡ (ok tt, w')
      → (w'.db.notifications ≡ w.db.notifications) × (w'.db.counters ≡ w.db.counters)
  unfolding enqueue_if enqueue_email insert_job
  enqueue_if-same false id user input w h =
      let e = ap World.db (sym (pure-ok tt w h).1) in (ap Db.notifications e, ap Db.counters e)
  enqueue_if-same true id user input w h = bind-ok _ _ w h λ job w1 drawn queued.
      let e = draw-same run w drawn in
      let done = statement-ok run _ w1 queued in (ground (arith, e), ground (arith, e))

  pub create_notification-ok :
      (a : CreateNotificationParams) (w : World) {w' : World}
      → create_notification run a w ≡ (ok tt, w')
      → w'.db ≡ record w.db { notifications = new_notification run.now a ∷ w.db.notifications }
  unfolding create_notification insert_notification
  create_notification-ok a w h =
      ground (arith, statement-ok run (insert_notification run.now a) w h)
