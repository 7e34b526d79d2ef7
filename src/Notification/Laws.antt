-- ===== src/Notification/Laws.antt =====
-- internal/notification/service.go, `Create`: the sequence of a recipient's notifications.
use golang_backend.Base.{
  ℕ, suc, ◌≤◌, String, ◌≡◌, refl, sym, ◌∙◌, ap, subst, Bool, true, false, not, ◌||◌, Option, none,
  some, List, [], ◌∷◌, arith, ◌==◌, string_eq, nat_eq, leb, find_first, all, trim_space, inl, inr,
  Bool-cases, ==→eq,
}
use mathlib.Core.Option
use golang_backend.Library.{Library}
use golang_backend.Database.Tables.{Db, Notification, NotificationCounter, ActivityLog, User}
use golang_backend.Database.Action.{ok, Run, World}
use golang_backend.Database.Laws.{bind-ok, pure-ok, check-ok, statement-ok, raise_ne_ok}
use golang_backend.Database.Effects.{query_row-ok, exec-ok, draw-same}
use golang_backend.Database.Users.{active_user, lock_user, find_active_user_by_id}
use golang_backend.Database.Notices.{
  counter_at, insert_counter, CreateNotificationParams, new_notification, notification_at,
  ensure_notification_counter, increment_notification_counter, notification_sequence,
  find_notification,
}
use golang_backend.Audit.Writer.{Actor, Policy, Change}
use golang_backend.Audit.Laws.{mutate_value}
use golang_backend.Auth.Families.{optional_row-same}
use golang_backend.Notification.Service.{
  Item, CreateInput, project, initial_status, err_recipient, or_raise, create, create_body,
}
use golang_backend.Notification.Counters.{
  count_of, Behind, value_of, incremented, other_counts, ensured, enqueue_if-same,
  create_notification-ok,
}

module _ (lib : Library) (run : Run) (smtp : Bool) where
  -- what a creation adds
  pub record Added (input : CreateInput) (item : Item) (d d' : Db) : Type 0 where
    pub row : Notification
    pub rows : d'.notifications ≡ row ∷ d.notifications
    pub is_row : item ≡ project row
    pub recipient : row.recipient_id ≡ input.recipient_id
    pub title : row.title ≡ trim_space input.title
    pub status : row.email_status ≡ initial_status input.send_email smtp
    pub next_number : row.sequence ≡ suc (count_of input.recipient_id d.counters)
    pub counted : count_of input.recipient_id d'.counters ≡ row.sequence
    pub others :
        (j : String)
        → (j == input.recipient_id) ≡ false
        → count_of j d'.counters ≡ count_of j d.counters

  or_raise-same :
      (user : Option User) (w : World) {u : User} {w' : World}
      → or_raise err_recipient user w ≡ (ok u, w')
      → w'.db ≡ w.db
  or_raise-same none w h = absurd (raise_ne_ok _ w h)
  or_raise-same (some u) w h = ap World.db (sym (pure-ok u w h).1)

  value_of-some :
      (c : Option NotificationCounter) (n : ℕ)
      → Option.map NotificationCounter.sequence c ≡ some n
      → value_of c ≡ n
  value_of-some none n h = absurd (cc h)
  value_of-some (some c) n h = cc h

  newest :
      (a : CreateNotificationParams) (ns ms : List Notification) (row : Notification)
      → ns ≡ new_notification run.now a ∷ ms
      → find_first (λ n. n.id == a.id) ns ≡ some row
      → row ≡ new_notification run.now a
  newest a ns ms row e found = same (sym found ∙ ap (find_first (λ n. n.id == a.id)) e ∙ first)
    where
      first :
          find_first (λ n. n.id == a.id) (new_notification run.now a ∷ ms)
          ≡ some (new_notification run.now a)
      first = ground arith

      same : {x y : Notification} → some x ≡ some y → x ≡ y
      same h = cc h

  create_body-Added :
      (actor : Actor) (input : CreateInput) (w : World) {done : Item × Change} {w' : World}
      → create_body lib run smtp actor input w ≡ (ok done, w')
      → Added input done.0 w.db w'.db
  unfolding create_body ensure_notification_counter increment_notification_counter
      notification_sequence counter_at lock_user find_notification notification_at
  create_body-Added actor input w {done} {w'} h = bind-ok _ _ w h λ found w1 locked h1.
      bind-ok _ _ w1 h1 λ user w2 known h2. bind-ok _ _ w2 h2 λ _ w3 ensures h3.
        bind-ok _ _ w3 h3 λ _ w4 increments h4. bind-ok _ _ w4 h4 λ sequence w5 reads h5.
          bind-ok _ _ w5 h5 λ id w6 drawn h6. bind-ok _ _ w6 h6 λ _ w7 created h7.
            bind-ok _ _ w7 h7 λ _ w8 queued h8. bind-ok _ _ w8 h8 λ row w9 found_row end.
              let r = input.recipient_id in
              let a : CreateNotificationParams = record {
                id = id;
                recipient_id = r;
                actor_id = some actor.id;
                title = trim_space input.title;
                body = trim_space input.body;
                email_status = initial_status input.send_email smtp;
                sequence = sequence;
              } in
              let e2 =
                or_raise-same found w1 known ∙ optional_row-same run (active_user r) w locked in
              let stored = statement-ok run (insert_counter r) w2 ensures in
              let (_, n3) = ensured r r w2.db stored in
              let e4 = exec-ok run _ w3 increments in
              let (seq_eq, e5) = query_row-ok run _ w4 reads in
              let next = incremented r w3.db.counters sequence (
                ap
                  (λ (d : Db).
                    Option.map NotificationCounter.sequence
                      (find_first (λ c. c.recipient_id == r) d.counters))
                  (sym e4)
                ∙ seq_eq) in
              let e6 = draw-same run w5 drawn in
              let e7 = create_notification-ok lib run smtp a w6 created in
              let (n8, c8) = enqueue_if-same lib run smtp _ id user input w7 queued in
              let (row_eq, e9) = query_row-ok run _ w8 found_row in
              let (value, last) = pure-ok _ w9 end in
              let all_rows : w8.db.notifications ≡ new_notification run.now a ∷ w.db.notifications =
                n8
                ∙ ap Db.notifications e7
                ∙ ap (λ ns. new_notification run.now a ∷ ns)
                    (ap Db.notifications (e6 ∙ e5 ∙ e4) ∙ n3 ∙ ap Db.notifications e2) in
              let end_db = ap World.db (sym last) ∙ e9 in
              let counters_eq : w'.db.counters ≡ w4.db.counters =
                ap Db.counters end_db ∙ c8 ∙ ap Db.counters e7 ∙ ap Db.counters (e6 ∙ e5) in
              let counts = λ (j : String).
                (ensured r j w2.db stored).0 ∙ ap (λ (d : Db). count_of j d.counters) e2 in
              record {
                row = new_notification run.now a;
                rows = ap Db.notifications end_db ∙ all_rows;
                is_row =
                    ap (λ (x : Item × Change). x.0) (sym value)
                    ∙ ap project
                        (newest a w8.db.notifications w.db.notifications row all_rows row_eq);
                recipient = refl;
                title = refl;
                status = refl;
                next_number = next ∙ ap suc (counts r);
                counted =
                    ap (count_of r) counters_eq
                    ∙ value_of-some (find_first (λ c. c.recipient_id == r) w4.db.counters) sequence
                        seq_eq;
                others = λ j differ.
                    ap (count_of j) counters_eq
                    ∙ ap (λ (d : Db). count_of j d.counters) e4
                    ∙ other_counts r j w3.db.counters differ
                    ∙ counts j;
              }

  Added-log :
      (input : CreateInput) (item : Item) (d d' : Db) (rows : List ActivityLog)
      → Added input item d d'
      → Added input item d (record d' { logs = rows })
  Added-log input item d d' rows a = record {
    row = a.row;
    rows = a.rows;
    is_row = a.is_row;
    recipient = a.recipient;
    title = a.title;
    status = a.status;
    next_number = a.next_number;
    counted = a.counted;
    others = a.others;
  }

  -- A creation that succeeds adds one notification and returns it: of the request's recipient, with the
  -- trimmed title, with the mail's status as the request and the configuration have it, and with the
  -- number that follows the recipient's counter. The counter then has that number, and the counters
  -- of the others are as before.
  pub create-Added :
      (p : Policy) (actor : Actor) (input : CreateInput) (w : World) {item : Item} {w' : World}
      → create lib run smtp p actor input w ≡ (ok item, w')
      → Added input item w.db w'.db
  unfolding create find_active_user_by_id
  create-Added p actor input w {item} {w'} h = bind-ok _ _ w h λ _ w1 c1 h1.
      bind-ok _ _ w1 h1 λ found w2 looked h2. bind-ok _ _ w2 h2 λ user w3 known mutated.
        let same =
          or_raise-same found w2 known
          ∙ optional_row-same run (active_user input.recipient_id) w1 looked
          ∙ ap World.db (sym (check-ok _ w c1).1) in
        subst (λ d. Added input item d w'.db) same
          (mutate_value run p (some actor) "CREATE" (create_body lib run smtp actor input)
            (Added input) (Added-log input) (λ v u done ran. create_body-Added actor input v ran) w3
            mutated)

  numbered :
      (r : String) (n m : ℕ) (ns : List Notification)
      → n ≤ m
      → all (λ x. not (x.recipient_id == r) || leb x.sequence n) ns ≡ true
      → all (λ x. not (x.recipient_id == r) || leb x.sequence m) ns ≡ true
  numbered r n m [] h k = refl
  numbered r n m (x ∷ ns) h k = ground (arith, numbered r n m ns)

  -- a row more, with a count that is no less
  behind_more :
      (r : String) (row : Notification) (ns ns' : List Notification) (n m : ℕ)
      → ns' ≡ row ∷ ns
      → n ≤ m
      → (not (row.recipient_id == r) || leb row.sequence m) ≡ true
      → all (λ x. not (x.recipient_id == r) || leb x.sequence n) ns ≡ true
      → all (λ x. not (x.recipient_id == r) || leb x.sequence m) ns' ≡ true
  behind_more r row ns ns' n m e grows fits before =
      ap (all (λ x. not (x.recipient_id == r) || leb x.sequence m)) e
      ∙ ground (arith, numbered r n m ns grows before)

  -- Creations keep the numbers of every recipient in order: if none of a recipient's notifications is
  -- ahead of the recipient's counter before one that succeeds, none is afterwards.
  pub create-Behind :
      (p : Policy) (actor : Actor) (input : CreateInput) (w : World) (r : String) {item : Item}
      {w' : World}
      → Behind r w.db
      → create lib run smtp p actor input w ≡ (ok item, w')
      → Behind r w'.db
  create-Behind p actor input w r {item} {w'} before h =
      let a = create-Added p actor input w h in
      let rr = input.recipient_id in
      elim (Bool-cases (r == rr)) [
        | inl own ↦
            let r_eq = ==→eq r rr own in
            let count_eq = ap (λ j. count_of j w.db.counters) r_eq in
            let counted = ap (λ j. count_of j w'.db.counters) r_eq ∙ a.counted in
            behind_more r a.row w.db.notifications w'.db.notifications (count_of r w.db.counters)
              (count_of r w'.db.counters) a.rows (omega (arith, count_eq, counted, a.next_number))
              (ground (arith, counted)) before
        | inr other ↦
            let same = a.others r other in
            behind_more r a.row w.db.notifications w'.db.notifications (count_of r w.db.counters)
              (count_of r w'.db.counters) a.rows (omega (arith, same)) (ground (arith, a.recipient))
              before
      ]
