-- ===== src/Audit/Writer.antt =====
-- internal/audit/audit.go: `Actor`, `Policy`, `Change`, `Capture`, `Write`, `Mutate`, `Read`.
-- The warnings that an optional record gives when it fails are not modelled.
use golang_backend.Base.{ℕ, String, Option, none, some, ◌==◌, string_eq, if◌then◌else◌}
use mathlib.Core.Option
use golang_backend.Json.{Json, text, object, member, end}
use golang_backend.Database.Action.{Run, M, pure, wrap, attempt, ◌>>=◌, ◌>>◌, transaction}
use golang_backend.Database.Logs.{InsertAuditParams, insert_audit}
use golang_backend.Audit.Redact.{redact}

pub data Mode : Type 0 where
  required optional never : Mode

pub record Actor : Type 0 where
  pub id : String
  pub email : String
  pub role_id : String
  pub expires_at : ℕ

pub record Policy : Type 0 where
  pub id : String
  pub module_name : String
  pub request_id : String
  pub mode : Mode

pub record Change : Type 0 where
  pub entity_id : String
  pub before : Option Json
  pub after : Option Json

-- `Capture`, of projections that are JSON values already
unfoldable pub capture : (String → String) → String → Option Json → Option Json → Change
capture lower id before after = record {
  entity_id = id;
  before = Option.map (redact lower) before;
  after = Option.map (redact lower) after;
}

-- `text`: an empty text is NULL
abbrev pub nullable : String → Option String
nullable s = if s == "" then none else some s

abbrev actor_id : Option Actor → Option String
actor_id none = none
actor_id (some a) = some a.id

-- what `Write` inserts
unfoldable pub audit_params : Policy → Option Actor → String → Change → InsertAuditParams
audit_params p actor behavior c =
    let registers = p.id == "auth.register" in
    record {
      behavior = if registers then "REGISTER" else behavior;
      module_name = if registers then "user" else p.module_name;
      entity_id = nullable c.entity_id;
      user_id = if registers then some c.entity_id else actor_id actor;
      actor_id_snapshot =
          if registers then nullable c.entity_id else Option.bind (actor_id actor) nullable;
      before = c.before;
      after = c.after;
      request_id = nullable p.request_id;
      endpoint_id = nullable p.id;
    }

module _ (run : Run) where
  unfoldable pub write_mode : Mode → InsertAuditParams → M (Unit {0})
  write_mode never a = pure tt
  write_mode _ a = insert_audit run a

  -- `Write`
  unfoldable pub write : Policy → Option Actor → String → Change → M (Unit {0})
  unfolding write_mode audit_params
  write p actor behavior c = write_mode p.mode (audit_params p actor behavior c)

  -- `if p.Mode == Required { return w.Write(…) }`, inside the transaction
  unfoldable pub write_required : Mode → M (Unit {0}) → M (Unit {0})
  write_required required record_it = record_it
  write_required _ record_it = pure tt

  -- `if p.Mode == Optional { … }`, after it; a failure is only logged
  unfoldable pub write_optional : Mode → M (Unit {0}) → M (Unit {0})
  write_optional optional record_it = do _ ← attempt record_it; pure tt
  write_optional _ record_it = pure tt

  module _ {T : Type 0} where
    -- the body of the transaction of `Mutate`
    unfoldable pub recorded : Policy → Option Actor → String → M (T × Change) → M (T × Change)
    unfolding write_required
    recorded p actor behavior fn = do
      done ← fn
      write_required p.mode (write p actor behavior done.1)
      pure done

    -- `Mutate`
    unfoldable pub mutate : Policy → Option Actor → String → M (T × Change) → M T
    unfolding recorded write_optional
    mutate p actor behavior fn = do
      done ← wrap (transaction run (recorded p actor behavior fn))
      write_optional p.mode (write p actor behavior done.1)
      pure done.0

  -- `Read`
  unfoldable pub read : (String → String) → Policy → Option Actor → String → M (Unit {0})
  unfolding write_optional capture
  read lower p actor id =
      let payload = object (member "endpoint" (text p.id) end) in
      write_optional p.mode (write p actor "READ" (capture lower id none (some payload)))
