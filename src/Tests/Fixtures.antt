-- ===== src/Tests/Fixtures.antt =====
-- Small tables and a library whose functions are concrete: two roles, two users, a session, a mail.
use golang_backend.Base.{ℕ, String, ◌<>◌, true, none, some, [], ◌∷◌, ◌==◌, string_eq, if◌then◌else◌}
use golang_backend.Fault.{decimal}
use golang_backend.Library.{Library, Claims}
use golang_backend.Database.Tables.{
  Db, empty_db, Role, Permission, RolePermission, User, RefreshFamily, AuthRefreshToken,
  Notification, EmailJob, pending, awaiting,
}
use golang_backend.Database.Action.{Run, World}
use golang_backend.Audit.Writer.{Policy, Actor, required}
use golang_backend.Auth.Session.{Settings}
use golang_backend.Jobs.Worker.{Limits}

abbrev pub bob_claims : Claims
bob_claims = record {
  id = "bob";
  email = "bob@x.org";
  role_id = "user";
  token_use = "access";
  issuer = "api";
  audience = "";
  issued_at = 0;
  expires_at = 900000;
}

abbrev pub ann_claims : Claims
ann_claims = record bob_claims { id = "ann"; email = "ann@x.org"; role_id = "admin" }

abbrev pub lib : Library
lib = record {
  valid_uuid = λ id. true;
  read_uuid = λ id. if id == "BOB" then some "bob" else some id;
  lower = λ s. s;
  email_like = λ search email. search == email;
  sql_like = λ search email. search == email;
  bcrypt = λ salt password. some password;
  bcrypt_matches = λ hash password. hash == password;
  digest = λ s. "#" <> s;
  sign = λ secret claims. some ("jwt " <> claims.id);
  parse_token = λ secret issuer audience now token.
      if token == "jwt bob"
      then some bob_claims
      else if token == "jwt ann"
      then some ann_claims
      else none;
}

abbrev pub run_at : ℕ → Run
run_at now = record { now = now; faults = λ n. none; fresh = decimal }

abbrev pub admin : User
admin = record {
  id = "ann";
  email = "ann@x.org";
  password = "secret";
  role_id = "admin";
  deleted_at = none;
  created_at = 0;
  updated_at = 0;
}

abbrev pub member : User
member = record {
  id = "bob";
  email = "bob@x.org";
  password = "sesame";
  role_id = "user";
  deleted_at = none;
  created_at = 0;
  updated_at = 0;
}

abbrev pub actor : Actor
actor = record { id = "ann"; email = "ann@x.org"; role_id = "admin"; expires_at = 0 }

abbrev role_row : String → Role
role_row name = record { id = name; name = name; created_at = 0; updated_at = 0 }

abbrev permission_row : String → Permission
permission_row name = record { id = name; name = name; created_at = 0; updated_at = 0 }

abbrev grant : String → String → RolePermission
grant role permission = record { role_id = role; permission_id = permission }

abbrev pub family : RefreshFamily
family = record { id = "f"; user_id = "bob"; created_at = 0; expires_at = 5000; revoked_at = none }

abbrev pub token : AuthRefreshToken
token = record {
  id = "t";
  family_id = "f";
  user_id = "bob";
  token_hash = "#raw";
  expires_at = 3000;
  created_at = 0;
  revoked_at = none;
}

abbrev pub notice : Notification
notice = record {
  id = "m";
  recipient_id = "bob";
  actor_id = some "ann";
  title = "hi";
  body = "there";
  email_status = awaiting;
  read_at = none;
  created_at = 0;
  sequence = 1;
}

abbrev pub mail : EmailJob
mail = record {
  id = "j";
  notification_id = "m";
  recipient = "bob@x.org";
  title = "hi";
  body = "there";
  status = pending;
  attempts = 0;
  available_at = 0;
  lease_id = none;
  lease_until = none;
  completed_at = none;
  created_at = 0;
}

abbrev pub tables : Db
tables = record empty_db {
  roles = role_row "admin" ∷ role_row "user" ∷ [];
  permissions = permission_row "manage_users" ∷ permission_row "read" ∷ [];
  role_permissions = grant "admin" "manage_users" ∷ grant "admin" "read" ∷ grant "user" "read" ∷ [];
  users = admin ∷ member ∷ [];
  families = family ∷ [];
  tokens = token ∷ [];
  notifications = notice ∷ [];
  counters = record { recipient_id = "bob"; sequence = 1 } ∷ [];
  email_jobs = mail ∷ [];
}

abbrev pub world : World
world = record { db = tables; calls = 0; drawn = 0 }

abbrev pub audited : Policy
audited = record { id = "e"; module_name = "m"; request_id = "q"; mode = required }

abbrev pub settings : Settings
settings = record {
  secret = "s";
  issuer = "api";
  audience = "";
  refresh_idle = 1000;
  refresh_absolute = 9000;
}

abbrev pub limits : Limits
limits = record { lease_seconds = 60; max_attempts = 5 }
