-- ===== src/Tests/Gate.antt =====
-- The endpoints of internal/httpapi and the gate before them.
use golang_backend.Base.{
  String, ◌≡◌, refl, ◌⊎◌, inl, true, false, not, Option, none, some, List, [], ◌∷◌, all, any, map,
  ◌==◌, string_eq,
}
use golang_backend.Database.Action.{Result, ok, err, World}
use golang_backend.Audit.Writer.{Actor}
use golang_backend.Auth.Access.{verify_access_token}
use golang_backend.Ratelimit.Limiter.{Entry}
use golang_backend.Http.Registry.{
  Endpoint, endpoint, definitions, PolicyOverride, RateGroup, resolve,
}
use golang_backend.Http.Gate.{HttpRequest, Throttle, Verdict, refused, passed, throttled, enforce}
use golang_backend.Http.Policies.{door, is_sound, resolve-Resolved}
use golang_backend.Http.Passing.{Allowed, enforce-Allowed}
use golang_backend.Http.Refusals.{enforce-refused}
use golang_backend.Tests.Fixtures.{lib, run_at, settings, actor, world}

abbrev group : String → RateGroup
group name = record { group = name; rate = record { window_ms = 1000; max = 1 } }

abbrev groups : List RateGroup
groups = group "auth" ∷ group "public" ∷ group "internal" ∷ []

abbrev overrides : List PolicyOverride
overrides =
    record { endpoint = "user.list"; audit = "none"; rate_limit = "public"; cache = "off" } ∷ []

abbrev list_users : Endpoint
list_users =
    endpoint "user.list" "GET" "/api/users" "user" "manage_users" false "none" "off" "public" 200
      "read"

abbrev rows_of : Result (List Endpoint) → List Endpoint
rows_of (ok rows) = rows
rows_of (err e) = []

abbrev endpoints : List Endpoint
endpoints = rows_of (resolve groups overrides)

resolves : resolve groups overrides ≡ ok endpoints
unfolding resolve golang_backend.Http.Registry.rounds golang_backend.Http.Registry.resolve_one
    golang_backend.Http.Registry.override_audit golang_backend.Http.Registry.override_rate
    golang_backend.Http.Registry.override_cache golang_backend.Http.Registry.all_known string_eq
resolves = refl

resolve-Resolved_example :
    (map door endpoints ≡ map door definitions)
    × (all (is_sound groups) endpoints ≡ true)
    × (all (λ p. any (λ e. e.id == p.endpoint) endpoints) overrides ≡ true)
resolve-Resolved_example = resolve-Resolved groups overrides resolves

abbrev gate : Throttle
gate = record { range = λ m. []; namespace = "n"; shared = none; rates = groups }

abbrev request : HttpRequest
request = record {
  authorization = "Bearer jwt ann";
  content_type = "";
  no_body = true;
  empty = true;
  client_ip = "::1";
}

abbrev ann : Actor
ann = record actor { expires_at = 900000 }

abbrev first : World × List Entry
first = (enforce lib (run_at 100) settings gate list_users request (world, [])).1

passes :
    enforce lib (run_at 100) settings gate list_users request (world, [])
    ≡ (passed (some ann), first)
unfolding enforce verify_access_token string_eq golang_backend.Database.Action.pure
    golang_backend.Http.Gate.throttle golang_backend.Ratelimit.Limiter.allow
    golang_backend.Ratelimit.Limiter.allow_in_memory golang_backend.Ratelimit.Limiter.prune
    golang_backend.Http.Gate.load_allowed golang_backend.Database.Action.◌>>=◌
    golang_backend.Auth.Access.load_actor golang_backend.Database.Action.attempt
    golang_backend.Database.Users.find_active_user_by_id golang_backend.Database.Action.query_row
    golang_backend.Database.Users.active_user golang_backend.Auth.Access.authorize
    golang_backend.Database.Action.wrap golang_backend.Database.Sessions.user_has_permission
    golang_backend.Base.contains_text golang_backend.Database.Action.query
    golang_backend.Database.Sessions.user_may golang_backend.Http.Gate.check_type
passes = refl

enforce-Allowed_example :
    ((false ≡ true) × (some ann ≡ none))
    ⊎ ((false ≡ false)
        × Allowed lib
            (run_at 100)
            settings
            gate
            list_users
            request.authorization
            (some ann)
            world.db)
enforce-Allowed_example =
    enforce-Allowed lib (run_at 100) settings gate list_users request world [] passes

-- the window of the request is full
abbrev spent : List Entry
spent =
    record { key = "n:ratelimit:public:::1:0"; bucket = record { count = 1; expires = 1100 } } ∷ []

abbrev second : World × List Entry
second = (enforce lib (run_at 100) settings gate list_users request (world, spent)).1

throttles :
    enforce lib (run_at 100) settings gate list_users request (world, spent)
    ≡ (refused throttled, second)
unfolding enforce verify_access_token string_eq golang_backend.Database.Action.pure
    golang_backend.Http.Gate.throttle golang_backend.Ratelimit.Limiter.allow
    golang_backend.Ratelimit.Limiter.allow_in_memory golang_backend.Ratelimit.Limiter.prune
    golang_backend.Fault.decimal golang_backend.Ratelimit.Limiter.full_key
throttles = refl

enforce-refused_example : second.0 ≡ world
enforce-refused_example =
    enforce-refused lib (run_at 100) settings gate list_users request world spent throttles
      (inl refl)
