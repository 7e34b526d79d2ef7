-- ===== src/Http/Registry.antt =====
-- internal/httpapi/registry.go: the endpoints, and what the configuration may override of them.
use golang_backend.Base.{
  ℕ, String, ◌<>◌, Bool, true, false, not, ◌&&◌, ◌||◌, Option, none, some, List, [], ◌∷◌, ◌++◌,
  ◌==◌, string_eq, if◌then◌else◌, any, find_first,
}
use golang_backend.Fault.{plain}
use golang_backend.Database.Action.{Result, ok, err}
use golang_backend.Ratelimit.Limiter.{Rate}

pub record Endpoint : Type 0 where
  pub id : String
  pub method : String
  pub path : String
  pub module_name : String
  pub permission : String
  pub public : Bool
  pub audit : String
  pub cache : String
  pub rate : String
  pub status : ℕ
  pub capability : String

-- an entry of `Config.Policies`, and one of `Config.Rates`
pub record PolicyOverride : Type 0 where
  pub endpoint : String
  pub audit : String
  pub rate_limit : String
  pub cache : String

pub record RateGroup : Type 0 where
  pub group : String
  pub rate : Rate

-- a row of `Definitions` without its summary
abbrev pub endpoint :
    String
    → String
    → String
    → String
    → String
    → Bool
    → String
    → String
    → String
    → ℕ
    → String
    → Endpoint
endpoint id method path module_name permission public audit cache rate status capability = record {
  id = id;
  method = method;
  path = path;
  module_name = module_name;
  permission = permission;
  public = public;
  audit = audit;
  cache = cache;
  rate = rate;
  status = status;
  capability = capability;
}

-- `Definitions`
abbrev pub definitions : List Endpoint
definitions =
    endpoint "health.get" "GET" "/health" "system" "" true "none" "off" "public" 200 "read"
    ∷ endpoint "live.get" "GET" "/live" "system" "" true "none" "off" "public" 200 "read"
    ∷ endpoint "ready.get" "GET" "/ready" "system" "" true "none" "off" "public" 200 "read"
    ∷ endpoint "docs.ui" "GET" "/docs" "docs" "" true "none" "off" "public" 200 "read"
    ∷ endpoint "docs.spec" "GET" "/docs/openapi.json" "docs" "" true "none" "off" "public" 200
        "read"
    ∷ endpoint "docs.moduleSpec" "GET" "/docs/specs/{module}.json" "docs" "" true "none" "off"
        "public" 200 "read"
    ∷ endpoint "auth.register" "POST" "/api/auth/register" "auth" "" true "required" "off" "auth"
        201 "transaction"
    ∷ endpoint "auth.login" "POST" "/api/auth/login" "auth" "" true "optional" "off" "auth" 200
        "transaction"
    ∷ endpoint "auth.refresh" "POST" "/api/auth/refresh" "auth" "" true "required" "off" "auth" 200
        "transaction"
    ∷ endpoint "auth.logout" "POST" "/api/auth/logout" "auth" "" true "optional" "off" "auth" 204
        "transaction"
    ∷ endpoint "auth.me" "GET" "/api/auth/me" "auth" "" false "none" "off" "internal" 200 "read"
    ∷ endpoint "user.list" "GET" "/api/users" "user" "manage_users" false "none" "read" "internal"
        200 "read"
    ∷ endpoint "user.get" "GET" "/api/users/{id}" "user" "manage_users" false "none" "read"
        "internal" 200 "read"
    ∷ endpoint "user.create" "POST" "/api/users" "user" "manage_users" false "required" "off"
        "internal" 201 "transaction"
    ∷ endpoint "user.update" "PATCH" "/api/users/{id}" "user" "manage_users" false "required" "off"
        "internal" 200 "transaction"
    ∷ endpoint "user.delete" "DELETE" "/api/users/{id}" "user" "manage_users" false "required" "off"
        "internal" 204 "transaction"
    ∷ endpoint "role.list" "GET" "/api/roles" "roles" "manage_roles" false "none" "read" "internal"
        200 "read"
    ∷ endpoint "role.get" "GET" "/api/roles/{id}" "roles" "manage_roles" false "none" "read"
        "internal" 200 "read"
    ∷ endpoint "role.create" "POST" "/api/roles" "roles" "manage_roles" false "required" "off"
        "internal" 201 "transaction"
    ∷ endpoint "role.update" "PATCH" "/api/roles/{id}" "roles" "manage_roles" false "required" "off"
        "internal" 200 "transaction"
    ∷ endpoint "role.delete" "DELETE" "/api/roles/{id}" "roles" "manage_roles" false "required"
        "off" "internal" 204 "transaction"
    ∷ endpoint "role.assignPermissions" "POST" "/api/roles/{id}/permissions" "roles" "manage_roles"
        false "required" "off" "internal" 200 "transaction"
    ∷ endpoint "permission.list" "GET" "/api/permissions" "permissions" "manage_permissions" false
        "none" "read" "internal" 200 "read"
    ∷ endpoint "permission.get" "GET" "/api/permissions/{id}" "permissions" "manage_permissions"
        false "none" "read" "internal" 200 "read"
    ∷ endpoint "permission.create" "POST" "/api/permissions" "permissions" "manage_permissions"
        false "required" "off" "internal" 201 "transaction"
    ∷ endpoint "permission.update" "PATCH" "/api/permissions/{id}" "permissions"
        "manage_permissions" false "required" "off" "internal" 200 "transaction"
    ∷ endpoint "permission.delete" "DELETE" "/api/permissions/{id}" "permissions"
        "manage_permissions" false "required" "off" "internal" 204 "transaction"
    ∷ endpoint "upload.create" "POST" "/api/upload" "upload" "manage_uploads" false "required" "off"
        "internal" 201 "transaction"
    ∷ endpoint "upload.get" "GET" "/api/upload/{id}" "upload" "manage_uploads" false "none" "read"
        "internal" 200 "read"
    ∷ endpoint "notification.create" "POST" "/api/notifications" "notifications"
        "manage_notifications" false "required" "off" "internal" 201 "transaction"
    ∷ endpoint "notification.list" "GET" "/api/notifications" "notifications" "" false "none" "off"
        "internal" 200 "read"
    ∷ endpoint "notification.read" "PATCH" "/api/notifications/{id}/read" "notifications" "" false
        "required" "off" "internal" 200 "transaction"
    ∷ endpoint "notification.stream" "GET" "/api/notifications/stream" "notifications" "" false
        "none" "off" "internal" 200 "none"
    ∷ []

abbrev pub route : Endpoint → String
route e = e.method <> " " <> e.path

abbrev pub has_group : String → List RateGroup → Bool
has_group group rates = any (λ r. r.group == group) rates

abbrev pub override_at : String → List PolicyOverride → Option PolicyOverride
override_at id policies = find_first (λ p. p.endpoint == id) policies

abbrev pub is_audit_mode : String → Bool
is_audit_mode mode = mode == "required" || (mode == "optional" || mode == "none")

-- the three parts of an override, each skipped where it is empty
unfoldable pub override_audit : String → Endpoint → Result Endpoint
override_audit mode base =
    if mode == ""
    then ok base
    else if not (is_audit_mode mode)
    then err (plain ("invalid audit policy for " <> base.id))
    else if not (base.capability == "transaction") && mode == "required"
    then err (plain ("required GET audit producer missing for " <> base.id))
    else if not (mode == "none") && base.capability == "none"
    then err (plain ("audit producer missing for " <> base.id))
    else ok (record base { audit = mode })

unfoldable pub override_rate : List RateGroup → String → Endpoint → Result Endpoint
override_rate rates group base =
    if group == ""
    then ok base
    else if has_group group rates
    then ok (record base { rate = group })
    else err (plain ("invalid rate group for " <> base.id))

unfoldable pub override_cache : String → Endpoint → Result Endpoint
override_cache mode base =
    if mode == ""
    then ok base
    else if not (mode == "read") && not (mode == "off")
    then err (plain ("invalid cache policy for " <> base.id))
    else if not (base.method == "GET") && mode == "read"
    then err (plain "cache read only allowed for GET")
    else ok (record base { cache = mode })

abbrev pub and_then : Result Endpoint → (Endpoint → Result Endpoint) → Result Endpoint
and_then (ok e) f = f e
and_then (err e) f = err e

abbrev pub overridden : List RateGroup → Option PolicyOverride → Endpoint → Result Endpoint
overridden rates none base = ok base
overridden rates (some p) base =
    and_then (and_then (override_audit p.audit base) (override_rate rates p.rate_limit))
      (override_cache p.cache)

-- one round of the loop, after the rounds that made `result`
unfoldable pub resolve_one :
    List RateGroup → List PolicyOverride → List Endpoint → Endpoint → Result Endpoint
resolve_one rates policies result base =
    if any (λ e. e.id == base.id) result
    then err (plain ("duplicate endpoint ID " <> base.id))
    else if any (λ e. route e == route base) result
    then err (plain ("duplicate route " <> route base))
    else if has_group base.rate rates
    then overridden rates (override_at base.id policies) base
    else err (plain ("missing rate group for " <> base.id))

abbrev pub rounds_end :
    (Endpoint → Result (List Endpoint)) → Result Endpoint → Result (List Endpoint)
rounds_end rest (err e) = err e
rounds_end rest (ok e) = rest e

unfoldable pub rounds :
    List RateGroup → List PolicyOverride → List Endpoint → List Endpoint → Result (List Endpoint)
rounds rates policies [] result = ok result
rounds rates policies (base ∷ bases) result =
    rounds_end (λ e. rounds rates policies bases (result ++ e ∷ []))
      (resolve_one rates policies result base)

-- the second loop, over the overrides
unfoldable pub all_known : List PolicyOverride → List Endpoint → Result (List Endpoint)
all_known [] result = ok result
all_known (p ∷ ps) result =
    if any (λ e. e.id == p.endpoint) result
    then all_known ps result
    else err (plain ("unknown endpoint policy override " <> p.endpoint))

abbrev pub then_known : List PolicyOverride → Result (List Endpoint) → Result (List Endpoint)
then_known policies (err e) = err e
then_known policies (ok result) = all_known policies result

-- `Resolve`
unfoldable pub resolve : List RateGroup → List PolicyOverride → Result (List Endpoint)
resolve rates policies = then_known policies (rounds rates policies definitions [])
