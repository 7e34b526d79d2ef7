-- ===== src/Http/Gate.antt =====
-- internal/httpapi/registration.go, `enforce`: the checks before a handler, and internal/httpapi/types.go,
-- `apiError`: the statuses of errors.
use golang_backend.Base.{
  ℕ, String, Bool, not, ◌&&◌, ◌||◌, Option, none, some, List, ◌==◌, string_eq, if◌then◌else◌,
  find_first, contains_text,
}
use golang_backend.Fault.{
  Error, Kind, fault, caused, no_rows, mysql, pg, plain, invalid, missing, duplicate, unauthorized,
  forbidden, internal, too_large, unavailable,
}
use golang_backend.Library.{Library, Claims}
use golang_backend.Database.Action.{Result, ok, err, Run, World, M, pure, ◌>>=◌, ◌>>◌}
use golang_backend.Audit.Writer.{Actor}
use golang_backend.Auth.Session.{Settings}
use golang_backend.Auth.Access.{verify_access_token, load_actor, authorize}
use golang_backend.Ratelimit.Limiter.{Rate, Entry, Request, allow}
use golang_backend.Http.Registry.{Endpoint, RateGroup}

-- `APIError`
pub record ApiError : Type 0 where
  pub status : ℕ
  pub message : String

abbrev pub status_of : Kind → ℕ
status_of invalid = 400
status_of missing = 404
status_of duplicate = 409
status_of unauthorized = 401
status_of forbidden = 403
status_of internal = 500
status_of too_large = 413
status_of unavailable = 503

abbrev pub failure : ℕ → String → ApiError
failure status message = record { status = status; message = message }

-- `apiError`
abbrev pub api_error : Error → ApiError
api_error (fault kind message) = failure (status_of kind) message
api_error (caused kind message cause) = failure (status_of kind) message
api_error no_rows = failure 500 "Internal server error"
api_error (mysql n) = failure 500 "Internal server error"
api_error (pg code) = failure 500 "Internal server error"
api_error (plain message) = failure 500 "Internal server error"

-- what the checks read of a request, and what `clientIP` makes of its address
pub record HttpRequest : Type 0 where
  pub authorization : String
  pub content_type : String
  pub no_body : Bool
  pub empty : Bool
  pub client_ip : String

-- the limiter: the order in which its map is met, its namespace, the answer of Redis, and `Config.Rates`
pub record Throttle : Type 0 where
  pub range : List Entry → List String
  pub namespace : String
  pub shared : Option (Result ℕ)
  pub rates : List RateGroup

pub data Verdict : Type 0 where
  refused : ApiError → Verdict
  passed : Option Actor → Verdict

abbrev rate_or : Option RateGroup → Rate
rate_or none = record { window_ms = 0; max = 0 }
rate_or (some r) = r.rate

abbrev pub rate_of : String → List RateGroup → Rate
rate_of group rates = rate_or (find_first (λ r. r.group == group) rates)

-- the endpoints that are not throttled
abbrev pub is_probe : String → Bool
is_probe id = id == "health.get" || (id == "live.get" || id == "ready.get")

abbrev pub limit_key : Endpoint → HttpRequest → Option Claims → String
limit_key ep req none = req.client_ip
limit_key ep req (some claims) = if ep.rate == "internal" then claims.id else req.client_ip

abbrev pub throttled : ApiError
throttled = failure 429 "Too many requests"

module _ (lib : Library) (run : Run) (s : Settings) (limiter : Throttle) where
  abbrev State : Type 0
  State = World × List Entry

  abbrev pub is_unreadable : Endpoint → HttpRequest → Bool
  is_unreadable ep req =
      not (contains_text (lib.lower req.content_type) "application/json")
      && (not req.no_body
          && (not req.empty
              && (not (ep.id == "upload.create")
                  && (not (ep.method == "GET") && not (ep.method == "DELETE")))))

  -- the last check
  unfoldable pub check_type : Endpoint → HttpRequest → Option Actor → State → Verdict × State
  check_type ep req actor state =
      if is_unreadable ep req
      then (refused (failure 400 "Content-Type must be application/json"), state)
      else (passed actor, state)

  -- the user of the claims, who may call the endpoint
  unfoldable pub load_allowed : Endpoint → Claims → M Actor
  load_allowed ep claims = do
    actor ← load_actor lib run s claims
    authorize lib run s actor ep.permission
    pure actor

  abbrev pub admit_actor :
      Endpoint → HttpRequest → List Entry → Result Actor × World → Verdict × State
  admit_actor ep req m (err e, w) = (refused (api_error e), (w, m))
  admit_actor ep req m (ok actor, w) = check_type ep req (some actor) (w, m)

  abbrev pub admit : Endpoint → HttpRequest → Option Claims → State → Verdict × State
  admit ep req none state = check_type ep req none state
  admit ep req (some claims) (w, m) = admit_actor ep req m (load_allowed ep claims w)

  abbrev pub limited :
      Endpoint → HttpRequest → Option Claims → World → Result Bool × List Entry → Verdict × State
  limited ep req claims w (err e, m) =
      if ep.rate == "auth"
      then (refused (failure 503 "Rate limiter unavailable"), (w, m))
      else admit ep req claims (w, m)
  limited ep req claims w (ok allowed, m) =
      if allowed then admit ep req claims (w, m) else (refused throttled, (w, m))

  unfoldable pub throttle : Endpoint → HttpRequest → Option Claims → State → Verdict × State
  throttle ep req claims (w, m) =
      let r : Request = record { group = ep.rate; key = limit_key ep req claims; now = run.now } in
      if is_probe ep.id
      then admit ep req claims (w, m)
      else limited ep req claims w
          (allow limiter.range limiter.namespace limiter.shared (rate_of ep.rate limiter.rates) r m)

  abbrev pub verified :
      Endpoint → HttpRequest → List Entry → Result Claims × World → Verdict × State
  verified ep req m (err e, w) = (refused (api_error e), (w, m))
  verified ep req m (ok claims, w) = throttle ep req (some claims) (w, m)

  -- `enforce`, up to the call of `next`
  unfoldable pub enforce : Endpoint → HttpRequest → State → Verdict × State
  enforce ep req (w, m) =
      if ep.public
      then throttle ep req none (w, m)
      else verified ep req m (verify_access_token lib run s req.authorization w)
