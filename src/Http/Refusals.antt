-- ===== src/Http/Refusals.antt =====
-- internal/httpapi/registration.go, `enforce`: which refused requests have reached no query.
use golang_backend.Base.{
  String, ◌≡◌, refl, sym, ◌∙◌, ap, subst, Bool, true, false, Option, none, some, List, ◌⊎◌, inl,
  inr, arith, ◌==◌, string_eq, if◌then◌else◌, Bool-cases, text_has_prefix,
}
use golang_backend.Fault.{
  Error, Kind, fault, caused, no_rows, mysql, pg, plain, invalid, missing, duplicate, unauthorized,
  forbidden, internal, too_large, unavailable,
}
use golang_backend.Library.{Library, Claims}
use golang_backend.Database.Action.{Result, ok, err, Run, World, pure, raise}
use golang_backend.Database.Laws.{ok_ne_err}
use golang_backend.Audit.Writer.{Actor}
use golang_backend.Auth.Session.{Settings}
use golang_backend.Auth.Access.{accept, bearer_token, verify_access_token}
use golang_backend.Ratelimit.Limiter.{Entry}
use golang_backend.Http.Registry.{Endpoint}
use golang_backend.Http.Gate.{
  ApiError, status_of, api_error, HttpRequest, Throttle, Verdict, refused, passed, is_unreadable,
  is_probe, check_type, load_allowed, admit_actor, admit, limited, throttle, verified, enforce,
}

status_of_ne : (k : Kind) → status_of k ≡ 429 → ⊥
status_of_ne invalid h = omega (arith, h)
status_of_ne missing h = omega (arith, h)
status_of_ne duplicate h = omega (arith, h)
status_of_ne unauthorized h = omega (arith, h)
status_of_ne forbidden h = omega (arith, h)
status_of_ne internal h = omega (arith, h)
status_of_ne too_large h = omega (arith, h)
status_of_ne unavailable h = omega (arith, h)

api_error_ne : (e : Error) → (api_error e).status ≡ 429 → ⊥
api_error_ne (fault k m) h = status_of_ne k h
api_error_ne (caused k m c) h = status_of_ne k h
api_error_ne no_rows h = omega (arith, h)
api_error_ne (mysql n) h = omega (arith, h)
api_error_ne (pg c) h = omega (arith, h)
api_error_ne (plain m) h = omega (arith, h)

-- a refusal with the limiter's status has left the tables, and the calls of them, alone
abbrev Untouched : World → Verdict × (World × List Entry) → Type 0
Untouched w (passed actor, st) = Unit {0}
Untouched w (refused e, (w', m)) = (e.status ≡ 429) → w' ≡ w

either-Untouched :
    (w : World) (b : Bool) (x y : Verdict × (World × List Entry))
    → Untouched w x
    → Untouched w y
    → Untouched w (if b then x else y)
either-Untouched w true x y h k = h
either-Untouched w false x y h k = k

module _ (lib : Library) (run : Run) (s : Settings) (limiter : Throttle) where
  check_type-Untouched :
      (ep : Endpoint) (req : HttpRequest) (a : Option Actor) (w : World) (st : World × List Entry)
      → Untouched w (check_type lib run s limiter ep req a st)
  unfolding check_type
  check_type-Untouched ep req a w st =
      either-Untouched w (is_unreadable lib run s limiter ep req) (refused _, st) (passed a, st)
        (λ h. absurd (omega (arith, h))) tt

  admit_actor-Untouched :
      (ep : Endpoint) (req : HttpRequest) (w : World) (m : List Entry) (x : Result Actor × World)
      → Untouched w (admit_actor lib run s limiter ep req m x)
  admit_actor-Untouched ep req w m (ok a, w1) = check_type-Untouched ep req (some a) w (w1, m)
  admit_actor-Untouched ep req w m (err e, w1) = λ h. absurd (api_error_ne e h)

  admit-Untouched :
      (ep : Endpoint) (req : HttpRequest) (claims : Option Claims) (w : World) (m : List Entry)
      → Untouched w (admit lib run s limiter ep req claims (w, m))
  admit-Untouched ep req none w m = check_type-Untouched ep req none w (w, m)
  admit-Untouched ep req (some claims) w m =
      admit_actor-Untouched ep req w m (load_allowed lib run s limiter ep claims w)

  limited-Untouched :
      (ep : Endpoint) (req : HttpRequest) (claims : Option Claims) (w : World)
      (x : Result Bool × List Entry)
      → Untouched w (limited lib run s limiter ep req claims w x)
  limited-Untouched ep req claims w (err e, m) =
      either-Untouched w (ep.rate == "auth") (refused _, (w, m)) _ (λ h. refl)
        (admit-Untouched ep req claims w m)
  limited-Untouched ep req claims w (ok true, m) = admit-Untouched ep req claims w m
  limited-Untouched ep req claims w (ok false, m) = λ h. refl

  throttle-Untouched :
      (ep : Endpoint) (req : HttpRequest) (claims : Option Claims) (w : World) (m : List Entry)
      → Untouched w (throttle lib run s limiter ep req claims (w, m))
  unfolding throttle
  throttle-Untouched ep req claims w m =
      either-Untouched w (is_probe ep.id) _ _ (admit-Untouched ep req claims w m)
        (limited-Untouched ep req claims w _)

  accept_same : (found : Option Claims) (w : World) → (accept lib run s found w).1 ≡ w
  unfolding accept pure raise
  accept_same none w = refl
  accept_same (some c) w = ground arith

  verify_same : (raw : String) (w : World) → (verify_access_token lib run s raw w).1 ≡ w
  unfolding verify_access_token raise
  verify_same raw w = elim (Bool-cases (text_has_prefix raw "Bearer ")) [
    | inl bearer ↦ ground (
      arith,
      accept_same (lib.parse_token s.secret s.issuer s.audience run.now (bearer_token raw)) w,
    )
    | inr other ↦ ground arith
  ]

  verified-Untouched :
      (ep : Endpoint) (req : HttpRequest) (m : List Entry) (w : World) (x : Result Claims × World)
      → x.1 ≡ w
      → Untouched w (verified lib run s limiter ep req m x)
  verified-Untouched ep req m w (err e, w1) same = λ h. same
  verified-Untouched ep req m w (ok claims, w1) same =
      subst (λ v. Untouched v (throttle lib run s limiter ep req (some claims) (w1, m))) same
        (throttle-Untouched ep req (some claims) w1 m)

  all-Untouched :
      (ep : Endpoint) (req : HttpRequest) (w : World) (m : List Entry)
      → Untouched w (enforce lib run s limiter ep req (w, m))
  unfolding enforce
  all-Untouched ep req w m =
      either-Untouched w ep.public _ _ (throttle-Untouched ep req none w m)
        (verified-Untouched ep req m w _ (verify_same req.authorization w))

  verified_failed :
      (ep : Endpoint) (req : HttpRequest) (m : List Entry) (w : World) (x : Result Claims × World)
      {c : Error}
      → x.1 ≡ w
      → x.0 ≡ err c
      → (verified lib run s limiter ep req m x).1 ≡ (w, m)
  verified_failed ep req m w (err e, w1) same h = ap (λ v. (v, m)) same
  verified_failed ep req m w (ok claims, w1) same h = absurd (ok_ne_err claims _ h)

  closed_enforce :
      (ep : Endpoint) (req : HttpRequest) (w : World) (m : List Entry)
      → ep.public ≡ false
      → enforce lib run s limiter ep req (w, m)
        ≡ verified lib run s limiter ep req m (verify_access_token lib run s req.authorization w)
  unfolding enforce
  closed_enforce ep req w m closed = ground arith

  -- A request that is refused as throttled, or at an endpoint that is not public because its access token
  -- does not verify, has sent no query: neither the tables nor the count of the calls has changed.
  pub enforce-refused :
      (ep : Endpoint) (req : HttpRequest) (w : World) (m : List Entry) {e : ApiError} {w' : World}
      {m' : List Entry}
      → enforce lib run s limiter ep req (w, m) ≡ (refused e, (w', m'))
      → (e.status ≡ 429)
        ⊎ ((ep.public ≡ false)
            × (c : Error) × ((verify_access_token lib run s req.authorization w).0 ≡ err c))
      → w' ≡ w
  enforce-refused ep req w m h (inl status) =
      subst (Untouched w) h (all-Untouched ep req w m) status
  enforce-refused ep req w m h (inr (closed, c, fails)) =
      ap (λ (x : Verdict × (World × List Entry)). x.1.0) (sym h ∙ closed_enforce ep req w m closed)
      ∙ ap (λ (st : World × List Entry). st.0)
          (verified_failed ep req m w _ (verify_same req.authorization w) fails)
