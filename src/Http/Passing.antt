-- ===== src/Http/Passing.antt =====
-- internal/httpapi/registration.go, `enforce`: whom it lets pass, and what a refused request has cost.
use golang_backend.Base.{
  String, ◌≡◌, refl, sym, ◌∙◌, ap, subst, Bool, true, false, Option, none, some, List, ◌⊎◌, inl,
  inr, arith, ◌==◌, string_eq, if◌then◌else◌, Bool-cases, Option-cases,
}
use golang_backend.Library.{Library, Claims}
use golang_backend.Database.Tables.{Db, User}
use golang_backend.Database.Action.{
  Result, ok, err, Run, World, M, continue, pure, raise, query_row, statement, ◌>>=◌,
}
use golang_backend.Database.Laws.{bind-ok, pure-ok, attempt-ok}
use golang_backend.Database.Users.{active_user, find_active_user_by_id}
use golang_backend.Database.Sessions.{user_may}
use golang_backend.Audit.Writer.{Actor}
use golang_backend.Auth.Session.{Settings}
use golang_backend.Auth.Access.{loaded, verify_access_token, load_actor, authenticate}
use golang_backend.Auth.Checks.{
  Authenticated, verify_access_token-ok, authenticate-ok, authorize_lem,
}
use golang_backend.Ratelimit.Limiter.{Entry}
use golang_backend.Http.Registry.{Endpoint}
use golang_backend.Http.Gate.{
  HttpRequest, Throttle, passed, is_unreadable, check_type, load_allowed, admit_actor, admit,
  is_probe, limited, throttle, verified, enforce,
}

query_row_same :
    {A : Type 0} (run : Run) (f : Db → Option A) (w : World) → (query_row run f w).1.db ≡ w.db
unfolding query_row statement
query_row_same run f w = elim (Option-cases (run.faults w.calls)) [
  | inl calm ↦ elim (Option-cases (f w.db)) [
    | inl gone ↦ ground arith
    | inr (a, found) ↦ ground (arith, found)
  ]
  | inr (e, fails) ↦ ground (arith, fails)
]

branch {ℓ} :
    {P : Type ℓ} {A : Type 0} (b : Bool) (x y : A) {r : A}
    → (if b then x else y) ≡ r
    → (x ≡ r → P)
    → (y ≡ r → P)
    → P
branch true x y h k l = k h
branch false x y h k l = l h

bind_at :
    {A B : Type 0} (m : M A) (f : A → M B) (w w1 : World) (a : A) {r : Result B × World}
    → m w ≡ (ok a, w1)
    → f a w1 ≡ r
    → (m >>= f) w ≡ r
unfolding ◌>>=◌
bind_at m f w w1 a h k = ap (λ (x : Result _ × World). continue x.0 f x.1) h ∙ k

module _ (lib : Library) (run : Run) (s : Settings) (limiter : Throttle) where
  -- whom an endpoint that is not public lets pass
  abbrev pub Allowed : Endpoint → String → Option Actor → Db → Type 0
  Allowed ep raw none d = ⊥
  Allowed ep raw (some actor) d =
      Authenticated lib run s raw actor d
      × ((ep.permission ≡ "") ⊎ (user_may actor.id ep.permission d ≡ true))

  loaded_same :
      (claims : Claims) (found : Result User) (w : World) → (loaded lib run s claims found w).1 ≡ w
  unfolding loaded pure raise
  loaded_same claims (ok user) w = refl
  loaded_same claims (err e) w = ground arith

  load_actor_same :
      (claims : Claims) (w : World) {actor : Actor} {w' : World}
      → load_actor lib run s claims w ≡ (ok actor, w')
      → w'.db ≡ w.db
  unfolding load_actor find_active_user_by_id
  load_actor_same claims w h = bind-ok _ _ w h λ found w1 read end.
      ap (λ (x : Result Actor × World). x.1.db) (sym end)
      ∙ ap World.db (loaded_same claims found w1)
      ∙ ap (λ (x : Result User × World). x.1.db) (sym (attempt-ok _ w read))
      ∙ query_row_same run (active_user claims.id) w

  load_allowed-Allowed :
      (ep : Endpoint) (raw : String) (claims : Claims) (w w1 : World) {actor : Actor} {w' : World}
      → verify_access_token lib run s raw w ≡ (ok claims, w1)
      → load_allowed lib run s limiter ep claims w1 ≡ (ok actor, w')
      → Allowed ep raw (some actor) w.db
  unfolding load_allowed authenticate
  load_allowed-Allowed ep raw claims w w1 verify h =
      let (_, _, _, same) = verify_access_token-ok lib run s raw w verify in
      bind-ok _ _ w1 h λ a w2 loads h1. bind-ok _ _ w2 h1 λ _ w3 may end.
        let value : a ≡ _ = (pure-ok a w3 end).0 in
        let at = load_actor_same claims w1 loads ∙ ap World.db (sym same) in
        subst (λ b. Allowed ep raw (some b) w.db) value
          (
            authenticate-ok lib run s raw w (bind_at _ _ w w1 claims verify loads),
            subst (λ d. (ep.permission ≡ "") ⊎ (user_may a.id ep.permission d ≡ true)) at
                (authorize_lem lib run s a ep.permission w2 may),
          )

  -- what a request that passes has shown, when it comes with claims that a token at `w0` had
  abbrev Shown : Endpoint → String → Option Claims → World → World → Option Actor → Type 0
  Shown ep raw none w0 w actor = actor ≡ none
  Shown ep raw (some claims) w0 w actor =
      verify_access_token lib run s raw w0 ≡ (ok claims, w) → Allowed ep raw actor w0.db

  check_type-passed :
      (ep : Endpoint) (req : HttpRequest) (a : Option Actor) (st : World × List Entry)
      {actor : Option Actor} {st' : World × List Entry}
      → check_type lib run s limiter ep req a st ≡ (passed actor, st')
      → a ≡ actor
  unfolding check_type
  check_type-passed ep req a st h = elim (Bool-cases (is_unreadable lib run s limiter ep req)) [
    | inl bad ↦ absurd (ground arith)
    | inr fine ↦ ground arith
  ]

  admit_actor-passed {ℓ} :
      {P : Type ℓ} (ep : Endpoint) (req : HttpRequest) (m : List Entry) (x : Result Actor × World)
      {actor : Option Actor} {st : World × List Entry}
      → admit_actor lib run s limiter ep req m x ≡ (passed actor, st)
      → ((a : Actor) (w : World) → x ≡ (ok a, w) → some a ≡ actor → P)
      → P
  admit_actor-passed ep req m (err e, w) h k = absurd (cc h)
  admit_actor-passed ep req m (ok a, w) h k = k a w refl (check_type-passed ep req (some a) _ h)

  admit-Shown :
      (ep : Endpoint) (req : HttpRequest) (claims : Option Claims) (w0 w : World) (m : List Entry)
      {actor : Option Actor} {st : World × List Entry}
      → admit lib run s limiter ep req claims (w, m) ≡ (passed actor, st)
      → Shown ep req.authorization claims w0 w actor
  admit-Shown ep req none w0 w m h = sym (check_type-passed ep req none _ h)
  admit-Shown ep req (some claims) w0 w m h = λ verify.
      admit_actor-passed ep req m _ h λ a w2 allowed same.
        subst (λ b. Allowed ep req.authorization b w0.db) same
          (load_allowed-Allowed ep req.authorization claims w0 w verify allowed)

  limited-Shown :
      (ep : Endpoint) (req : HttpRequest) (claims : Option Claims) (w0 w : World)
      (x : Result Bool × List Entry) {actor : Option Actor} {st : World × List Entry}
      → limited lib run s limiter ep req claims w x ≡ (passed actor, st)
      → Shown ep req.authorization claims w0 w actor
  limited-Shown ep req claims w0 w (err e, m) {st = st} h = elim (Bool-cases (ep.rate == "auth")) [
    | inl auth ↦ absurd (ground arith)
    | inr other ↦ admit-Shown ep req claims w0 w m {st = st} (ground arith)
  ]
  limited-Shown ep req claims w0 w (ok true, m) h = admit-Shown ep req claims w0 w m h
  limited-Shown ep req claims w0 w (ok false, m) h = absurd (cc h)

  throttle-Shown :
      (ep : Endpoint) (req : HttpRequest) (claims : Option Claims) (w0 w : World) (m : List Entry)
      {actor : Option Actor} {st : World × List Entry}
      → throttle lib run s limiter ep req claims (w, m) ≡ (passed actor, st)
      → Shown ep req.authorization claims w0 w actor
  unfolding throttle
  throttle-Shown ep req claims w0 w m h =
      branch (is_probe ep.id) _ _ h (admit-Shown ep req claims w0 w m)
        (limited-Shown ep req claims w0 w _)

  verified-Allowed :
      (ep : Endpoint) (req : HttpRequest) (m : List Entry) (w0 : World) (x : Result Claims × World)
      {actor : Option Actor} {st : World × List Entry}
      → verify_access_token lib run s req.authorization w0 ≡ x
      → verified lib run s limiter ep req m x ≡ (passed actor, st)
      → Allowed ep req.authorization actor w0.db
  verified-Allowed ep req m w0 (err e, w) verify h = absurd (cc h)
  verified-Allowed ep req m w0 (ok claims, w) verify h =
      throttle-Shown ep req (some claims) w0 w m h verify

  -- A request that passes the checks of an endpoint which is not public has an access token that
  -- authenticates an active user, with the role that the tables have for that user now, and the endpoint
  -- asks for no permission or for one that this role has; the handler is given that user. The handler of
  -- a public endpoint is given none.
  pub enforce-Allowed :
      (ep : Endpoint) (req : HttpRequest) (w : World) (m : List Entry) {actor : Option Actor}
      {st : World × List Entry}
      → enforce lib run s limiter ep req (w, m) ≡ (passed actor, st)
      → ((ep.public ≡ true) × (actor ≡ none))
        ⊎ ((ep.public ≡ false) × Allowed ep req.authorization actor w.db)
  unfolding enforce
  enforce-Allowed ep req w m {st = st} h = elim (Bool-cases ep.public) [
    | inl open_to_all ↦ inl (open_to_all, throttle-Shown ep req none w w m {st = st} (ground arith))
    | inr closed ↦ inr (closed, verified-Allowed ep req m w _ {st = st} refl (ground arith))
  ]
