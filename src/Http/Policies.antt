-- ===== src/Http/Policies.antt =====
-- internal/httpapi/registry.go: what no configuration can do to an endpoint.
use golang_backend.Base.{
  ℕ, String, ◌≡◌, refl, sym, subst, ◌∙◌, ap, Bool, true, not, ◌&&◌, ◌||◌, Option, none, some, List,
  [], ◌∷◌, ◌++◌, arith, ◌==◌, string_eq, any, all, map, Bool-cases, inl, inr,
}
use mathlib.Core.List.{append-nil}
use golang_backend.Database.Action.{Result, ok, err}
use golang_backend.Http.Registry.{
  Endpoint, PolicyOverride, RateGroup, definitions, has_group, override_at, override_audit,
  override_rate, override_cache, overridden, resolve_one, and_then, route, then_known, rounds_end,
  rounds, all_known, resolve,
}

-- what is not a policy: where the endpoint is, and who may call it
pub record Door : Type 0 where
  pub id : String
  pub method : String
  pub path : String
  pub module_name : String
  pub permission : String
  pub public : Bool
  pub status : ℕ
  pub capability : String

abbrev pub door : Endpoint → Door
door e = record {
  id = e.id;
  method = e.method;
  path = e.path;
  module_name = e.module_name;
  permission = e.permission;
  public = e.public;
  status = e.status;
  capability = e.capability;
}

-- A policy that can be kept: no answer but that of a GET is cached, a record is required only where a
-- transaction can write it, and none is asked for where nothing writes one.
abbrev pub is_kept : Endpoint → Bool
is_kept e =
    (not (e.cache == "read") || e.method == "GET")
    && ((not (e.audit == "required") || e.capability == "transaction")
        && (e.audit == "none" || not (e.capability == "none")))

abbrev pub is_sound : List RateGroup → Endpoint → Bool
is_sound rates e = is_kept e && has_group e.rate rates

-- the same door, and a policy that can be kept
abbrev Kept : List RateGroup → Endpoint → Endpoint → Type 0
Kept rates base e = (door e ≡ door base) × (is_sound rates e ≡ true)

override_audit-Kept :
    (rates : List RateGroup) (mode : String) (base e : Endpoint)
    → is_sound rates base ≡ true
    → override_audit mode base ≡ ok e
    → Kept rates base e
unfolding override_audit
override_audit-Kept rates mode base e sound h = (ground arith, ground arith)

override_rate-Kept :
    (rates : List RateGroup) (group : String) (base e : Endpoint)
    → is_sound rates base ≡ true
    → override_rate rates group base ≡ ok e
    → Kept rates base e
unfolding override_rate
override_rate-Kept rates group base e sound h = (ground arith, ground arith)

override_cache-Kept :
    (rates : List RateGroup) (mode : String) (base e : Endpoint)
    → is_sound rates base ≡ true
    → override_cache mode base ≡ ok e
    → Kept rates base e
unfolding override_cache
override_cache-Kept rates mode base e sound h = (ground arith, ground arith)

Kept-trans :
    (rates : List RateGroup) (a b c : Endpoint) → Kept rates a b → Kept rates b c → Kept rates a c
Kept-trans rates a b c (door_b, _) (door_c, sound) = (door_c ∙ door_b, sound)

and_then-Kept :
    (rates : List RateGroup) (f : Endpoint → Result Endpoint) (base : Endpoint)
    (x : Result Endpoint) (e : Endpoint)
    → ((a : Endpoint) → x ≡ ok a → Kept rates base a)
    → ((a b : Endpoint) → is_sound rates a ≡ true → f a ≡ ok b → Kept rates a b)
    → and_then x f ≡ ok e
    → Kept rates base e
and_then-Kept rates f base (ok a) e first next h =
    let at_a = first a refl in Kept-trans rates base a e at_a (next a e at_a.1 h)
and_then-Kept rates f base (err c) e first next h = absurd (cc h)

overridden-Kept :
    (rates : List RateGroup) (p : Option PolicyOverride) (base e : Endpoint)
    → is_sound rates base ≡ true
    → overridden rates p base ≡ ok e
    → Kept rates base e
overridden-Kept rates none base e sound h = (ground arith, ground arith)
overridden-Kept rates (some p) base e sound h =
    and_then-Kept rates (override_cache p.cache) base _ e
      (λ b second.
        and_then-Kept rates (override_rate rates p.rate_limit) base _ b
          (λ a first. override_audit-Kept rates p.audit base a sound first)
          (λ a b. override_rate-Kept rates p.rate_limit a b) second)
      (λ a b. override_cache-Kept rates p.cache a b) h

resolve_one-Kept :
    (rates : List RateGroup) (policies : List PolicyOverride) (result : List Endpoint)
    (base e : Endpoint)
    → is_kept base ≡ true
    → resolve_one rates policies result base ≡ ok e
    → Kept rates base e
unfolding resolve_one
resolve_one-Kept rates policies result base e kept h =
    elim (Bool-cases (any (λ e. e.id == base.id) result)) [
      | inl twice ↦ absurd (ground arith)
      | inr new ↦ elim (Bool-cases (any (λ e. route e == route base) result)) [
        | inl twice ↦ absurd (ground arith)
        | inr new' ↦ elim (Bool-cases (has_group base.rate rates)) [
          | inl known ↦
              overridden-Kept rates (override_at base.id policies) base e (ground arith)
                (ground arith)
          | inr unknown ↦ absurd (ground arith)
        ]
      ]
    ]

-- the rows so far and the rows to come
abbrev Resolved : List RateGroup → List Endpoint → List Endpoint → List Endpoint → Type 0
Resolved rates bases result all_rows =
    (map door all_rows ≡ map door result ++ map door bases) × (all (is_sound rates) all_rows ≡ true)

all-append-one :
    (p : Endpoint → Bool) (xs : List Endpoint) (e : Endpoint)
    → all p xs ≡ true
    → p e ≡ true
    → all p (xs ++ e ∷ []) ≡ true
all-append-one p [] e h k = ground arith
all-append-one p (x ∷ xs) e h k = ground (arith, all-append-one p xs e)

doors_append :
    (xs : List Endpoint) (e base : Endpoint) (ds : List Door)
    → door e ≡ door base
    → map door (xs ++ e ∷ []) ++ ds ≡ map door xs ++ door base ∷ ds
doors_append [] e base ds h = ap (λ d. d ∷ ds) h
doors_append (x ∷ xs) e base ds h = ap (λ rest. door x ∷ rest) (doors_append xs e base ds h)

rounds_end-ok {ℓ} :
    {P : Type ℓ} (rest : Endpoint → Result (List Endpoint)) (x : Result Endpoint)
    {rows : List Endpoint}
    → rounds_end rest x ≡ ok rows
    → ((a : Endpoint) → x ≡ ok a → rest a ≡ ok rows → P)
    → P
rounds_end-ok rest (ok a) h k = k a refl h
rounds_end-ok rest (err e) h k = absurd (cc h)

rounds-Resolved :
    (rates : List RateGroup) (policies : List PolicyOverride) (bases result rows : List Endpoint)
    → all is_kept bases ≡ true
    → all (is_sound rates) result ≡ true
    → rounds rates policies bases result ≡ ok rows
    → Resolved rates bases result rows
unfolding rounds
rounds-Resolved rates policies [] result rows kept sound h =
    let same : result ≡ rows = ground arith in
    (
      ap (map door) (sym same) ∙ sym (append-nil (map door result)),
      ap (all (is_sound rates)) (sym same) ∙ sound,
    )
rounds-Resolved rates policies (base ∷ bases) result rows kept sound h =
    rounds_end-ok _ (resolve_one rates policies result base) h λ a e k.
      let (door_a, sound_a) = resolve_one-Kept rates policies result base a (ground arith) e in
      let (doors, all_sound) =
        rounds-Resolved rates policies bases (result ++ a ∷ []) rows (ground arith)
          (all-append-one (is_sound rates) result a sound sound_a) k in
      (doors ∙ doors_append result a base (map door bases) door_a, all_sound)

abbrev is_known : List Endpoint → PolicyOverride → Bool
is_known rows p = any (λ e. e.id == p.endpoint) rows

all_known-ok :
    (ps : List PolicyOverride) (result rows : List Endpoint)
    → all_known ps result ≡ ok rows
    → (result ≡ rows) × (all (is_known result) ps ≡ true)
unfolding all_known
all_known-ok [] result rows h = (ground arith, refl)
all_known-ok (p ∷ ps) result rows h = elim (Bool-cases (is_known result p)) [
  | inl known ↦
      let (same, others) = all_known-ok ps result rows (ground arith) in (same, ground arith)
  | inr unknown ↦ absurd (ground arith)
]

then_known-ok :
    (rates : List RateGroup) (policies : List PolicyOverride) (x : Result (List Endpoint))
    (rows : List Endpoint)
    → ((result : List Endpoint) → x ≡ ok result → Resolved rates definitions [] result)
    → then_known policies x ≡ ok rows
    → Resolved rates definitions [] rows × (all (is_known rows) policies ≡ true)
then_known-ok rates policies (err e) rows made h = absurd (cc h)
then_known-ok rates policies (ok result) rows made h =
    let (same, known) = all_known-ok policies result rows h in
    (
      subst (Resolved rates definitions []) same (made result refl),
      ap (λ rs. all (is_known rs) policies) (sym same) ∙ known,
    )

definitions_kept : all is_kept definitions ≡ true
unfolding string_eq
definitions_kept = refl

-- Whatever the configuration overrides, where `Resolve` succeeds the endpoints are those of
-- `Definitions`, in their order, each with its method, its path, its permission, its status and whether it is
-- public; every one has a rate group that is configured; only a GET is cached; a record is required
-- only of an endpoint that changes tables, and none is asked of one that writes none; and every override
-- names an endpoint.
pub resolve-Resolved :
    (rates : List RateGroup) (policies : List PolicyOverride) {rows : List Endpoint}
    → resolve rates policies ≡ ok rows
    → (map door rows ≡ map door definitions)
      × (all (is_sound rates) rows ≡ true)
      × (all (λ p. any (λ e. e.id == p.endpoint) rows) policies ≡ true)
unfolding resolve
resolve-Resolved rates policies {rows} h =
    let (resolved, known) =
      then_known-ok rates policies (rounds rates policies definitions []) rows
        (λ result made.
          rounds-Resolved rates policies definitions [] result definitions_kept refl made)
        h in
    (resolved.0, resolved.1, known)
