-- ===== src/Ratelimit/Limiter.antt =====
-- internal/ratelimit/limiter.go: `Allow` and the pruning of the windows in memory. A count is the
-- script's answer, or the error of the client, where Redis is configured.
use golang_backend.Base.{
  ℕ, ◌+◌, ◌*◌, ◌/◌, String, ◌<>◌, Bool, not, Option, none, some, List, [], ◌∷◌, ◌==◌, string_eq,
  nat_eq, leb, ltb, if◌then◌else◌, length, keep_if, find_first,
}
use golang_backend.Fault.{decimal}
use golang_backend.Database.Action.{Result, ok, err}

pub record Rate : Type 0 where
  pub window_ms : ℕ
  pub max : ℕ

pub record Bucket : Type 0 where
  pub count : ℕ
  pub expires : ℕ

-- an entry of the map
pub record Entry : Type 0 where
  pub key : String
  pub bucket : Bucket

-- the value that a map of Go has at a missing key
abbrev pub no_bucket : Bucket
no_bucket = record { count = 0; expires = 0 }

abbrev bucket_or : Option Entry → Bucket
bucket_or none = no_bucket
bucket_or (some e) = e.bucket

abbrev pub bucket_at : String → List Entry → Bucket
bucket_at key m = bucket_or (find_first (λ e. e.key == key) m)

abbrev pub put : String → Bucket → List Entry → List Entry
put key b [] = record { key = key; bucket = b } ∷ []
put key b (e ∷ m) =
    let rest = put key b m in
    if e.key == key then record { key = key; bucket = b } ∷ m else e ∷ rest

abbrev pub remove : String → List Entry → List Entry
remove key m = keep_if (λ e. not (e.key == key)) m

-- a call of `Allow`, and the order in which a `range` over the map meets its keys
pub record Request : Type 0 where
  pub group : String
  pub key : String
  pub now : ℕ

unfoldable pub full_key : String → Rate → Request → String
full_key namespace rate r =
    namespace <> ":ratelimit:" <> r.group <> ":" <> r.key <> ":" <> decimal (r.now / rate.window_ms)

abbrev pub max_memory_buckets : ℕ
max_memory_buckets = 10000

abbrev pub target : ℕ
target = max_memory_buckets * 9 / 10

-- the second loop of `prune`, over the keys in the order of the `range`
abbrev pub evict : List String → List Entry → List Entry
evict [] m = m
evict (key ∷ keys) m =
    let rest = evict keys (remove key m) in if leb (length m) target then m else rest

abbrev pub unexpired : ℕ → List Entry → List Entry
unexpired now m = keep_if (λ e. not (ltb e.bucket.expires now)) m

unfoldable pub prune : (List Entry → List String) → ℕ → List Entry → List Entry
prune range now m =
    if ltb (length m) max_memory_buckets
    then m
    else (let live = unexpired now m in evict (range live) live)

-- the counted bucket of a key
abbrev pub counted : Rate → ℕ → Bucket → Bucket
counted rate now b = record {
  count = b.count + 1;
  expires = if b.count == 0 then now + rate.window_ms else b.expires;
}

unfoldable pub allow_in_memory :
    (List Entry → List String) → String → Rate → Request → List Entry → Result Bool × List Entry
allow_in_memory range namespace rate r m =
    let pruned = prune range r.now m in
    let key = full_key namespace rate r in
    let b = counted rate r.now (bucket_at key pruned) in
    (ok (leb b.count rate.max), put key b pruned)

unfoldable pub allow_shared : Rate → Result ℕ → Result Bool
allow_shared rate (err e) = err e
allow_shared rate (ok count) = ok (leb count rate.max)

-- `Allow`, with what the script answers if there is a client of Redis
unfoldable pub allow :
    (List Entry → List String)
    → String
    → Option (Result ℕ)
    → Rate
    → Request
    → List Entry
    → Result Bool × List Entry
allow range namespace (some answer) rate r m = (allow_shared rate answer, m)
allow range namespace none rate r m = allow_in_memory range namespace rate r m

-- the requests of some order, one after another: the lock is held from the pruning to the answer
unfoldable pub allow_all :
    (List Entry → List String)
    → String
    → Rate
    → List Request
    → List Entry
    → List (Result Bool) × List Entry
allow_all range namespace rate [] m = ([], m)
allow_all range namespace rate (r ∷ rs) m =
    let (answer, m1) = allow range namespace none rate r m in
    let (answers, m2) = allow_all range namespace rate rs m1 in (answer ∷ answers, m2)
