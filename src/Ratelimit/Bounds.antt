-- ===== src/Ratelimit/Bounds.antt =====
-- internal/ratelimit/limiter.go, `prune`: how many windows the memory holds.
use golang_backend.Base.{
  ℕ, ◌≤◌, ◌<◌, String, ◌≡◌, refl, Bool, true, none, List, [], ◌∷◌, arith, string_eq, nat_eq, length,
  all, contains,
}
use golang_backend.Ratelimit.Limiter.{
  Rate, Entry, Request, remove, evict, unexpired, target, prune, max_memory_buckets, allow,
  allow_in_memory, full_key, counted, bucket_at,
}
use golang_backend.Ratelimit.Quota.{length-put}

-- the keys of the map are among these
abbrev pub within : List String → List Entry → Bool
within keys m = all (λ e. contains keys e.key) m

remove-within :
    (k : String) (keys : List String) (m : List Entry)
    → within (k ∷ keys) m ≡ true
    → within keys (remove k m) ≡ true
remove-within k keys [] h = refl
remove-within k keys (e ∷ m) h = ground (arith, remove-within k keys m)

evict-target :
    (keys : List String) (m : List Entry) → within keys m ≡ true → length (evict keys m) ≤ target
evict-target [] [] h = omega arith
evict-target [] (e ∷ m) h = absurd (cc h)
evict-target (k ∷ keys) m h =
    let rest = evict-target keys (remove k m) (remove-within k keys m h) in ground (arith, rest)

-- a `range` meets every key of the map
abbrev pub MeetsAll : (List Entry → List String) → Type 0
MeetsAll range = (m : List Entry) → within (range m) m ≡ true

prune-length :
    (range : List Entry → List String) (now : ℕ) (m : List Entry)
    → MeetsAll range
    → length (prune range now m) < max_memory_buckets
unfolding prune
prune-length range now m meets =
    let live = unexpired now m in
    let rest = evict-target (range live) live (meets live) in ground (arith, rest)

-- Whatever the order in which the runtime lets `prune` meet the keys, the memory of a limiter holds at
-- most 10000 windows after every call, however many it held before.
pub allow-length :
    (range : List Entry → List String) (namespace : String) (rate : Rate) (r : Request)
    (m : List Entry)
    → MeetsAll range
    → length (allow range namespace none rate r m).1 ≤ max_memory_buckets
unfolding allow allow_in_memory
allow-length range namespace rate r m meets =
    let pruned = prune range r.now m in
    let key = full_key namespace rate r in
    let b = counted rate r.now (bucket_at key pruned) in
    omega (arith, length-put key b pruned, prune-length range r.now m meets)
