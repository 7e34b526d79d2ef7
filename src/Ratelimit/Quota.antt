-- ===== src/Ratelimit/Quota.antt =====
-- internal/ratelimit/limiter.go: how many requests of one window a limiter in memory lets through.
use golang_backend.Base.{
  ℕ, suc, ◌+◌, ◌-◌, ◌≤◌, ◌<◌, String, ◌≡◌, refl, sym, ◌∙◌, ap, Bool, true, false, none, List, [],
  ◌∷◌, arith, ◌==◌, string_eq, nat_eq, leb, if◌then◌else◌, length, Bool-cases, inl, inr, ==→eq,
}
use golang_backend.Database.Action.{Result, ok}
use golang_backend.Ratelimit.Limiter.{
  Rate, Bucket, Entry, Request, full_key, bucket_at, put, counted, prune, max_memory_buckets, allow,
  allow_in_memory, allow_all,
}

put-same : (k : String) (b : Bucket) (m : List Entry) → bucket_at k (put k b m) ≡ b
put-same k b [] = ground arith
put-same k b (e ∷ m) = ground (arith, put-same k b m)

put-other :
    (k j : String) (b : Bucket) (m : List Entry)
    → (k == j) ≡ false
    → bucket_at j (put k b m) ≡ bucket_at j m
put-other k j b [] differ = ground arith
put-other k j b (e ∷ m) differ = ground (arith, put-other k j b m differ)

pub length-put : (k : String) (b : Bucket) (m : List Entry) → length (put k b m) ≤ suc (length m)
length-put k b [] = omega arith
length-put k b (e ∷ m) = ground (arith, length-put k b m)

-- the number of requests with a key
abbrev pub asked : String → String → Rate → List Request → ℕ
asked k namespace rate [] = 0
asked k namespace rate (r ∷ rs) =
    if full_key namespace rate r == k
    then suc (asked k namespace rate rs)
    else asked k namespace rate rs

abbrev is_admitted : Result Bool → ℕ
is_admitted (ok true) = 1
is_admitted _ = 0

-- the number of those that a list of answers lets through
abbrev pub admitted : String → String → Rate → List Request → List (Result Bool) → ℕ
admitted k namespace rate [] answers = 0
admitted k namespace rate (r ∷ rs) [] = 0
admitted k namespace rate (r ∷ rs) (a ∷ answers) =
    if full_key namespace rate r == k
    then is_admitted a + admitted k namespace rate rs answers
    else admitted k namespace rate rs answers

abbrev pub smaller : ℕ → ℕ → ℕ
smaller a b = if leb a b then a else b

prune-small :
    (range : List Entry → List String) (now : ℕ) (m : List Entry)
    → length m < max_memory_buckets
    → prune range now m ≡ m
unfolding prune
prune-small range now m small = ground arith

-- one call, while the map is below its cap
allow-small :
    (range : List Entry → List String) (namespace : String) (rate : Rate) (r : Request)
    (m : List Entry)
    → length m < max_memory_buckets
    → allow range namespace none rate r m ≡ (
        let key = full_key namespace rate r in
        let b = counted rate r.now (bucket_at key m) in (ok (leb b.count rate.max), put key b m))
unfolding allow allow_in_memory
allow-small range namespace rate r m small = rw (prune-small range r.now m small) refl

-- the quota's arithmetic: a request of the window takes one place, or finds none
takes_place :
    (asked_after max count places : ℕ)
    → places ≡ smaller asked_after (max - (count + 1))
    → is_admitted (ok (leb (count + 1) max)) + places ≡ smaller (suc asked_after) (max - count)
takes_place asked_after max count places h = ground (arith, h)

-- A limiter in memory, with room for the windows of all the requests that it is given, lets through of
-- those with one key just as many as the rate still has places for: the number asked for, or what is
-- left of the rate's maximum after the count that the key's window starts with, if that is less.
pub allow_all-quota :
    (range : List Entry → List String) (namespace : String) (rate : Rate) (k : String)
    (rs : List Request) (m : List Entry)
    → length m + length rs ≤ max_memory_buckets
    → admitted k namespace rate rs (allow_all range namespace rate rs m).0
      ≡ smaller (asked k namespace rate rs) (rate.max - (bucket_at k m).count)
unfolding allow_all
allow_all-quota range namespace rate k [] m room = ground arith
allow_all-quota range namespace rate k (r ∷ rs) m room =
    let key = full_key namespace rate r in
    let b = counted rate r.now (bucket_at key m) in
    let left = λ (n : ℕ) (c : Bucket). smaller n (rate.max - c.count) in
    let rest =
      allow_all-quota range namespace rate k rs (put key b m)
        (omega (arith, length-put key b m, room)) in
    rw (allow-small range namespace rate r m (omega (arith, room))) elim (Bool-cases (key == k)) [
      | inl same ↦ rw same (
          takes_place (asked k namespace rate rs) rate.max (bucket_at key m).count
            (admitted k namespace rate rs (allow_all range namespace rate rs (put key b m)).0)
            (rest
              ∙ ap (left (asked k namespace rate rs))
                  (ap (λ i. bucket_at i (put key b m)) (sym (==→eq key k same)) ∙ put-same key b m))
          ∙ ap (λ i. left (suc (asked k namespace rate rs)) (bucket_at i m)) (==→eq key k same))
      | inr differ ↦
          rw differ (rest ∙ ap (left (asked k namespace rate rs)) (put-other key k b m differ))
    ]
