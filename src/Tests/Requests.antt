-- ===== src/Tests/Requests.antt =====
-- internal/ratelimit/limiter_test.go: three requests of one client under a limit of two, and one of
-- another client.
use golang_backend.Base.{
  length, ◌≤◌, String, ◌≡◌, refl, true, false, none, List, [], ◌∷◌, arith, ==_refl, string_eq,
}
use golang_backend.Database.Action.{ok}
use golang_backend.Ratelimit.Limiter.{Rate, Entry, Request, allow_all, allow, full_key}
use golang_backend.Ratelimit.Quota.{asked, admitted, smaller, allow_all-quota}
use golang_backend.Ratelimit.Bounds.{MeetsAll, within, allow-length}

abbrev two_a_minute : Rate
two_a_minute = record { window_ms = 60000; max = 2 }

abbrev from_a : Request
from_a = record { group = "auth"; key = "a"; now = 0 }

abbrev from_b : Request
from_b = record { group = "auth"; key = "b"; now = 0 }

abbrev requests : List Request
requests = from_a ∷ from_a ∷ from_b ∷ from_a ∷ []

abbrev keys_of : List Entry → List String
keys_of [] = []
keys_of (e ∷ m) = e.key ∷ keys_of m

within-more :
    (k : String) (keys : List String) (m : List Entry)
    → within keys m ≡ true
    → within (k ∷ keys) m ≡ true
within-more k keys [] h = refl
within-more k keys (e ∷ m) h = ground (arith, within-more k keys m)

keys_of-MeetsAll : MeetsAll keys_of
keys_of-MeetsAll [] = refl
keys_of-MeetsAll (e ∷ m) =
    ground (arith, ==_refl e.key, within-more e.key (keys_of m) m (keys_of-MeetsAll m))

answers_of_requests :
    (allow_all keys_of "test" two_a_minute requests []).0
    ≡ ok true ∷ ok true ∷ ok true ∷ ok false ∷ []
unfolding golang_backend.Fault.decimal golang_backend.Ratelimit.Limiter.allow
    golang_backend.Ratelimit.Limiter.allow_all golang_backend.Ratelimit.Limiter.allow_in_memory
    golang_backend.Ratelimit.Limiter.allow_shared golang_backend.Ratelimit.Limiter.full_key
    golang_backend.Ratelimit.Limiter.prune golang_backend.Database.Action.◌>>=◌
    golang_backend.Base.string_eq golang_backend.Base.nat_eq
answers_of_requests = refl

allow_all-quota_example :
    admitted "test:ratelimit:auth:a:0" "test" two_a_minute requests
      (allow_all keys_of "test" two_a_minute requests []).0
    ≡ smaller (asked "test:ratelimit:auth:a:0" "test" two_a_minute requests) 2
allow_all-quota_example =
    allow_all-quota keys_of "test" two_a_minute "test:ratelimit:auth:a:0" requests [] (omega arith)

abbrev one_window : List Entry
one_window = record { key = "old"; bucket = record { count = 1; expires = 0 } } ∷ []

allow-length_example : length (allow keys_of "test" none two_a_minute from_a one_window).1 ≤ 10000
allow-length_example = allow-length keys_of "test" two_a_minute from_a one_window keys_of-MeetsAll
