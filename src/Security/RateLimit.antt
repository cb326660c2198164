-- ===== src/Security/RateLimit.antt =====
-- packages/platform-core/src/platform_core/security/ratelimit.py: `InMemoryRateLimiter` and
-- `enforce`. The float of the monotonic clock is a number of nanoseconds, the clock's resolution.
pub mod Window
pub mod Retry
pub mod Refinement
use soomsuite_agent.Prelude.{
  ℕ, ◌+◌, ◌-◌, ◌*◌, ◌/◌, max, String, str_eq, Bool, true, false, not, Option, none, some, List, [],
  ◌∷◌, ◌++◌, leb, if◌then◌else◌, length, map,
}
use soomsuite_agent.Errors.{Result, ok, err, rate_limited}

pub record Limit : Type 0 where
  pub requests : ℕ
  pub window_seconds : ℕ

-- The ticks of the clock in a second, and in the limit's window.
abbrev pub second : ℕ
second = 1000000000

abbrev pub window : Limit → ℕ
window limit = limit.window_seconds * second

-- `defaultdict(deque)`
abbrev pub Hits : Type 0
Hits = String → List ℕ

abbrev pub put : String → List ℕ → Hits → Hits
put key q hits = λ k. if str_eq k key then q else hits k

-- `while q and q[0] <= now - limit.window_seconds: q.popleft()`
unfoldable pub expire : Limit → ℕ → List ℕ → List ℕ
expire limit now [] = []
expire limit now (a ∷ q) =
    let rest = expire limit now q in if leb (a + window limit) now then rest else a ∷ q

-- `max(1, int(q[0] + limit.window_seconds - now))`, where `int` drops the fraction of a second, and
-- which raises on an empty queue
abbrev pub retry_after : Limit → ℕ → List ℕ → Option ℕ
retry_after limit now [] = none
retry_after limit now (a ∷ q) = some (max 1 ((a + window limit - now) / second))

-- The answer of `hit`; `none` is the `IndexError` of a limit of no requests.
pub data Answer : Type 0 where
  allowed : Answer
  denied : (retry : Option ℕ) → Answer

-- `hit`, on the queue of its key
unfoldable pub hit_queue : Limit → ℕ → List ℕ → Answer × List ℕ
unfolding expire
hit_queue limit now q =
    let kept = expire limit now q in
    if leb limit.requests (length kept)
    then (denied (retry_after limit now kept), kept)
    else (allowed, kept ++ (now ∷ []))

-- `InMemoryRateLimiter.hit`
unfoldable pub hit : Limit → ℕ → String → Hits → Answer × Hits
unfolding hit_queue
hit limit now key hits =
    ((hit_queue limit now (hits key)).0, put key (hit_queue limit now (hits key)).1 hits)

abbrev outcome : Answer → Option (Result (Unit {0}))
outcome allowed = some (ok tt)
outcome (denied none) = none
outcome (denied (some retry)) = some (err (rate_limited (max 1 retry)))

-- `enforce`, where `none` is the `IndexError`
unfoldable pub enforce : Limit → ℕ → String → Hits → Option (Result (Unit {0})) × Hits
unfolding hit
enforce limit now key hits = (outcome (hit limit now key hits).0, (hit limit now key hits).1)
