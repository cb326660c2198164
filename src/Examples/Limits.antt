-- ===== src/Examples/Limits.antt =====
-- A limit of two requests in ten seconds, and a request under an idempotency key.
use soomsuite_agent.Prelude.{ℕ, ◌+◌, ◌≤◌, ◌≡◌, refl, String, true, none, some, List, [], ◌∷◌, arith}
use soomsuite_agent.Errors.{ok}
use soomsuite_agent.Store.{Action}
use soomsuite_agent.Security.RateLimit.{Limit, Hits, put, allowed, denied, expire, hit_queue, hit}
use soomsuite_agent.Security.RateLimit.Window.{Hit, within, allowed_at, allowed_at-within}
use soomsuite_agent.Security.RateLimit.Retry.{hit_retry}
use soomsuite_agent.Security.RateLimit.Refinement.{answers, spec_answers, answers-spec_answers}
use soomsuite_agent.Security.Idempotency.{
  Memory, run, validate_key, all_chars, enter, leave, set, pending, done,
}
use soomsuite_agent.Security.Idempotency.Replay.{run_again}
use soomsuite_agent.Security.Idempotency.Once.{
  Step, arrive, succeed, count, steps, idle, steps-once,
}

abbrev limit : Limit
limit = record { requests = 2; window_seconds = 10 }

abbrev hits : List Hit
hits =
    record { at = 1000000000; key = "login" }
    ∷ record { at = 2000000000; key = "login" }
    ∷ record { at = 3300000000; key = "login" }
    ∷ record { at = 3300000000; key = "chat" }
    ∷ record { at = 12000000000; key = "login" }
    ∷ []

allowed_at-within_example :
    within limit 12000000000 (allowed_at limit "login" hits (λ _. []) []) ≤ limit.requests
allowed_at-within_example =
    allowed_at-within limit "login" hits 12000000000
      (omega arith, (omega arith, (omega arith, (omega arith, (omega arith, tt)))))

abbrev full : Hits
full = λ _. 1000000000 ∷ 2000000000 ∷ []

-- Denied at 3.3 s with 7.7 s left: the answer is 7, a hit 7 s later is denied, one 8 s later is not.
too_early :
    (hit limit 10300000000 "login" (put "login" (1000000000 ∷ 2000000000 ∷ []) full)).0
    ≡ denied (some 1)
unfolding hit hit_queue expire
too_early = refl

hit_retry_example :
    (hit limit 11300000000 "login" (put "login" (1000000000 ∷ 2000000000 ∷ []) full)).0 ≡ allowed
unfolding hit hit_queue expire
hit_retry_example =
    hit_retry limit 3300000000 11300000000 7 "login" full
      (put "login" (1000000000 ∷ 2000000000 ∷ []) full) (omega arith) refl (omega arith)

-- A function that counts its calls.
abbrev counted : Action ℕ String
counted n = (ok "created", n + 1)

-- What JSON makes of a response.
abbrev as_text : String → String
as_text _ = "as text"

abbrev no_memory : Memory String
no_memory = λ _. none

abbrev key : String
key = "aaaaaaaaaaaaaaaa"

abbrev at : String
at = "api:idem:book:aaaaaaaaaaaaaaaa"

abbrev stored : Memory String
stored = set String at (done "h1" "as text") (set String at (pending "h1") no_memory)

run_again_example :
    run String as_text counted (λ _. true) "api" "book" key "h1" (stored, 1)
    ≡ (ok "as text", (stored, 1))
unfolding run validate_key all_chars enter leave
run_again_example =
    run_again String as_text counted counted (λ _. true) "api" "book" key "h1" "h1" "created"
      (no_memory, 0) (stored, 1) refl

abbrev events : List (Step String as_text)
events =
    arrive "k" "h1"
    ∷ arrive "k" "h1"
    ∷ succeed "k" "h1" "created"
    ∷ succeed "k" "h1" "again"
    ∷ arrive "k" "h1"
    ∷ []

steps-once_example :
    count String as_text "k" (steps String as_text events (idle String as_text)).running
      + count String as_text "k" (steps String as_text events (idle String as_text)).completed
    ≤ 1
steps-once_example = steps-once String as_text events "k"

answers-spec_answers_example : answers limit hits (λ _. []) ≡ spec_answers limit hits (λ _. [])
answers-spec_answers_example =
    answers-spec_answers limit hits
      (omega arith, (omega arith, (omega arith, (omega arith, (omega arith, tt)))))
