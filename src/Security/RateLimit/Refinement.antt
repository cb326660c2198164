-- ===== src/Security/RateLimit/Refinement.antt =====
-- The rate limiter against its specification, which forgets the queues: a log of all allowed hits,
-- in which a hit is allowed if its window has fewer of them than the limit's number of requests.
use soomsuite_agent.Prelude.{
  ℕ, suc, ◌+◌, ◌≤◌, ◌<◌, ◌≡◌, refl, sym, ap, ◌∙◌, inl, inr, String, str_eq, Bool, true, false, List,
  [], ◌∷◌, ◌++◌, ltb, leb, Bool-cases, length, All, All-append, if◌then◌else◌, arith,
}
use soomsuite_agent.Security.RateLimit.{
  window, Limit, Hits, put, expire, Answer, allowed, denied, hit_queue, hit,
}
use soomsuite_agent.Security.RateLimit.Window.{
  Hit, within, IsRising, IsOver, All-IsOver, within-append, within-over, expire-append,
  append_assoc,
}

abbrev is_allowed : Answer → Bool
is_allowed allowed = true
is_allowed (denied r) = false

module _ (limit : Limit) where
  -- The answers of the limiter.
  unfoldable pub answers : List Hit → Hits → List Bool
  unfolding hit
  answers [] hits = []
  answers (h ∷ hs) hits =
      is_allowed (hit limit h.at h.key hits).0 ∷ answers hs (hit limit h.at h.key hits).1

  -- The log of allowed hits on each key, and the answer for a hit.
  abbrev Logs : Type 0
  Logs = String → List ℕ

  abbrev permits : ℕ → List ℕ → Bool
  permits now log = ltb (within limit now log) limit.requests

  abbrev recorded : ℕ → Bool → List ℕ → List ℕ
  recorded now b log = if b then log ++ (now ∷ []) else log

  unfoldable pub spec_answers : List Hit → Logs → List Bool
  spec_answers [] logs = []
  spec_answers (h ∷ hs) logs =
      let b = permits h.at (logs h.key) in
      b ∷ spec_answers hs (put h.key (recorded h.at b (logs h.key)) logs)

  abbrev IsSorted : List ℕ → Type 0
  IsSorted [] = Unit
  IsSorted (a ∷ q) = All (λ b. a ≤ b) q × IsSorted q

  -- The queue is what of the log may not be over, in order.
  abbrev IsRefined : ℕ → List ℕ → List ℕ → Type 0
  IsRefined now q log =
      (old : List ℕ) × All (IsOver limit now) old
      × (log ≡ old ++ q)
      × IsSorted q
      × All (λ a. a ≤ now) q

  All-le :
      (now later : ℕ) (q : List ℕ) → now ≤ later → All (λ a. a ≤ now) q → All (λ a. a ≤ later) q
  All-le now later [] le h = tt
  All-le now later (a ∷ q) le h = (omega (arith, le, h.0), All-le now later q le h.1)

  -- Every hit from one on that is current is in the window.
  within-current :
      (later a : ℕ) (q : List ℕ)
      → later < a + window limit
      → All (λ b. a ≤ b) q
      → All (λ b. b ≤ later) q
      → within limit later q ≡ length q
  within-current later a [] current from to = refl
  within-current later a (b ∷ q) current from to =
      let started : leb b later ≡ true = ground (arith, to.0) in
      let open_time : ltb later (b + window limit) ≡ true = ground (arith, from.0, current) in
      rw (started, open_time) (ap suc (within-current later a q current from.1 to.1))

  within-expire :
      (later : ℕ) (q : List ℕ)
      → IsSorted q
      → All (λ b. b ≤ later) q
      → (within limit later (expire limit later q) ≡ length (expire limit later q))
        × IsSorted (expire limit later q)
        × All (λ b. b ≤ later) (expire limit later q)
  unfolding expire
  within-expire later [] sorted to = (refl, tt, tt)
  within-expire later (a ∷ q) sorted to = elim (Bool-cases (leb (a + window limit) later)) [
    | inl over ↦ rw over (within-expire later q sorted.1 to.1)
    | inr current ↦
        let room : later < a + window limit = ground arith in
        rw current (within-current later a (a ∷ q) room (omega arith, sorted.0) to, sorted, to)
  ]

  append-IsSorted :
      (now : ℕ) (q : List ℕ) → IsSorted q → All (λ b. b ≤ now) q → IsSorted (q ++ (now ∷ []))
  append-IsSorted now [] sorted to = (tt, tt)
  append-IsSorted now (a ∷ q) sorted to = (
    All-append (λ b. a ≤ b) q (now ∷ []) sorted.0 (to.0, tt),
    append-IsSorted now q sorted.1 to.1,
  )

  hit_queue-IsRefined :
      (now later : ℕ) (q log : List ℕ)
      → now ≤ later
      → IsRefined now q log
      → (is_allowed (hit_queue limit later q).0 ≡ permits later log)
        × IsRefined later (hit_queue limit later q).1 (recorded later (permits later log) log)
  unfolding hit_queue
  hit_queue-IsRefined now later q log le (old, over, split, sorted, to) =
      let kept = expire limit later q in
      let (gone, gone_over, cut) = expire-append limit later q in
      let old' = old ++ gone in
      let over' : All (IsOver limit later) old' =
        All-append (IsOver limit later) old gone (All-IsOver limit now later old le over)
          gone_over in
      let split' : log ≡ old' ++ kept =
        split ∙ ap (λ xs. old ++ xs) cut ∙ append_assoc limit old gone kept in
      let (counted, sorted', to') = within-expire later q sorted (All-le now later q le to) in
      let size : within limit later log ≡ length kept =
        ap (within limit later) split'
        ∙ within-append limit later old' kept
        ∙ rw (within-over limit later later old' (omega arith) over') (omega (arith, counted)) in
      elim (Bool-cases (leb limit.requests (length kept))) [
        | inl full ↦
            let no : permits later log ≡ false = ground (arith, size) in
            rw (full, no) (refl, (old', over', split', sorted', to'))
        | inr room ↦
            let yes : permits later log ≡ true = ground (arith, size) in
            rw (room, yes)
              (
                refl,
                (
                  old',
                  over',
                  ap (λ xs. xs ++ (later ∷ [])) split'
                      ∙ sym (append_assoc limit old' kept (later ∷ [])),
                  append-IsSorted later kept sorted' to',
                  All-append (λ a. a ≤ later) kept (later ∷ []) to' (omega arith, tt),
                ),
              )
      ]

  IsRefined-later :
      (now later : ℕ) (q log : List ℕ) → now ≤ later → IsRefined now q log → IsRefined later q log
  IsRefined-later now later q log le (old, over, split, sorted, to) =
      (old, All-IsOver limit now later old le over, split, sorted, All-le now later q le to)

  abbrev Refines : ℕ → Hits → Logs → Type 0
  Refines now hits logs = (k : String) → IsRefined now (hits k) (logs k)

  answers-Refines :
      (hs : List Hit) (now : ℕ) (hits : Hits) (logs : Logs)
      → IsRising limit now hs
      → Refines now hits logs
      → answers hs hits ≡ spec_answers hs logs
  unfolding answers spec_answers hit
  answers-Refines [] now hits logs rising refined = refl
  answers-Refines (h ∷ hs) now hits logs rising refined =
      let q = hits h.key in
      let log = logs h.key in
      let (same, next) = hit_queue-IsRefined now h.at q log rising.0 (refined h.key) in
      let q' = (hit_queue limit h.at q).1 in
      let log' = recorded h.at (permits h.at log) log in
      let step : Refines h.at (put h.key q' hits) (put h.key log' logs) = λ k.
        elim (Bool-cases (str_eq k h.key)) [
          | inl here ↦ rw here next
          | inr elsewhere ↦
              rw elsewhere (IsRefined-later now h.at (hits k) (logs k) rising.0 (refined k))
        ] in
      let rest = answers-Refines hs h.at (put h.key q' hits) (put h.key log' logs) rising.1 step in
      rw (same, rest) refl

  -- As long as the clock does not go back, the limiter answers every sequence of hits, on whatever
  -- keys, as its specification does: a hit is allowed exactly if the window that ends with it has
  -- fewer allowed hits on its key than the limit's number of requests.
  pub answers-spec_answers :
      (hs : List Hit) → IsRising limit 0 hs → answers hs (λ _. []) ≡ spec_answers hs (λ _. [])
  answers-spec_answers hs rising =
      answers-Refines hs 0 (λ _. []) (λ _. []) rising (λ k. ([], tt, refl, tt, tt))
