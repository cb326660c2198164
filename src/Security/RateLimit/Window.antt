-- ===== src/Security/RateLimit/Window.antt =====
-- What the rate limiter bounds: the hits that it allows within any window of time.
use soomsuite_agent.Prelude.{
  ℕ, suc, ◌+◌, ◌≤◌, ◌<◌, ◌≡◌, refl, sym, ap, ◌∙◌, inl, inr, String, str_eq, str_eq_iff, false, ◌&&◌,
  List, [], ◌∷◌, ◌++◌, ltb, leb, leb→le, Bool-cases, length, length-append, All, All-append,
  if◌then◌else◌, arith,
}
use soomsuite_agent.Security.RateLimit.{
  window, Limit, Hits, put, expire, Answer, allowed, denied, hit_queue, hit,
}

-- A hit on a key at a time.
pub record Hit : Type 0 where
  pub at : ℕ
  pub key : String

module _ (limit : Limit) where
  -- How many of the times lie in the window that ends at `t`.
  abbrev pub within : ℕ → List ℕ → ℕ
  within t [] = 0
  within t (a ∷ log) =
      if leb a t && ltb t (a + window limit) then suc (within t log) else within t log

  abbrev logged : ℕ → Answer → List ℕ → List ℕ
  logged now allowed log = log ++ (now ∷ [])
  logged now (denied r) log = log

  -- The times of the hits on a key that were allowed, added to a log of them.
  unfoldable pub allowed_at : String → List Hit → Hits → List ℕ → List ℕ
  unfolding hit
  allowed_at k [] hits log = log
  allowed_at k (h ∷ hs) hits log =
      let next = (hit limit h.at h.key hits).1 in
      let log' = if str_eq k h.key then logged h.at (hit limit h.at h.key hits).0 log else log in
      allowed_at k hs next log'

  -- The clock does not go back.
  abbrev pub IsRising : ℕ → List Hit → Type 0
  IsRising now [] = Unit
  IsRising now (h ∷ hs) = (now ≤ h.at) × IsRising h.at hs

  abbrev pub IsOver : ℕ → ℕ → Type 0
  IsOver now a = a + window limit ≤ now

  pub within-append : (t : ℕ) (xs ys : List ℕ) → within t (xs ++ ys) ≡ within t xs + within t ys
  within-append t [] ys = omega arith
  within-append t (x ∷ xs) ys = ground (arith, within-append t xs ys)

  within-le : (t : ℕ) (xs : List ℕ) → within t xs ≤ length xs
  within-le t [] = omega arith
  within-le t (x ∷ xs) = ground (arith, within-le t xs)

  pub within-over : (now t : ℕ) (xs : List ℕ) → now ≤ t → All (IsOver now) xs → within t xs ≡ 0
  within-over now t [] le h = refl
  within-over now t (x ∷ xs) le h =
      let past : ltb t (x + window limit) ≡ false = ground (arith, h.0) in
      ground (arith, within-over now t xs le h.1)

  pub All-IsOver :
      (now later : ℕ) (xs : List ℕ) → now ≤ later → All (IsOver now) xs → All (IsOver later) xs
  All-IsOver now later [] le h = tt
  All-IsOver now later (x ∷ xs) le h = (omega (arith, le, h.0), All-IsOver now later xs le h.1)

  -- What expires is a prefix of the queue that is over.
  pub expire-append :
      (now : ℕ) (q : List ℕ)
      → (gone : List ℕ) × All (IsOver now) gone × (q ≡ gone ++ expire limit now q)
  unfolding expire
  expire-append now [] = ([], tt, refl)
  expire-append now (a ∷ q) = elim (Bool-cases (leb (a + window limit) now)) [
    | inr current ↦ rw current ([], tt, refl)
    | inl over ↦
        let (gone, h, split) = expire-append now q in
        rw over (a ∷ gone, (leb→le (a + window limit) now over, h), ap (λ xs. a ∷ xs) split)
  ]

  -- The log is what is over and the queue, which is within the limit.
  abbrev IsBounded : ℕ → List ℕ → List ℕ → Type 0
  IsBounded now q log =
      (old : List ℕ) × All (IsOver now) old
      × (log ≡ old ++ q)
      × (length q ≤ limit.requests)
      × ((t : ℕ) → within t log ≤ limit.requests)

  pub append_assoc : (xs ys zs : List ℕ) → xs ++ (ys ++ zs) ≡ (xs ++ ys) ++ zs
  append_assoc [] ys zs = refl
  append_assoc (x ∷ xs) ys zs = ap (λ rest. x ∷ rest) (append_assoc xs ys zs)

  -- A hit that is allowed keeps every window within the limit: earlier windows do not see it, and
  -- the others see the queue alone.
  within-allowed :
      (now : ℕ) (old q log : List ℕ)
      → All (IsOver now) old
      → log ≡ old ++ q
      → length q < limit.requests
      → ((t : ℕ) → within t log ≤ limit.requests)
      → (t : ℕ) → within t (log ++ (now ∷ [])) ≤ limit.requests
  within-allowed now old q log over split room bound t = elim (Bool-cases (leb now t)) [
    | inr later ↦
        let unseen : within t (now ∷ []) ≡ 0 = rw later refl in
        omega (arith, within-append t log (now ∷ []), unseen, bound t)
    | inl seen ↦
        let before : within t log ≡ within t q =
          ap (within t) split
          ∙ within-append t old q
          ∙ rw (within-over now t old (leb→le now t seen) over) (omega arith) in
        let all_seen = within-le t (q ++ (now ∷ [])) in
        omega (
          arith,
          within-append t log (now ∷ []),
          within-append t q (now ∷ []),
          before,
          all_seen,
          length-append q (now ∷ []),
          room,
        )
  ]

  hit_queue-IsBounded :
      (now later : ℕ) (q log : List ℕ)
      → now ≤ later
      → IsBounded now q log
      → IsBounded later (hit_queue limit later q).1 (logged later (hit_queue limit later q).0 log)
  unfolding hit_queue
  hit_queue-IsBounded now later q log le (old, over, split, few, bound) =
      let kept = expire limit later q in
      let (gone, gone_over, cut) = expire-append later q in
      let old' = old ++ gone in
      let over' : All (IsOver later) old' =
        All-append (IsOver later) old gone (All-IsOver now later old le over) gone_over in
      let split' : log ≡ old' ++ kept =
        split ∙ ap (λ xs. old ++ xs) cut ∙ append_assoc old gone kept in
      let shorter : length kept ≤ limit.requests =
        omega (arith, ap length cut, length-append gone kept, few) in
      elim (Bool-cases (leb limit.requests (length kept))) [
        | inl full ↦ rw full (old', over', split', shorter, bound)
        | inr open_time ↦
            let room : length kept < limit.requests = ground arith in
            rw open_time (
              old',
              over',
              ap (λ xs. xs ++ (later ∷ [])) split' ∙ sym (append_assoc old' kept (later ∷ [])),
              omega (arith, room, length-append kept (later ∷ [])),
              within-allowed later old' kept log over' split' room bound,
            )
      ]

  -- Time passes.
  IsBounded-later :
      (now later : ℕ) (q log : List ℕ) → now ≤ later → IsBounded now q log → IsBounded later q log
  IsBounded-later now later q log le (old, over, split, few, bound) =
      (old, All-IsOver now later old le over, split, few, bound)

  allowed_at-bounded :
      (k : String) (hs : List Hit) (now : ℕ) (hits : Hits) (log : List ℕ)
      → IsRising now hs
      → IsBounded now (hits k) log
      → (t : ℕ) → within t (allowed_at k hs hits log) ≤ limit.requests
  unfolding allowed_at hit
  allowed_at-bounded k [] now hits log rising (old, over, split, few, bound) t = bound t
  allowed_at-bounded k (h ∷ hs) now hits log rising bounded t = elim (Bool-cases (str_eq k h.key)) [
    | inr other ↦ rw other (
        allowed_at-bounded k hs h.at (put h.key (hit_queue limit h.at (hits h.key)).1 hits) log
          rising.1 (rw other (IsBounded-later now h.at (hits k) log rising.0 bounded)) t)
    | inl same ↦
        let eq : k ≡ h.key = (str_eq_iff k h.key).0 same in
        let here : IsBounded now (hits h.key) log = rw (← eq) bounded in
        rw same (
          allowed_at-bounded k hs h.at (put h.key (hit_queue limit h.at (hits h.key)).1 hits)
            (logged h.at (hit_queue limit h.at (hits h.key)).0 log) rising.1
            (rw same (hit_queue-IsBounded now h.at (hits h.key) log rising.0 here)) t)
  ]

  -- Whatever hits come on whatever keys, as long as the clock does not go back, no window of the
  -- limit's length has more allowed hits on a key than the limit's number of requests.
  pub allowed_at-within :
      (k : String) (hs : List Hit) (t : ℕ)
      → IsRising 0 hs
      → within t (allowed_at k hs (λ _. []) []) ≤ limit.requests
  allowed_at-within k hs t rising =
      allowed_at-bounded k hs 0 (λ _. []) [] rising ([], tt, refl, omega arith, λ t. omega arith) t
