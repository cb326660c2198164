-- ===== src/Security/RateLimit/Retry.antt =====
-- The waiting time that the rate limiter answers with a refusal.
use soomsuite_agent.Prelude.{
  ℕ, ◌+◌, ◌-◌, ◌*◌, ◌/◌, max, ◌≤◌, ◌≡◌, refl, sym, ap, ◌∙◌, inl, inr, String, str_eq, str_eq_iff,
  true, false, some, List, [], ◌∷◌, leb, Bool-cases, length, arith,
}
use soomsuite_agent.Security.RateLimit.{
  second, window, Limit, Hits, expire, retry_after, Answer, allowed, denied, hit_queue, hit,
}

module _ (limit : Limit) where
  length-expire : (now : ℕ) (q : List ℕ) → length (expire limit now q) ≤ length q
  unfolding expire
  length-expire now [] = omega arith
  length-expire now (a ∷ q) = ground (arith, length-expire now q)

  -- A queue that is no longer than the limit has room once its oldest hit is over.
  has_room :
      (later a : ℕ) (rest : List ℕ)
      → a + window limit ≤ later
      → length (a ∷ rest) ≤ limit.requests
      → (hit_queue limit later (a ∷ rest)).0 ≡ allowed
  unfolding hit_queue expire
  has_room later a rest over few =
      let gone : leb (a + window limit) later ≡ true = ground arith in
      let shorter = length-expire later rest in
      let room : leb limit.requests (length (expire limit later rest)) ≡ false =
        ground (arith, shorter, few) in
      rw (gone, room) refl

  denied-has_room :
      (now later r : ℕ) (q q' : List ℕ)
      → length q ≤ limit.requests
      → hit_queue limit now q ≡ (denied (some r), q')
      → now + (r + 1) * second ≤ later
      → (hit_queue limit later q').0 ≡ allowed
  unfolding hit_queue
  denied-has_room now later r q q' few h after =
      let kept = expire limit now q in
      let shorter = length-expire now q in
      elim (Bool-cases (leb limit.requests (length kept))) [
        | inr room ↦ let clash = rw room at h in absurd (cc)
        | inl full ↦
            let e : ◌≡◌ {A = Answer × List ℕ} (denied (retry_after limit now kept), kept)
                (denied (some r), q') =
              rw full at h in
            let first : denied (retry_after limit now kept) ≡ denied (some r) =
              ap (λ (x : Answer × List ℕ). x.0) e in
            let wait : retry_after limit now kept ≡ some r = cc in
            waited kept (ap (λ (x : Answer × List ℕ). x.1) e) (omega (arith, shorter, few)) wait
      ]
    where
      waited :
          (kept : List ℕ)
          → kept ≡ q'
          → length kept ≤ limit.requests
          → retry_after limit now kept ≡ some r
          → (hit_queue limit later q').0 ≡ allowed
      waited [] same bound wait = absurd (cc)
      waited (a ∷ rest) same bound wait =
          let value : max 1 ((a + window limit - now) / second) ≡ r = cc in
          rw (← same) (has_room later a rest (omega (arith, value)) bound)

  -- Where no more hits are on record than the limit allows, a hit that is denied with a waiting
  -- time is allowed at any time from one second after that time on, if no other hit on its key
  -- comes between.
  pub hit_retry :
      (now later r : ℕ) (key : String) (hits hits' : Hits)
      → length (hits key) ≤ limit.requests
      → hit limit now key hits ≡ (denied (some r), hits')
      → now + (r + 1) * second ≤ later
      → (hit limit later key hits').0 ≡ allowed
  unfolding hit
  hit_retry now later r key hits hits' few h after =
      let self : str_eq key key ≡ true = (str_eq_iff key key).1 refl in
      let q' = (hit_queue limit now (hits key)).1 in
      let answer : (hit_queue limit now (hits key)).0 ≡ denied (some r) =
        ap (λ (x : Answer × Hits). x.0) h in
      let queue : q' ≡ hits' key = sym (rw self refl) ∙ ap (λ (x : Answer × Hits). x.1 key) h in
      rw (← queue) (denied-has_room now later r (hits key) q' few (ap (λ a. (a, q')) answer) after)
