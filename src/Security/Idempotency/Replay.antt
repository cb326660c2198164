-- ===== src/Security/Idempotency/Replay.antt =====
-- A request that comes again under its idempotency key, and another under the same key.
use soomsuite_agent.Prelude.{
  ◌≡◌, refl, ap, subst, ◌∙◌, inl, inr, String, str_eq, str_eq_iff, Bool, true, Option, none, some,
  Bool-cases, Option-cases, if◌then◌else◌,
}
use Prim.Native.Char.{Char}
use soomsuite_agent.Errors.{Result, ok, err, Result-cases}
use soomsuite_agent.Store.{Action}
use soomsuite_agent.Security.Idempotency.{
  Entry, pending, done, Memory, set, other_request, rkey, enter, leave, validate_key, settle, run,
}

module _ (Response : Type 0) (through_json : Response → Response) {S : Type 0}
    (func : Action S Response) where
  -- A key under which a response is stored.
  settle_done :
      (func' : Action S Response) (k h h' : String) (r : Response) (memory : Memory Response)
      (s : S)
      → memory k ≡ some (done h r)
      → settle Response through_json func' k h' (enter Response k h' memory) s
        ≡ (if str_eq h h' then ok r else err (other_request Response), (memory, s))
  unfolding enter leave
  settle_done func' k h h' r memory s stored = elim (Bool-cases (str_eq h h')) [
    | inl same ↦ rw (stored, same) refl
    | inr other ↦ rw (stored, other) refl
  ]

  -- What is stored of a response: a fresh one through JSON, a replayed one as it is.
  abbrev pub kept : Option (Entry Response) → Response → Response
  kept none r = through_json r
  kept (some _) r = r

  settle-stores :
      (k h : String) (r : Response) (memory memory' : Memory Response) (s s' : S)
      → settle Response through_json func k h (enter Response k h memory) s ≡ (ok r, (memory', s'))
      → memory' k ≡ some (done h (kept (memory k) r))
  unfolding enter leave
  settle-stores k h r memory memory' s s' e = elim (Option-cases (memory k)) [
    | inl free ↦ elim (Result-cases ((func s).0)) [
      | inr (x, failed) ↦ let clash = rw (free, failed) at e in absurd (cc)
      | inl (x, got) ↦
          let ran = rw (free, got) at e in
          let self : str_eq k k ≡ true = (str_eq_iff k k).1 refl in
          let same : x ≡ r = cc in
          let stored : set Response k (done h (through_json x)) (set Response k (pending h) memory)
              ≡ memory' =
            ap (λ (t : Result Response × (Memory Response × S)). t.1.0) ran in
          rw free (
            subst (λ (m : Memory Response). m k ≡ some (done h (through_json r))) stored
              (rw (self, same) refl))
    ]
    | inr (pending p, held) ↦ elim (Bool-cases (str_eq p h)) [
      | inl same ↦ let clash = rw (held, same) at e in absurd (cc)
      | inr other ↦ let clash = rw (held, other) at e in absurd (cc)
    ]
    | inr (done p x, held) ↦ elim (Bool-cases (str_eq p h)) [
      | inr other ↦ let clash = rw (held, other) at e in absurd (cc)
      | inl same ↦
          let answered = rw (held, same) at e in
          let value : x ≡ r = cc in
          let hash : p ≡ h = (str_eq_iff p h).0 same in
          let unchanged : memory ≡ memory' =
            ap (λ (t : Result Response × (Memory Response × S)). t.1.0) answered in
          rw held (
            subst (λ (m : Memory Response). m k ≡ some (done h r)) unchanged
              (held ∙ rw (hash, value) refl))
    ]
  ]

  -- Once a request has succeeded, the same request under its key is answered with its response and
  -- another is refused, whatever its function: nothing is executed or stored again. The response
  -- has gone through JSON if the first request executed its function, and is the same if it was
  -- itself answered from the store.
  pub run_again :
      (func' : Action S Response) (isalnum : Char → Bool)
      (prefix scope key request_hash request_hash' : String) (r : Response)
      (w w' : Memory Response × S)
      → run Response through_json func isalnum prefix scope key request_hash w ≡ (ok r, w')
      → run Response through_json func' isalnum prefix scope key request_hash' w' ≡ (
        if str_eq request_hash request_hash'
            then ok (kept (w.0 (rkey Response prefix scope key)) r)
            else err (other_request Response),
        w',
      )
  unfolding run
  run_again func' isalnum prefix scope key h h' r (memory, s) (memory', s') e =
      elim (Result-cases (validate_key isalnum key)) [
        | inr (x, invalid) ↦ let clash = rw invalid at e in absurd (cc)
        | inl (x, valid) ↦
            let k = rkey Response prefix scope key in
            let settled : settle Response through_json func k h (enter Response k h memory) s
                ≡ (ok r, (memory', s')) =
              rw valid at e in
            rw valid (
              settle_done func' k h h' (kept (memory k) r) memory' s'
                (settle-stores k h r memory memory' s s' settled))
      ]
