-- ===== src/Security/Idempotency/Once.antt =====
-- Requests under idempotency keys that interleave: `run` up to its call of the function, and from
-- the function's end on, are steps of their own.
use soomsuite_agent.Prelude.{
  ℕ, suc, ◌+◌, ◌≤◌, ◌≡◌, refl, sym, ap, subst, ◌∙◌, inl, inr, String, str_eq, str_eq_iff, true,
  false, Option, none, some, List, [], ◌∷◌, Bool-cases, Option-cases, if◌then◌else◌, any, arith,
}
use soomsuite_agent.Errors.{PlatformError, ok, err}
use soomsuite_agent.Security.Idempotency.{
  Entry, pending, done, Memory, Entering, execute, enter, leave,
}

module _ (Response : Type 0) (through_json : Response → Response) where
  -- The store, the keys whose function is running, and those whose function has succeeded.
  pub record World : Type 0 where
    pub memory : Memory Response
    pub running : List String
    pub completed : List String

  -- A request arrives; a function that is running succeeds or raises.
  pub data Step : Type 0 where
    arrive : (key request_hash : String) → Step
    succeed : (key request_hash : String) (response : Response) → Step
    fail : (key request_hash : String) (e : PlatformError) → Step

  abbrev pub count : String → List String → ℕ
  count k [] = 0
  count k (j ∷ js) = if str_eq k j then suc (count k js) else count k js

  abbrev remove : String → List String → List String
  remove k [] = []
  remove k (j ∷ js) = if str_eq k j then js else j ∷ remove k js

  abbrev started : String → Entering Response × Memory Response → World → World
  started k (execute, memory) w = record w { memory = memory; running = k ∷ w.running }
  started k (_, memory) w = record w { memory = memory }

  unfoldable pub step : Step → World → World
  unfolding enter leave
  step (arrive k h) w = started k (enter Response k h w.memory) w
  step (succeed k h r) w =
      if any (str_eq k) w.running
      then record {
        memory = leave Response through_json k h (ok r) w.memory;
        running = remove k w.running;
        completed = k ∷ w.completed;
      }
      else w
  step (fail k h e) w =
      if any (str_eq k) w.running
      then record w {
        memory = leave Response through_json k h (err e) w.memory;
        running = remove k w.running;
      }
      else w

  unfoldable pub steps : List Step → World → World
  unfolding step
  steps [] w = w
  steps (c ∷ cs) w = steps cs (step c w)

  abbrev pub idle : World
  idle = record { memory = λ _. none; running = []; completed = [] }

  -- What the entry of a key says of the executions of its function.
  abbrev Agrees : Option (Entry Response) → ℕ → ℕ → Type 0
  Agrees none r c = (r ≡ 0) × (c ≡ 0)
  Agrees (some (pending h)) r c = (r ≡ 1) × (c ≡ 0)
  Agrees (some (done h x)) r c = (r ≡ 0) × (c ≡ 1)

  abbrev IsConsistent : World → Type 0
  IsConsistent w = (k : String) → Agrees (w.memory k) (count k w.running) (count k w.completed)

  any-count : (k : String) (js : List String) → any (str_eq k) js ≡ true → 1 ≤ count k js
  any-count k [] h = absurd (cc)
  any-count k (j ∷ js) h = ground (arith, any-count k js)

  count-remove :
      (k : String) (js : List String) → 1 ≤ count k js → suc (count k (remove k js)) ≡ count k js
  count-remove k [] h = absurd (omega (arith, h))
  count-remove k (j ∷ js) h = elim (Bool-cases (str_eq k j)) [
    | inl same ↦ rw same refl
    | inr other ↦ rw (other, other) (count-remove k js (rw other at h))
  ]

  count-remove_other :
      (i k : String) (js : List String) → str_eq i k ≡ false → count i (remove k js) ≡ count i js
  count-remove_other i k [] h = refl
  count-remove_other i k (j ∷ js) h = elim (Bool-cases (str_eq k j)) [
    | inl same ↦
        let eq : k ≡ j = (str_eq_iff k j).0 same in
        let apart : str_eq i j ≡ false = subst (λ x. str_eq i x ≡ false) eq h in
        rw (same, apart) refl
    | inr other ↦ rw other (elim (Bool-cases (str_eq i j)) [
      | inl hit ↦ rw hit (ap suc (count-remove_other i k js h))
      | inr miss ↦ rw miss (count-remove_other i k js h)
    ])
  ]

  -- A step on one key: what it says of that key, and that it leaves the others alone.
  changed_at :
      (k : String) (w : World) (v : Option (Entry Response)) (running completed : List String)
      → IsConsistent w
      → Agrees v (count k running) (count k completed)
      → ((i : String)
          → str_eq i k ≡ false
          → (count i running ≡ count i w.running) × (count i completed ≡ count i w.completed))
      → (i : String)
      → Agrees (if str_eq i k then v else w.memory i) (count i running) (count i completed)
  changed_at k w v running completed h here others i = elim (Bool-cases (str_eq i k)) [
    | inl same ↦
        let eq : i ≡ k = (str_eq_iff i k).0 same in
        rw same (subst (λ j. Agrees v (count j running) (count j completed)) (sym eq) here)
    | inr apart ↦ let (r, c) = others i apart in rw (apart, r, c) (h i)
  ]

  -- An entry under which the function is running is a pending one.
  running-Agrees :
      (v : Option (Entry Response)) (r c : ℕ) → Agrees v r c → 1 ≤ r → (r ≡ 1) × (c ≡ 0)
  running-Agrees none r c h up = absurd (omega (arith, h.0, up))
  running-Agrees (some (pending q)) r c h up = h
  running-Agrees (some (done q x)) r c h up = absurd (omega (arith, h.0, up))

  leave-IsConsistent :
      (k : String) (w : World) (v : Option (Entry Response)) (completed : List String)
      → any (str_eq k) w.running ≡ true
      → IsConsistent w
      → ((c : ℕ) → c ≡ 0 → count k w.completed ≡ c → Agrees v 0 (count k completed))
      → ((i : String) → str_eq i k ≡ false → count i completed ≡ count i w.completed)
      → (i : String)
      → Agrees
          (if str_eq i k then v else w.memory i)
          (count i (remove k w.running))
          (count i completed)
  leave-IsConsistent k w v completed up h new others =
      let at_least = any-count k w.running up in
      let (one, zero_done) =
        running-Agrees (w.memory k) (count k w.running) (count k w.completed) (h k) at_least in
      let gone : count k (remove k w.running) ≡ 0 =
        omega (arith, one, count-remove k w.running at_least) in
      changed_at k w v (remove k w.running) completed h
        (rw gone (new (count k w.completed) zero_done refl))
        (λ i apart. (count-remove_other i k w.running apart, others i apart))

  step-IsConsistent : (c : Step) (w : World) → IsConsistent w → IsConsistent (step c w)
  unfolding step enter leave
  step-IsConsistent (arrive k q) w h = elim (Option-cases (w.memory k)) [
    | inl free ↦
        let self : str_eq k k ≡ true = (str_eq_iff k k).1 refl in
        let (r, c) : Agrees none (count k w.running) (count k w.completed) =
          subst (λ v. Agrees v (count k w.running) (count k w.completed)) free (h k) in
        rw free (
          changed_at k w (some (pending q)) (k ∷ w.running) w.completed h (rw self (ap suc r, c))
            (λ i apart. (rw apart refl, refl)))
    | inr (pending p, held) ↦ elim (Bool-cases (str_eq p q)) [
      | inl same ↦ rw (held, same) h
      | inr other ↦ rw (held, other) h
    ]
    | inr (done p r, held) ↦ elim (Bool-cases (str_eq p q)) [
      | inl same ↦ rw (held, same) h
      | inr other ↦ rw (held, other) h
    ]
  ]
  step-IsConsistent (succeed k q r) w h = elim (Bool-cases (any (str_eq k) w.running)) [
    | inr idle_key ↦ rw idle_key h
    | inl up ↦
        let self : str_eq k k ≡ true = (str_eq_iff k k).1 refl in
        rw up (
          leave-IsConsistent k w (some (done q (through_json r))) (k ∷ w.completed) up h
            (λ c none_yet same. (refl, rw self (ap suc (same ∙ none_yet))))
            (λ i apart. rw apart refl))
  ]
  step-IsConsistent (fail k q e) w h = elim (Bool-cases (any (str_eq k) w.running)) [
    | inr idle_key ↦ rw idle_key h
    | inl up ↦ rw up (
        leave-IsConsistent k w none w.completed up h (λ c none_yet same. (refl, same ∙ none_yet))
          (λ i apart. refl))
  ]

  steps-IsConsistent : (cs : List Step) (w : World) → IsConsistent w → IsConsistent (steps cs w)
  unfolding steps
  steps-IsConsistent [] w h = h
  steps-IsConsistent (c ∷ cs) w h = steps-IsConsistent cs (step c w) (step-IsConsistent c w h)

  Agrees-le : (v : Option (Entry Response)) (r c : ℕ) → Agrees v r c → r + c ≤ 1
  Agrees-le none r c h = omega (arith, h.0, h.1)
  Agrees-le (some (pending q)) r c h = omega (arith, h.0, h.1)
  Agrees-le (some (done q x)) r c h = omega (arith, h.0, h.1)

  -- However requests arrive and their functions end, the function of a key is running or has
  -- succeeded at most once in all: never two at a time, and never again after it has succeeded.
  pub steps-once :
      (cs : List Step) (k : String)
      → count k (steps cs idle).running + count k (steps cs idle).completed ≤ 1
  steps-once cs k =
      let w = steps cs idle in
      Agrees-le (w.memory k) (count k w.running) (count k w.completed)
        (steps-IsConsistent cs idle (λ _. (refl, refl)) k)
