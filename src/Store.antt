-- ===== src/Store.antt =====
-- Operations on stored state that may raise: what a service method does in a database session.
-- What was written before a raise stays written in the session; the transaction around it
-- (packages/platform-core/src/platform_core/db/engine.py, `tenant_session`) then rolls it back.
use soomsuite_agent.Prelude.{
  ◌≡◌, refl, ap, ◌⊎◌, inl, inr, Bool, true, false, none, some, List, [], ◌∷◌, ◌++◌, if◌then◌else◌,
  find, any, All, subst, Bool-cases, or_false, arith,
}
use soomsuite_agent.Errors.{PlatformError, Result, ok, err}

abbrev pub Action : Type 0 → Type 0 → Type 0
Action S A = S → Result A × S

module _ {S A : Type 0} where
  abbrev pub pure : A → Action S A
  pure a s = (ok a, s)

  abbrev pub raise : PlatformError → Action S A
  raise e s = (err e, s)

  abbrev pub gets : (S → A) → Action S A
  gets f s = (ok (f s), s)

  abbrev pub lift : Result A → Action S A
  lift r s = (r, s)

  abbrev settle : S → Result A × S → Result A × S
  settle s (ok a, s') = (ok a, s')
  settle s (err e, s') = (err e, s)

  -- `async with db.tenant_session(…)`: commits on success, rolls back on error.
  unfoldable pub transaction : Action S A → Action S A
  transaction m s = settle s (m s)

module _ {S : Type 0} where
  abbrev pub modify : (S → S) → Action S (Unit {0})
  modify f s = (ok tt, f s)

  -- `if c: raise e`
  abbrev pub raise_when : Bool → PlatformError → Action S (Unit {0})
  raise_when c e s = (if c then err e else ok tt, s)

module _ {S A B : Type 0} where
  infixl 5 ◌>>=◌ ◌>>◌
  abbrev pub ◌>>=◌ : Action S A → (A → Action S B) → Action S B
  ◌>>=◌ m f s = let (r, s') = m s in elim r [ ok a ↦ f a s' | err e ↦ (err e, s') ]

  abbrev pub ◌>>◌ : Action S A → Action S B → Action S B
  m >> k = m >>= λ _. k

module _ {S A B : Type 0} (m : Action S A) (k : A → Action S B) (s s' : S) (b : B) where
  abbrev onward : Result A → Result B × S
  onward (ok a) = k a (m s).1
  onward (err e) = (err e, (m s).1)

  bind-settled :
      (r : Result A)
      → (m s).0 ≡ r
      → onward r ≡ (ok b, s')
      → (a : A) × (mid : S) × (m s ≡ (ok a, mid)) × (k a mid ≡ (ok b, s'))
  bind-settled (ok a) e h = (a, (m s).1, ap (λ x. (x, (m s).1)) e, h)
  bind-settled (err x) e h = absurd (cc)

  -- Statements that succeed have each succeeded.
  pub bind-ok :
      (m >>= k) s ≡ (ok b, s') → (a : A) × (mid : S) × (m s ≡ (ok a, mid)) × (k a mid ≡ (ok b, s'))
  bind-ok h = bind-settled (m s).0 refl h

-- Tables as lists of rows.
module _ {Row : Type 0} where
  -- `UPDATE … WHERE`, for a condition that one row at most meets.
  abbrev pub update_first : (Row → Bool) → (Row → Row) → List Row → List Row
  update_first p f [] = []
  update_first p f (r ∷ rs) = if p r then f r ∷ rs else r ∷ update_first p f rs

  -- `UPDATE … WHERE`, on every row that meets the condition.
  abbrev pub update_all : (Row → Bool) → (Row → Row) → List Row → List Row
  update_all p f [] = []
  update_all p f (r ∷ rs) = (if p r then f r else r) ∷ update_all p f rs

settle_atomic :
    {S A : Type 0} (s : S) (r : Result A × S) {e : PlatformError}
    → (settle s r).0 ≡ err e
    → (settle s r).1 ≡ s
settle_atomic s (ok a, s') h = cc
settle_atomic s (err e, s') h = refl

-- A transaction that fails has changed nothing.
pub transaction_atomic :
    {S A : Type 0} (m : Action S A) (s : S) {e : PlatformError}
    → (transaction m s).0 ≡ err e
    → (transaction m s).1 ≡ s
unfolding transaction
transaction_atomic m s h = settle_atomic s (m s) h

-- How a row that is found by its key fares under the writes, where the write keeps the key.
module _ {Row : Type 0} (key : Row → Bool) where
  pub find-append :
      (rs : List Row) (r x : Row) → find key rs ≡ some r → find key (rs ++ (x ∷ [])) ≡ some r
  find-append [] r x h = cc
  find-append (y ∷ rs) r x h = elim (Bool-cases (key y)) [
    | inl hit ↦ rw hit (rw hit at h)
    | inr miss ↦ rw miss (find-append rs r x (rw miss at h))
  ]

  pub find-append_new :
      (rs : List Row) (x : Row)
      → find key rs ≡ none
      → find key (rs ++ (x ∷ [])) ≡ (if key x then some x else none)
  find-append_new [] x h = refl
  find-append_new (y ∷ rs) x h = elim (Bool-cases (key y)) [
    | inl hit ↦ let clash : some y ≡ none = rw hit at h in absurd (cc)
    | inr miss ↦ rw miss (find-append_new rs x (rw miss at h))
  ]

  -- A row that is found fails every test that no row of the table meets.
  pub find-any :
      (test : Row → Bool) (rs : List Row) (r : Row)
      → find key rs ≡ some r
      → any test rs ≡ false
      → test r ≡ false
  find-any test [] r h n = cc
  find-any test (y ∷ rs) r h n = elim (Bool-cases (key y)) [
    | inl hit ↦
        let same : some y ≡ some r = rw hit at h in
        let eq : y ≡ r = cc in rw (← eq) (or_false (test y) (any test rs) n).0
    | inr miss ↦ find-any test rs r (rw miss at h) (or_false (test y) (any test rs) n).1
  ]

  pub find-key : (rs : List Row) (r : Row) → find key rs ≡ some r → key r ≡ true
  find-key [] r h = cc
  find-key (y ∷ rs) r h = elim (Bool-cases (key y)) [
    | inl hit ↦ let same : some y ≡ some r = rw hit at h in let eq : y ≡ r = cc in rw (← eq) hit
    | inr miss ↦ find-key rs r (rw miss at h)
  ]

  module _ (test : Row → Bool) (f : Row → Row) (keeps : (r : Row) → key (f r) ≡ key r) where
    pub find-update_first-none :
        (rs : List Row) → find key rs ≡ none → find key (update_first test f rs) ≡ none
    find-update_first-none [] h = refl
    find-update_first-none (y ∷ rs) h = elim (Bool-cases (key y)) [
      | inl hit ↦ let clash : some y ≡ none = rw hit at h in absurd (cc)
      | inr miss ↦
          let later = find-update_first-none rs (rw miss at h) in
          elim (Bool-cases (test y)) [
            | inl met ↦ rw (met, keeps y, miss) (rw miss at h)
            | inr unmet ↦ rw (unmet, miss) later
          ]
    ]

    pub find-update_first :
        (rs : List Row) (r : Row)
        → find key rs ≡ some r
        → (find key (update_first test f rs) ≡ some r)
          ⊎ ((test r ≡ true) × (find key (update_first test f rs) ≡ some (f r)))
    find-update_first [] r h = cc
    find-update_first (y ∷ rs) r h = ground (arith, keeps y, find-update_first rs r)

    pub find-update_all-none :
        (rs : List Row) → find key rs ≡ none → find key (update_all test f rs) ≡ none
    find-update_all-none [] h = refl
    find-update_all-none (y ∷ rs) h = ground (arith, keeps y, find-update_all-none rs)

    pub find-update_all :
        (rs : List Row) (r : Row)
        → find key rs ≡ some r
        → find key (update_all test f rs) ≡ some (if test r then f r else r)
    find-update_all [] r h = cc
    find-update_all (y ∷ rs) r h = ground (arith, keeps y, find-update_all rs r)

  -- The flush of an object to its row, and to another.
  pub find-save :
      (rs : List Row) (r x : Row)
      → key x ≡ true
      → find key rs ≡ some r
      → find key (update_first key (λ _. x) rs) ≡ some x
  find-save [] r x new h = cc
  find-save (y ∷ rs) r x new h = elim (Bool-cases (key y)) [
    | inl hit ↦ rw (hit, new) refl
    | inr miss ↦ rw (miss, miss) (find-save rs r x new (rw miss at h))
  ]

  pub find-save_other :
      (test : Row → Bool) (x : Row) (rs : List Row)
      → key x ≡ false
      → ((r : Row) → test r ≡ true → key r ≡ false)
      → find key (update_first test (λ _. x) rs) ≡ find key rs
  find-save_other test x [] new old = refl
  find-save_other test x (r ∷ rs) new old = elim (Bool-cases (test r)) [
    | inl met ↦ rw (met, new, old r met) refl
    | inr unmet ↦ elim (Bool-cases (key r)) [
      | inl hit ↦ rw (unmet, hit) refl
      | inr miss ↦ rw (unmet, miss) (find-save_other test x rs new old)
    ]
  ]

  pub find-update_first_self :
      (f : Row → Row) (rs : List Row) (r : Row)
      → ((r : Row) → key (f r) ≡ key r)
      → find key rs ≡ some r
      → find key (update_first key f rs) ≡ some (f r)
  find-update_first_self f [] r keeps h = cc
  find-update_first_self f (y ∷ rs) r keeps h =
      ground (arith, keeps y, find-update_first_self f rs r keeps)

-- What holds of every row, under the writes.
module _ {Row : Type 0} (P : Row → Type 0) where
  pub All-find :
      (key : Row → Bool) (rs : List Row) (r : Row) → All P rs → find key rs ≡ some r → P r
  All-find key [] r h found = cc
  All-find key (y ∷ rs) r h found = elim (Bool-cases (key y)) [
    | inl hit ↦
        let same : some y ≡ some r = rw hit at found in let eq : y ≡ r = cc in subst P eq h.0
    | inr miss ↦ All-find key rs r h.1 (rw miss at found)
  ]

  -- The flush of an object that still satisfies it.
  pub All-update_first :
      (key : Row → Bool) (rs : List Row) (r : Row)
      → All P rs
      → P r
      → All P (update_first key (λ _. r) rs)
  All-update_first key [] r h p = h
  All-update_first key (y ∷ rs) r h p = elim (Bool-cases (key y)) [
    | inl hit ↦ rw hit (p, h.1)
    | inr miss ↦ rw miss (h.0, All-update_first key rs r h.1 p)
  ]
