-- ===== src/Security/Token/Replay.antt =====
-- What the cache of used tokens promises.
use soomsuite_agent.Prelude.{
  ℕ, ◌+◌, ◌<◌, ◌≤◌, ◌≡◌, refl, inl, inr, String, Bool, true, false, ◌&&◌, List, [], ◌∷◌, ◌++◌,
  arith, ltb, any, length, length-append, All, Bool-cases, str_eq, str_eq_iff,
}
use soomsuite_agent.Security.Token.{Item, has_key, evict, first_use}

-- An item of the key that has not expired by a time.
abbrev is_live : String → ℕ → Item → Bool
is_live key t i = str_eq i.key key && ltb t i.expires

evict_live :
    (max_items now t : ℕ) (key : String) (items : List Item)
    → now ≤ t
    → length items < max_items
    → any (is_live key t) items ≡ true
    → any (is_live key t) (evict max_items now items) ≡ true
unfolding evict
evict_live max_items now t key [] early room live = live
evict_live max_items now t key (i ∷ items) early room live =
    ground (arith, evict_live max_items now t key items early)

length-evict :
    (max_items now : ℕ) (items : List Item) → length (evict max_items now items) ≤ length items
unfolding evict
length-evict max_items now [] = omega arith
length-evict max_items now (i ∷ items) = ground (arith, length-evict max_items now items)

any-live :
    (key : String) (t : ℕ) (items : List Item)
    → any (is_live key t) items ≡ true
    → any (has_key key) items ≡ true
any-live key t [] h = h
any-live key t (i ∷ items) h = ground (arith, any-live key t items)

any-append : (p : Item → Bool) (xs ys : List Item) → any p xs ≡ true → any p (xs ++ ys) ≡ true
any-append p [] ys h = absurd (cc)
any-append p (x ∷ xs) ys h = ground (arith, any-append p xs ys)

any-append_last :
    (p : Item → Bool) (xs : List Item) (x : Item) → p x ≡ true → any p (xs ++ (x ∷ [])) ≡ true
any-append_last p [] x h = ground arith
any-append_last p (y ∷ ys) x h = ground (arith, any-append_last p ys x h)

-- A use of the cache: when, by which key, for how long.
pub record Use : Type 0 where
  pub at : ℕ
  pub key : String
  pub ttl : ℕ

unfoldable pub run : ℕ → List Use → List Item → List Item
run max_items [] items = items
run max_items (u ∷ us) items = run max_items us (first_use max_items u.at u.key u.ttl items).1

first_use_live :
    (max_items t : ℕ) (key : String) (u : Use) (items : List Item)
    → u.at ≤ t
    → length items < max_items
    → any (is_live key t) items ≡ true
    → (any (is_live key t) (first_use max_items u.at u.key u.ttl items).1 ≡ true)
      × (length (first_use max_items u.at u.key u.ttl items).1 ≤ length items + 1)
unfolding first_use
first_use_live max_items t key u items early room live =
    let kept = evict_live max_items u.at t key items early room live in
    let small = length-evict max_items u.at items in
    let item : Item = record { key = u.key; expires = u.at + u.ttl } in
    elim (Bool-cases (any (has_key u.key) (evict max_items u.at items))) [
      | inl used ↦ (rw used kept, rw used (omega (arith, small)))
      | inr fresh ↦ (
        rw fresh (any-append (is_live key t) _ (item ∷ []) kept),
        rw (fresh, length-append (evict max_items u.at items) (item ∷ [])) (omega (arith, small)),
      )
    ]

run_live :
    (max_items t : ℕ) (key : String) (us : List Use) (items : List Item)
    → All (λ u. u.at ≤ t) us
    → length items + length us < max_items
    → any (is_live key t) items ≡ true
    → (any (is_live key t) (run max_items us items) ≡ true)
      × (length (run max_items us items) < max_items)
unfolding run
run_live max_items t key [] items early room live = (live, omega (arith, room))
run_live max_items t key (u ∷ us) items early room live =
    let (kept, small) = first_use_live max_items t key u items early.0 (omega (arith, room)) live in
    run_live max_items t key us (first_use max_items u.at u.key u.ttl items).1 early.1
      (omega (arith, room, small)) kept

first_use-new :
    (max_items now t ttl : ℕ) (key : String) (items : List Item)
    → (first_use max_items now key ttl items).0 ≡ true
    → t < now + ttl
    → (any (is_live key t) (first_use max_items now key ttl items).1 ≡ true)
      × (length (first_use max_items now key ttl items).1 ≤ length items + 1)
unfolding first_use
first_use-new max_items now t ttl key items h soon =
    let item : Item = record { key = key; expires = now + ttl } in
    let same : str_eq key key ≡ true = (str_eq_iff key key).1 refl in
    let live : is_live key t item ≡ true = ground arith in
    let small = length-evict max_items now items in
    elim (Bool-cases (any (has_key key) (evict max_items now items))) [
      | inl used ↦ let clash : false ≡ true = rw used at h in absurd (cc)
      | inr fresh ↦ (
        rw fresh (any-append_last (is_live key t) (evict max_items now items) item live),
        rw (fresh, length-append (evict max_items now items) (item ∷ [])) (omega (arith, small)),
      )
    ]

first_use_refused :
    (max_items t ttl : ℕ) (key : String) (items : List Item)
    → any (is_live key t) items ≡ true
    → length items < max_items
    → (first_use max_items t key ttl items).0 ≡ false
unfolding first_use
first_use_refused max_items t ttl key items live room =
    let kept = evict_live max_items t t key items (omega arith) room live in
    rw (any-live key t (evict max_items t items) kept) refl

-- A key that was used for the first time is refused at every time before it expires, whatever uses
-- come between up to then, as long as the cache holds fewer items than its bound.
pub first_use_once :
    (max_items now ttl t ttl' : ℕ) (key : String) (us : List Use) (items : List Item)
    → (first_use max_items now key ttl items).0 ≡ true
    → All (λ u. u.at ≤ t) us
    → t < now + ttl
    → length items + 1 + length us < max_items
    → (first_use max_items t key ttl'
        (run max_items us (first_use max_items now key ttl items).1)).0
      ≡ false
first_use_once max_items now ttl t ttl' key us items h early soon room =
    let (live, small) = first_use-new max_items now t ttl key items h soon in
    let (last, space) =
      run_live max_items t key us (first_use max_items now key ttl items).1 early
        (omega (arith, small, room)) live in
    first_use_refused max_items t ttl' key _ last space
