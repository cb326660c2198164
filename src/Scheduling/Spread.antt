-- ===== src/Scheduling/Spread.antt =====
-- services/scheduling/src/scheduling_service/slots.py: `spread`, the choice of slots to offer.
use soomsuite_agent.Prelude.{
  ℕ, suc, ◌≤◌, ◌≡◌, refl, inl, inr, Bool, true, false, ◌&&◌, ◌||◌, List, [], ◌∷◌, ◌++◌, ltb, leb,
  ◌==◌, if◌then◌else◌, any, length, All, All-append, length-append, leb→le, ◌<◌, Bool-cases, arith,
}
use Prim.Native.Nat.{◌/◌}
use soomsuite_agent.Scheduling.Slots.{Range, day_seconds}

-- `s[0].date()`, of a time in UTC
abbrev pub utc_day : Range → ℕ
utc_day r = r.starts / day_seconds

abbrev same_range : Range → Range → Bool
same_range a b = a.starts == b.starts && a.ends == b.ends

-- The first pass of `spread`: at most one slot per day, until there are `n`.
unfoldable pub one_per_day : ℕ → List Range → List ℕ → List Range → List Range
one_per_day n [] days chosen = chosen
one_per_day n (s ∷ slots) days chosen =
    let seen = any (λ d. d == utc_day s) days in
    let chosen' = if seen then chosen else chosen ++ (s ∷ []) in
    let days' = if seen then days else utc_day s ∷ days in
    let rest = one_per_day n slots days' chosen' in if length chosen' == n then chosen' else rest

-- The second pass: any other slots, until there are `n`.
unfoldable pub fill_up : ℕ → List Range → List Range → List Range
fill_up n [] chosen = chosen
fill_up n (s ∷ slots) chosen =
    let chosen' = if any (same_range s) chosen then chosen else chosen ++ (s ∷ []) in
    let rest = fill_up n slots chosen' in if length chosen' == n then chosen' else rest

abbrev is_before : Range → Range → Bool
is_before a b = ltb a.starts b.starts || (a.starts == b.starts && leb a.ends b.ends)

abbrev insert : Range → List Range → List Range
insert a [] = a ∷ []
insert a (b ∷ bs) = if is_before a b then a ∷ b ∷ bs else b ∷ insert a bs

-- `sorted`
unfoldable pub sorted : List Range → List Range
sorted [] = []
sorted (a ∷ as') = insert a (sorted as')

-- The first pass returns what it has once that is enough; otherwise the second goes on.
unfoldable pub spread : List Range → ℕ → List Range
unfolding one_per_day fill_up sorted
spread slots n =
    let first = one_per_day n slots [] [] in
    if leb (length slots) n
    then slots
    else if length first == n
    then first
    else sorted (fill_up n slots first)

-- What bounds the number of slots chosen, and what holds of each of them.
abbrev add_unless : Bool → List Range → Range → List Range
add_unless b chosen s = if b then chosen else chosen ++ (s ∷ [])

length-add_unless :
    (b : Bool) (chosen : List Range) (s : Range)
    → length (add_unless b chosen s) ≤ suc (length chosen)
length-add_unless true chosen s = omega arith
length-add_unless false chosen s = omega (arith, length-append chosen (s ∷ []))

stop_or_go :
    (n : ℕ) (now later : List Range)
    → length now ≤ n
    → (length now < n → length later ≤ n)
    → length (if length now == n then now else later) ≤ n
stop_or_go n now later bound go = elim (Bool-cases (length now == n)) [
  | inl full ↦ rw full bound
  | inr short ↦ rw short (go (ground arith))
]

length-one_per_day :
    (n : ℕ) (slots : List Range) (days : List ℕ) (chosen : List Range)
    → length chosen < n
    → length (one_per_day n slots days chosen) ≤ n
unfolding one_per_day
length-one_per_day n [] days chosen h = omega (arith, h)
length-one_per_day n (s ∷ slots) days chosen h =
    let seen = any (λ d. d == utc_day s) days in
    let next = add_unless seen chosen s in
    stop_or_go n next (one_per_day n slots (if seen then days else utc_day s ∷ days) next)
      (omega (arith, h, length-add_unless seen chosen s))
      (length-one_per_day n slots (if seen then days else utc_day s ∷ days) next)

length-fill_up :
    (n : ℕ) (slots chosen : List Range) → length chosen < n → length (fill_up n slots chosen) ≤ n
unfolding fill_up
length-fill_up n [] chosen h = omega (arith, h)
length-fill_up n (s ∷ slots) chosen h =
    let next = add_unless (any (same_range s) chosen) chosen s in
    stop_or_go n next (fill_up n slots next)
      (omega (arith, h, length-add_unless (any (same_range s) chosen) chosen s))
      (length-fill_up n slots next)

length-insert : (a : Range) (bs : List Range) → length (insert a bs) ≡ suc (length bs)
length-insert a [] = refl
length-insert a (b ∷ bs) = ground (arith, length-insert a bs)

length-sorted : (as' : List Range) → length (sorted as') ≡ length as'
unfolding sorted
length-sorted [] = refl
length-sorted (a ∷ as') = omega (arith, length-insert a (sorted as'), length-sorted as')

module _ (P : Range → Type 0) where
  All-add_unless :
      (b : Bool) (chosen : List Range) (s : Range)
      → All P chosen
      → P s
      → All P (add_unless b chosen s)
  All-add_unless true chosen s h p = h
  All-add_unless false chosen s h p = All-append P chosen (s ∷ []) h (p, tt)

  All-one_per_day :
      (n : ℕ) (slots : List Range) (days : List ℕ) (chosen : List Range)
      → All P slots
      → All P chosen
      → All P (one_per_day n slots days chosen)
  unfolding one_per_day
  All-one_per_day n [] days chosen hs hc = hc
  All-one_per_day n (s ∷ slots) days chosen hs hc =
      let seen = any (λ d. d == utc_day s) days in
      let next = add_unless seen chosen s in
      let kept = All-add_unless seen chosen s hc hs.0 in
      elim (Bool-cases (length next == n)) [
        | inl full ↦ rw full kept
        | inr short ↦
            rw short
              (All-one_per_day n slots (if seen then days else utc_day s ∷ days) next hs.1 kept)
      ]

  All-fill_up :
      (n : ℕ) (slots chosen : List Range)
      → All P slots
      → All P chosen
      → All P (fill_up n slots chosen)
  unfolding fill_up
  All-fill_up n [] chosen hs hc = hc
  All-fill_up n (s ∷ slots) chosen hs hc =
      let next = add_unless (any (same_range s) chosen) chosen s in
      let kept = All-add_unless (any (same_range s) chosen) chosen s hc hs.0 in
      elim (Bool-cases (length next == n)) [
        | inl full ↦ rw full kept
        | inr short ↦ rw short (All-fill_up n slots next hs.1 kept)
      ]

  All-insert : (a : Range) (bs : List Range) → P a → All P bs → All P (insert a bs)
  All-insert a [] p h = (p, tt)
  All-insert a (b ∷ bs) p h = elim (Bool-cases (is_before a b)) [
    | inl first ↦ rw first (p, h)
    | inr after ↦ rw after (h.0, All-insert a bs p h.1)
  ]

  All-sorted : (as' : List Range) → All P as' → All P (sorted as')
  unfolding sorted
  All-sorted [] h = tt
  All-sorted (a ∷ as') h = All-insert a (sorted as') h.0 (All-sorted as' h.1)

  -- Of any slots, `spread` chooses at most the number asked for, which is positive, and only from
  -- them: what holds of every slot holds of every choice.
  pub spread-All :
      (slots : List Range) (n : ℕ)
      → 1 ≤ n
      → All P slots
      → (length (spread slots n) ≤ n) × All P (spread slots n)
  unfolding spread
  spread-All slots n positive h =
      let first = one_per_day n slots [] [] in
      let kept = All-one_per_day n slots [] [] h tt in
      let bound = length-one_per_day n slots [] [] (omega (arith, positive)) in
      elim (Bool-cases (leb (length slots) n)) [
        | inl few ↦ rw few (leb→le (length slots) n few, h)
        | inr many ↦ elim (Bool-cases (length first == n)) [
          | inl full ↦ rw (many, full) (bound, kept)
          | inr short ↦
              let room : length first < n = ground arith in
              rw (many, short)
                (
                  omega (
                    arith,
                    length-fill_up n slots first room,
                    length-sorted (fill_up n slots first),
                  ),
                  All-sorted (fill_up n slots first) (All-fill_up n slots first h kept),
                )
        ]
      ]
