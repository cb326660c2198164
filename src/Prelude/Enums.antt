-- ===== src/Prelude/Enums.antt =====
-- Finite enumerations (the source's `StrEnum` classes), with the equality test and membership
-- that `==` and `in` mean on them.
use Prim.Native.Nat.{ℕ, zero, suc}
use mathlib.Core.Path.{◌≡◌, refl, ap}
use mathlib.Core.Logic.{inl, inr}
use mathlib.Core.Bool.{Bool, true, false, ◌&&◌, ◌||◌}
use mathlib.Core.List.{List, [], ◌∷◌, ◌++◌}
use mathlib.Core.Option.{some}
use native.Mathlib.Omega.{arith}
use soomsuite_agent.Prelude.Tests.{◌==◌, ==_iff, Bool-cases, and_true}
use soomsuite_agent.Prelude.Lists.{get_elem?, keep, all}

-- The members in the order of declaration, and the place of each.
pub record Enum (A : Type 0) : Type 0 where
  pub values : List A
  pub index : A → ℕ
  pub index_values : (a : A) → get_elem? values (index a) ≡ some a

module _ {A : Type 0} ⦃e : Enum A⦄ where
  infix 50 ◌=?◌
  -- `a == b`, `a is b`
  abbrev pub ◌=?◌ : A → A → Bool
  a =? b = e.index a == e.index b

  -- `a in xs`
  abbrev pub contains : List A → A → Bool
  contains [] a = false
  contains (x ∷ xs) a = a =? x || contains xs a

  -- `xs & ys`
  abbrev pub inter : List A → List A → List A
  inter xs ys = keep (contains ys) xs

  pub =?_refl : (a : A) → (a =? a) ≡ true
  =?_refl a = (==_iff _ _).1 refl

  pub =?→eq : (a b : A) → (a =? b) ≡ true → a ≡ b
  =?→eq a b h =
      let same : get_elem? e.values (e.index a) ≡ get_elem? e.values (e.index b) =
        ap (get_elem? e.values) ((==_iff _ _).0 h) in
      cc (e.index_values a, e.index_values b, same)

  pub contains-append :
      (xs ys : List A) (a : A) → contains (xs ++ ys) a ≡ (contains xs a || contains ys a)
  contains-append [] ys a = refl
  contains-append (x ∷ xs) ys a = ground (arith, contains-append xs ys a)

  pub contains-keep :
      (p : A → Bool) (xs : List A) (a : A) → contains (keep p xs) a ≡ (contains xs a && p a)
  contains-keep p [] a = refl
  contains-keep p (x ∷ xs) a = elim (Bool-cases (a =? x)) [
    | inl same ↦
        let eq : a ≡ x = =?→eq a x same in rw eq (ground (arith, contains-keep p xs x, =?_refl x))
    | inr other ↦ ground (arith, contains-keep p xs a)
  ]

  pub contains-inter :
      (xs ys : List A) (a : A) → contains (inter xs ys) a ≡ (contains xs a && contains ys a)
  contains-inter xs ys a = contains-keep (contains ys) xs a

-- `if a then b`, as a test.
abbrev pub implies : Bool → Bool → Bool
implies true b = b
implies false b = true

pub implies_mp : (a b : Bool) → implies a b ≡ true → a ≡ true → b ≡ true
implies_mp a b h k = ground arith

all-get_elem? {ℓ} :
    {A : Type ℓ} (p : A → Bool) (xs : List A) (i : ℕ) (a : A)
    → all p xs ≡ true
    → get_elem? xs i ≡ some a
    → p a ≡ true
all-get_elem? p [] i a h k = cc
all-get_elem? p (x ∷ xs) zero a h k =
    let same : x ≡ a = cc in rw (← same) (and_true (p x) (all p xs) h).0
all-get_elem? p (x ∷ xs) (suc i) a h k = all-get_elem? p xs i a (and_true (p x) (all p xs) h).1 k

-- What holds of every listed member holds of every member: a finite claim is checked by
-- evaluation.
pub all-values :
    {A : Type 0} ⦃e : Enum A⦄ (p : A → Bool) → all p e.values ≡ true → (a : A) → p a ≡ true
all-values ⦃e⦄ p h a = all-get_elem? p e.values (e.index a) a h (e.index_values a)
