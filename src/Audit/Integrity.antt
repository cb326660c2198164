-- ===== src/Audit/Integrity.antt =====
-- The chain that `append` builds verifies, and a log that verifies cannot be changed unnoticed.
use Prim.Native.String.{slice}
use text.Mathlib.TextPositions.{slice-append_left}
use soomsuite_agent.Prelude.{
  ℕ, ◌+◌, ◌≡◌, ◌≢◌, refl, sym, ap, ◌∙◌, ◌⊎◌, inl, inr, String, true, false, List, [], ◌∷◌, arith,
  length, Bool-cases, str_eq, str_eq_iff, str_append, str_length, Bool,
}
use soomsuite_agent.Audit.{
  AuditLog, HashExternals, hashed_text, entry_hash, valid, broken, is_break, verify_from,
  verified_entry, verify_rows, genesis, hashed_texts,
}

append_prefix :
    (p p' c c' : String) → str_length p ≡ str_length p' → str_append p c ≡ str_append p' c' → p ≡ p'
append_prefix p p' c c' l e =
    sym (slice-append_left p c)
    ∙ ap (λ t. slice t 0 (str_length p)) e
    ∙ ap (λ n. slice (str_append p' c') 0 n) l
    ∙ slice-append_left p' c'

clash : (a b : String) → a ≡ b → str_eq a b ≡ false → ⊥
clash a b e h = let t : str_eq a b ≡ true = (str_eq_iff a b).1 e in cc

module _ (ext : HashExternals) where
  not_break :
      (p : String) (n : ℕ) (r : AuditLog)
      → is_break ext p n r ≡ false
      → (r.entry.seq ≡ n)
        × (r.prev_hash ≡ p)
        × (r.entry_hash ≡ entry_hash ext p (verified_entry ext r.entry))
  unfolding is_break
  not_break p n r h = (
    ground arith,
    (str_eq_iff r.prev_hash p).0 (ground arith),
    (str_eq_iff r.entry_hash (entry_hash ext p (verified_entry ext r.entry))).0 (ground arith),
  )

  verify_from-step :
      (k n : ℕ) (p h : String) (r : AuditLog) (rs : List AuditLog)
      → verify_from ext k p n (r ∷ rs) ≡ valid k h
      → (is_break ext p n r ≡ false) × (verify_from ext k r.entry_hash (n + 1) rs ≡ valid k h)
  unfolding verify_from
  verify_from-step k n p h r rs v = elim (Bool-cases (is_break ext p n r)) [
    | inl break ↦ let clash : broken r.entry.seq k ≡ valid k h = rw break at v in absurd (cc)
    | inr fits ↦ (fits, rw fits at v)
  ]

  -- Whether the database gives back, of a row, an entry with the hash that was stored.
  abbrev pub is_kept : AuditLog → Bool
  is_kept r = str_eq r.entry_hash (entry_hash ext r.prev_hash (verified_entry ext r.entry))

  -- At one place of two lists of texts, two different texts with the same hash.
  abbrev pub Collides : List String → List String → Type 0
  Collides [] texts' = ⊥
  Collides (one ∷ texts) [] = ⊥
  Collides (one ∷ texts) (two ∷ texts') =
      ((one ≢ two) × (ext.sha256_hex one ≡ ext.sha256_hex two)) ⊎ Collides texts texts'

  module _ (hex_length : (s : String) → str_length (ext.sha256_hex s) ≡ 64) where
    tamper_from :
        (k n : ℕ) (p p' h : String) (rs rs' : List AuditLog)
        → verify_from ext k p n rs ≡ valid k h
        → verify_from ext k p' n rs' ≡ valid k h
        → length rs ≡ length rs'
        → str_length p ≡ str_length p'
        → ((p ≡ p') × (hashed_texts ext rs ≡ hashed_texts ext rs'))
          ⊎ Collides (hashed_texts ext rs) (hashed_texts ext rs')
    unfolding verify_from entry_hash
    tamper_from k n p p' h [] [] v v' l w = inl (cc, refl)
    tamper_from k n p p' h [] (r' ∷ rs') v v' l w = absurd (omega (arith, l))
    tamper_from k n p p' h (r ∷ rs) [] v v' l w = absurd (omega (arith, l))
    tamper_from k n p p' h (r ∷ rs) (r' ∷ rs') v v' l w =
        let (fits, rest) = verify_from-step k n p h r rs v in
        let (fits', rest') = verify_from-step k n p' h r' rs' v' in
        let (_, prev, hash) = not_break p n r fits in
        let (_, prev', hash') = not_break p' n r' fits' in
        elim (tamper_from k (n + 1) r.entry_hash r'.entry_hash h rs rs' rest rest'
          (omega (arith, l))
          (rw
            (
              hash,
              hash',
              hex_length (hashed_text ext p (verified_entry ext r.entry)),
              hex_length (hashed_text ext p' (verified_entry ext r'.entry)),
            )
            refl)) [
              | inr collision ↦ inr (inr collision)
              | inl (same_hash, later) ↦
                  let one = hashed_text ext p (verified_entry ext r.entry) in
                  let two = hashed_text ext p' (verified_entry ext r'.entry) in
                  let images : ext.sha256_hex one ≡ ext.sha256_hex two =
                    sym hash ∙ same_hash ∙ hash' in
                  elim (Bool-cases (str_eq one two)) [
                    | inl equal ↦
                        let texts : one ≡ two = (str_eq_iff one two).0 equal in
                        let starts =
                          append_prefix p p' (ext.canonical_json (verified_entry ext r.entry))
                            (ext.canonical_json (verified_entry ext r'.entry)) w texts in
                        let here : hashed_text ext r.prev_hash (verified_entry ext r.entry)
                            ≡ hashed_text ext r'.prev_hash (verified_entry ext r'.entry) =
                          rw (prev, prev') texts in
                        inl (starts, rw (here, later) refl)
                    | inr other ↦
                        rw (prev, prev') (inr (inl ((λ e. clash one two e other), images)))
                  ]
            ]

    entries_valid :
        (k k' n : ℕ) (p h : String) (rs : List AuditLog)
        → verify_from ext k p n rs ≡ valid k' h
        → k ≡ k'
    unfolding verify_from
    entries_valid k k' n p h [] v = cc
    entries_valid k k' n p h (r ∷ rs) v = elim (Bool-cases (is_break ext p n r)) [
      | inl break ↦ let bad : broken r.entry.seq k ≡ valid k' h = rw break at v in absurd (cc)
      | inr fits ↦ entries_valid k k' (n + 1) r.entry_hash h rs (rw fits at v)
    ]

    -- Where SHA-256 answers texts of 64 digits: if two logs verify with the same number of entries
    -- and the same head, then their entries are the same, as the texts that are hashed for them, or
    -- at one place of the two logs these texts differ and have the same hash.
    pub tamper_evident :
        (rows rows' : List AuditLog) (k : ℕ) (head : String)
        → verify_rows ext rows ≡ valid k head
        → verify_rows ext rows' ≡ valid k head
        → (hashed_texts ext rows ≡ hashed_texts ext rows')
          ⊎ Collides (hashed_texts ext rows) (hashed_texts ext rows')
    unfolding verify_rows
    tamper_evident rows rows' k head v v' =
        let n = entries_valid (length rows) k 1 genesis head rows v in
        let n' = entries_valid (length rows') k 1 genesis head rows' v' in
        elim (tamper_from k 1 genesis genesis head rows rows' (rw n at v) (rw n' at v') (n ∙ sym n')
          refl) [ inl (_, same) ↦ inl same | inr collision ↦ inr collision ]
