-- ===== src/Crm/OnFile.antt =====
-- `CrmService.capture_contact` of services/crm/src/crm_service/service.py: what it leaves of every
-- contact on file.
use soomsuite_agent.Prelude.{
  ℕ, ◌≡◌, refl, sym, subst, ◌∙◌, inl, inr, String, Bool, true, false, not, ◌||◌, Option, none, some,
  List, [], ◌∷◌, ◌++◌, ◌==◌, ==_iff, Bool-cases, Option-cases, find, keep, All, ltb, if◌then◌else◌,
}
use soomsuite_agent.Errors.{Result}
use soomsuite_agent.Store.{update_first, find-append, find-save, find-save_other, find-update_first}
use soomsuite_agent.Crm.{Contact, CrmDb}
use soomsuite_agent.Crm.Pipeline.{is_contact, add_activity, touch_contact}
use soomsuite_agent.Crm.Capture.{
  CrmExternals, CaptureContactRequest, has_text, matches, oldest, updated, blank_contact, flushed,
  finish, capture_into, capture_for, capture_contact,
}
use soomsuite_agent.Crm.Keeping.{IsKept, IsKept-refl, IsKept-touched, updated-IsKept}

module _ (ext : CrmExternals) where
  -- The row of a contact, after the flush of the one that was captured into its row.
  flushed-IsKept :
      (cs : List Contact) (c new r : Contact) (i : ℕ)
      → find (is_contact c.id) cs ≡ some c
      → IsKept c new
      → find (is_contact i) cs ≡ some r
      → (d : Contact) × (find (is_contact i) (flushed ext false new cs) ≡ some d) × IsKept r d
  flushed-IsKept cs c new r i stored k found = elim (Bool-cases (c.id == i)) [
    | inl same ↦
        let eq : c.id ≡ i = (==_iff c.id i).0 same in
        let its : find (is_contact i) cs ≡ some c =
          subst (λ j. find (is_contact j) cs ≡ some c) eq stored in
        let one : some c ≡ some r = sym its ∙ found in
        let row : c ≡ r = cc in
        let key : new.id ≡ i = k.same_id ∙ eq in
        let here : is_contact i new ≡ true = (==_iff new.id i).1 key in
        (
          new,
          subst (λ j. find (is_contact i) (update_first (is_contact j) (λ _. new) cs) ≡ some new)
              (sym key) (find-save (is_contact i) cs c new here its),
          subst (λ (x : Contact). IsKept x new) row k,
        )
    | inr other ↦
        let not_it : is_contact i new ≡ false =
          subst (λ j. (j == i) ≡ false) (sym k.same_id) other in
        (
          r,
          find-save_other (is_contact i) (is_contact new.id) new cs not_it
                (λ x met. subst (λ j. (j == i) ≡ false) (sym ((==_iff x.id new.id).0 met)) not_it)
              ∙ found,
          IsKept-refl r,
        )
  ]

  touched-IsKept :
      (now : ℕ) (id : ℕ) (cs : List Contact) (r d : Contact) (i : ℕ)
      → find (is_contact i) cs ≡ some d
      → IsKept r d
      → (e : Contact) × (find (is_contact i) (touch_contact now (some id) cs) ≡ some e) × IsKept r e
  touched-IsKept now id cs r d i found k =
      elim (find-update_first (is_contact i) (is_contact id)
        (λ (c : Contact). record c { last_interaction_at = some now }) (λ c. refl) cs d found) [
          | inl same ↦ (d, same, k)
          | inr (_, changed) ↦ (
            record d { last_interaction_at = some now },
            changed,
            IsKept-touched r d (some now) k,
          )
        ]

  -- Identifiers are those of one row each: the primary key.
  abbrev pub IsKeyed : List Contact → Type 0
  IsKeyed cs = All (λ c. find (is_contact c.id) cs ≡ some c) cs

  module _ (P : Contact → Type 0) where
    All-keep : (test : Contact → Bool) (cs : List Contact) → All P cs → All P (keep test cs)
    All-keep test [] h = tt
    All-keep test (c ∷ cs) h = elim (Bool-cases (test c)) [
      | inl kept ↦ rw kept (h.0, All-keep test cs h.1)
      | inr dropped ↦ rw dropped (All-keep test cs h.1)
    ]

    All-oldest : (cs : List Contact) (c : Contact) → All P cs → oldest ext cs ≡ some c → P c
    unfolding oldest
    All-oldest [] c h found = cc
    All-oldest (x ∷ cs) c h found = elim (Option-cases (oldest ext cs)) [
      | inl alone ↦
          let e : some x ≡ some c = rw alone at found in let eq : x ≡ c = cc in subst P eq h.0
      | inr (d, first) ↦ elim (Bool-cases (ltb d.created_at x.created_at)) [
        | inl before ↦
            let e : some d ≡ some c = rw (first, before) at found in
            let eq : d ≡ c = cc in subst P eq (All-oldest cs d h.1 first)
        | inr after ↦
            let e : some x ≡ some c = rw (first, after) at found in
            let eq : x ≡ c = cc in subst P eq h.0
      ]
    ]

  -- What a call leaves of a contact that was on file.
  abbrev pub StaysKept : ℕ → Contact → List Contact → Type 0
  StaysKept i r cs = (d : Contact) × (find (is_contact i) cs ≡ some d) × IsKept r d

  capture_for-StaysKept :
      (uuids : ℕ × ℕ × ℕ) (now : ℕ) (req : CaptureContactRequest) (actor : String)
      (o : Option Contact) (db : CrmDb) (i : ℕ) (r : Contact)
      → IsKeyed db.contacts
      → oldest ext (keep (matches ext req) db.contacts) ≡ o
      → find (is_contact i) db.contacts ≡ some r
      → StaysKept i r (capture_for ext uuids now req actor o db).1.contacts
  unfolding capture_for capture_into finish add_activity
  capture_for-StaysKept (contact_id, company_id, opp_id) now req actor none db i r keyed from
        found =
      let blank = blank_contact ext contact_id now req in
      let new = (updated ext company_id now req true blank db.companies).0 in
      touched-IsKept now new.id (db.contacts ++ (new ∷ [])) r r i
        (find-append (is_contact i) db.contacts r new found) (IsKept-refl r)
  capture_for-StaysKept (contact_id, company_id, opp_id) now req actor (some c) db i r keyed from
        found =
      let new = (updated ext company_id now req false c db.companies).0 in
      let IsStored : Contact → Type 0 = λ x. find (is_contact x.id) db.contacts ≡ some x in
      let stored : find (is_contact c.id) db.contacts ≡ some c =
        All-oldest IsStored (keep (matches ext req) db.contacts) c
          (All-keep IsStored (matches ext req) db.contacts keyed) from in
      let (d, there, kept) =
        flushed-IsKept db.contacts c new r i stored
          (updated-IsKept ext company_id now req c db.companies) found in
      touched-IsKept now new.id (flushed ext false new db.contacts) r d i there kept

  guarded-StaysKept :
      (db : CrmDb) (i : ℕ) (r : Contact) (first second : Bool)
      (e e' done : Result (ℕ × ℕ × Bool) × CrmDb)
      → e.1 ≡ db
      → e'.1 ≡ db
      → StaysKept i r db.contacts
      → StaysKept i r done.1.contacts
      → StaysKept i r (if not first then e else if not second then e' else done).1.contacts
  guarded-StaysKept db i r false second e e' done same same' kept after =
      subst (λ (d : CrmDb). StaysKept i r d.contacts) (sym same) kept
  guarded-StaysKept db i r true false e e' done same same' kept after =
      subst (λ (d : CrmDb). StaysKept i r d.contacts) (sym same') kept
  guarded-StaysKept db i r true true e e' done same same' kept after = after

  -- Where identifiers are unique, whoever submits whatever details, every contact on file stays on
  -- file, and keeps every detail that it had, the company it belongs to and the consent it was
  -- recorded with.
  pub capture_contact-StaysKept :
      (uuids : ℕ × ℕ × ℕ) (now : ℕ) (req : CaptureContactRequest) (actor : String) (db : CrmDb)
      (i : ℕ) (r : Contact)
      → IsKeyed db.contacts
      → find (is_contact i) db.contacts ≡ some r
      → StaysKept i r (capture_contact ext uuids now req actor db).1.contacts
  unfolding capture_contact
  capture_contact-StaysKept uuids now req actor db i r keyed found =
      guarded-StaysKept db i r
        (has_text req.email || has_text req.phone || has_text req.whatsapp_ref_hash)
        req.contact_processing _ _
        (capture_for ext uuids now req actor (oldest ext (keep (matches ext req) db.contacts)) db)
        refl refl (r, found, IsKept-refl r)
        (capture_for-StaysKept uuids now req actor (oldest ext (keep (matches ext req) db.contacts))
          db i r keyed refl found)
