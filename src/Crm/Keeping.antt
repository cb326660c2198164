-- ===== src/Crm/Keeping.antt =====
-- The details of a contact on file, when a customer shares details again.
use soomsuite_agent.Prelude.{
  ℕ, ◌≡◌, refl, subst, ◌⊎◌, inl, inr, String, Bool, false, not, ◌&&◌, Option, some, List,
  Bool-cases, is_some, if◌then◌else◌, arith,
}
use soomsuite_agent.Crm.{Contact, Company}
use soomsuite_agent.Crm.Capture.{
  CrmExternals, CaptureContactRequest, has_text, fill, filled, with_company, updated, noted,
}

-- A text that was there is still the same.
abbrev pub IsSame : Option String → Option String → Type 0
IsSame old new = (has_text old ≡ false) ⊎ (new ≡ old)

-- A later state of a contact: what was filled, and what the customer once agreed to, is unchanged.
pub record IsKept (c d : Contact) : Type 0 where
  pub same_id : d.id ≡ c.id
  pub name : IsSame c.full_name d.full_name
  pub email : IsSame c.email_ciphertext d.email_ciphertext
  pub email_index : (has_text c.email_ciphertext ≡ false) ⊎ (d.email_hash ≡ c.email_hash)
  pub phone : IsSame c.phone_ciphertext d.phone_ciphertext
  pub phone_index : (has_text c.phone_ciphertext ≡ false) ⊎ (d.phone_hash ≡ c.phone_hash)
  pub chat : IsSame c.whatsapp_hash d.whatsapp_hash
  pub channel : IsSame c.preferred_channel d.preferred_channel
  pub zone : IsSame c.timezone d.timezone
  pub company : (is_some c.company_id ≡ false) ⊎ (d.company_id ≡ c.company_id)
  pub agreed : d.consent ≡ c.consent
  pub deleted : d.deleted_at ≡ c.deleted_at

pub IsKept-refl : (c : Contact) → IsKept c c
IsKept-refl c = record {
  same_id = refl;
  name = inr refl;
  email = inr refl;
  email_index = inr refl;
  phone = inr refl;
  phone_index = inr refl;
  chat = inr refl;
  channel = inr refl;
  zone = inr refl;
  company = inr refl;
  agreed = refl;
  deleted = refl;
}

pub IsKept-touched :
    (c d : Contact) (t : Option ℕ) → IsKept c d → IsKept c (record d { last_interaction_at = t })
IsKept-touched c d t k = record {
  same_id = k.same_id;
  name = k.name;
  email = k.email;
  email_index = k.email_index;
  phone = k.phone;
  phone_index = k.phone_index;
  chat = k.chat;
  channel = k.channel;
  zone = k.zone;
  company = k.company;
  agreed = k.agreed;
  deleted = k.deleted;
}

joined-IsKept :
    (c d : Contact) (company : Option ℕ)
    → is_some c.company_id ≡ false
    → IsKept c d
    → IsKept c (record d { company_id = company })
joined-IsKept c d company lacks k = record {
  same_id = k.same_id;
  name = k.name;
  email = k.email;
  email_index = k.email_index;
  phone = k.phone;
  phone_index = k.phone_index;
  chat = k.chat;
  channel = k.channel;
  zone = k.zone;
  company = inl lacks;
  agreed = k.agreed;
  deleted = k.deleted;
}

fill-IsSame : (new value old : Option String) → IsSame old (fill new value old)
fill-IsSame new value old = elim (Bool-cases (has_text old)) [
  | inr empty ↦ inl empty
  | inl there ↦ inr (ground arith)
]

index_kept :
    (new : Bool) (old value hash : Option String)
    → (has_text old ≡ false) ⊎ ((if new && not (has_text old) then value else hash) ≡ hash)
index_kept new old value hash = elim (Bool-cases (has_text old)) [
  | inr empty ↦ inl empty
  | inl there ↦ inr (ground arith)
]

module _ (ext : CrmExternals) where
  with_company-IsKept :
      (uuid : ℕ) (req : CaptureContactRequest) (c d : Contact) (cs : List Company)
      → d.company_id ≡ c.company_id
      → IsKept c d
      → IsKept c (with_company ext uuid req d cs).0
  unfolding with_company
  with_company-IsKept uuid req c d cs same k =
      elim (Bool-cases (has_text req.company_name && not (is_some d.company_id))) [
        | inr stays ↦ rw stays k
        | inl joins ↦
            let had_none : is_some d.company_id ≡ false = ground arith in
            rw joins (joined-IsKept c d _ (subst (λ o. is_some o ≡ false) same had_none) k)
      ]

  pub updated-IsKept :
      (uuid now : ℕ) (req : CaptureContactRequest) (c : Contact) (cs : List Company)
      → IsKept c (updated ext uuid now req false c cs).0
  unfolding updated with_company filled
  updated-IsKept uuid now req c cs =
      let base : IsKept c (noted ext now req false (filled ext req c)) = record {
        same_id = refl;
        name = fill-IsSame req.full_name _ c.full_name;
        email = fill-IsSame req.email _ c.email_ciphertext;
        email_index = index_kept (has_text req.email) c.email_ciphertext _ c.email_hash;
        phone = fill-IsSame req.phone _ c.phone_ciphertext;
        phone_index = index_kept (has_text req.phone) c.phone_ciphertext _ c.phone_hash;
        chat = fill-IsSame req.whatsapp_ref_hash _ c.whatsapp_hash;
        channel = fill-IsSame req.preferred_channel _ c.preferred_channel;
        zone = fill-IsSame req.timezone _ c.timezone;
        company = inr refl;
        agreed = refl;
        deleted = refl;
      } in
      IsKept-touched c (with_company ext uuid req (noted ext now req false (filled ext req c)) cs).0
        (some now)
        (with_company-IsKept uuid req c (noted ext now req false (filled ext req c)) cs refl base)
