-- ===== src/Notifications/Consent.antt =====
-- Messages to customers: what `_send` has asked for.
use soomsuite_agent.Prelude.{
  ◌≡◌, refl, inl, inr, ◌⊎◌, String, str_eq, Bool, true, false, Option, none, some, Bool-cases,
  non_empty, or_empty, arith,
}
use soomsuite_agent.Notifications.{
  Notification, ContactDelivery, Attempt, worked, raised, NotificationExternals,
}
use soomsuite_agent.Notifications.Templates.{customer, MessageTemplate, template_named}
use soomsuite_agent.Notifications.Delivery.{
  accepted_as, send, by_email, by_whatsapp, by_channel, is_refused, is_granted,
}

module _ (ext : NotificationExternals) where
  -- The contact has an address for the channel, and has not refused e-mail, or has agreed to
  -- WhatsApp.
  abbrev pub IsReachable : Notification → ContactDelivery → Type 0
  IsReachable n c =
      ((str_eq n.channel "email" ≡ true)
        × (non_empty (or_empty c.email) ≡ true)
        × (is_refused ext c.email_consent ≡ false))
      ⊎ ((str_eq n.channel "whatsapp" ≡ true)
          × (non_empty (or_empty c.phone) ≡ true)
          × (c.whatsapp_consent ≡ some true))

  by_email-IsReachable :
      (c : ContactDelivery) (n : Notification) (ref : String)
      → by_email ext c n ≡ accepted_as ref
      → (non_empty (or_empty c.email) ≡ true) × (is_refused ext c.email_consent ≡ false)
  by_email-IsReachable c n ref h = ground arith

  by_whatsapp-IsReachable :
      (c : ContactDelivery) (n : Notification) (ref : String)
      → by_whatsapp ext c n ≡ accepted_as ref
      → (non_empty (or_empty c.phone) ≡ true) × (c.whatsapp_consent ≡ some true)
  by_whatsapp-IsReachable c n ref h = elim (Bool-cases (is_granted ext c.whatsapp_consent)) [
    | inr unasked ↦ let clash = rw unasked at h in absurd (cc)
    | inl agreed ↦ elim (Bool-cases (non_empty (or_empty c.phone))) [
      | inr absent ↦ let clash = rw (agreed, absent) at h in absurd (cc)
      | inl present ↦ (present, is_granted-some c.whatsapp_consent agreed)
    ]
  ]
    where
      is_granted-some : (o : Option Bool) → is_granted ext o ≡ true → o ≡ some true
      is_granted-some none e = absurd (cc)
      is_granted-some (some false) e = absurd (cc)
      is_granted-some (some true) e = refl

  by_channel-IsReachable :
      (c : ContactDelivery) (n : Notification) (ref : String)
      → by_channel ext c n ≡ accepted_as ref
      → IsReachable n c
  by_channel-IsReachable c n ref h = elim (Bool-cases (str_eq n.channel "email")) [
    | inl mail ↦
        let (known, open_to) = by_email-IsReachable c n ref (rw mail at h) in
        inl (mail, known, open_to)
    | inr other ↦ elim (Bool-cases (str_eq n.channel "whatsapp")) [
      | inl chat ↦
          let (known, agreed) = by_whatsapp-IsReachable c n ref (rw (other, chat) at h) in
          inr (chat, known, agreed)
      | inr unknown ↦ let clash = rw (other, unknown) at h in absurd (cc)
    ]
  ]

  -- A notification from a customer template is sent only after the CRM has answered for its
  -- contact, by e-mail to an address that has not refused it, or by WhatsApp to a number that has
  -- agreed to it.
  pub send-IsReachable :
      (n : Notification) (t : MessageTemplate) (ref : String)
      → template_named n.template ≡ some t
      → t.category ≡ customer
      → send ext n ≡ accepted_as ref
      → (c : ContactDelivery) × (ext.contact n ≡ worked c) × IsReachable n c
  unfolding send
  send-IsReachable n t ref named kind h = asked (ext.contact n) (ext.build_variables n) refl refl
    where
      asked :
          (a : Attempt ContactDelivery) (b : Attempt (Unit {0}))
          → ext.contact n ≡ a
          → ext.build_variables n ≡ b
          → (c : ContactDelivery) × (ext.contact n ≡ worked c) × IsReachable n c
      asked (raised e) b contact built = let clash = rw (named, kind, contact) at h in absurd (cc)
      asked (worked c) (raised e) contact built =
          let clash = rw (named, kind, contact, built) at h in absurd (cc)
      asked (worked c) (worked _) contact built =
          let done : by_channel ext c n ≡ accepted_as ref = rw (named, kind, contact, built) at h in
          (c, contact, by_channel-IsReachable c n ref done)
