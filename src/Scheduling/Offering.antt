-- ===== src/Scheduling/Offering.antt =====
-- What services/scheduling offers: free slots, under tokens that its bookings accept.
use soomsuite_agent.Prelude.{
  ℕ, ◌+◌, ◌≤◌, ◌≡◌, refl, sym, String, false, Option, none, some, List, map, length, All, ltb,
  ==_refl, inl, inr, Bool-cases, arith, ◌++◌,
}
use soomsuite_agent.Errors.{ok, Result-cases}
use soomsuite_agent.Security.Crypto.{rsplit, verify_token-sign_token}
use soomsuite_agent.Scheduling.Slots.{Range, BookingRules, Clock, minutes, search}
use soomsuite_agent.Scheduling.Spread.{spread, spread-All}
use soomsuite_agent.Scheduling.Offers.{IsOffer, candidate_slots-IsOffer}
use soomsuite_agent.Scheduling.Service.{
  AppointmentType, SchedulingDb, SlotClaims, Provider, SchedulingExternals, db_busy,
}
use soomsuite_agent.Scheduling.Providers.{
  is_foreign, verify_claims, provider_for, provider_busy, verify_slot,
}
use soomsuite_agent.Scheduling.Availability.{
  AvailabilityRequest, SlotOffer, type_of, offer_claims, offer, offers, horizon, slots_for,
  availability,
}

is_foreign_self : (conversation : Option ℕ) → is_foreign conversation conversation ≡ false
is_foreign_self none = refl
is_foreign_self (some cv) = rw (==_refl cv) refl

module _ (ext : SchedulingExternals) where
  verify_claims-own :
      (c : SlotClaims) (now : ℕ)
      → now ≤ c.exp
      → verify_claims ext c.tenant c.conversation now (some c) ≡ ok c
  verify_claims-own c now fresh =
      let current : ltb c.exp now ≡ false = ground arith in
      rw (==_refl c.tenant, current, is_foreign_self c.conversation) refl

  -- The token of an offer is accepted, as the offer that was made, for the same tenant and
  -- conversation until it expires, where JSON gives its claims back and base64 any text, and a
  -- signature has no dot.
  pub verify_slot-offer :
      (tenant exp now : ℕ) (t : AppointmentType) (req : AvailabilityRequest) (r : Range)
      → ext.codec.json_loads (ext.codec.canonical_json (offer_claims ext tenant exp t req r))
        ≡ some (offer_claims ext tenant exp t req r)
      → ((text : String) → ext.codec.b64d (ext.codec.b64e text) ≡ some text)
      → ((message : String) → rsplit (ext.codec.hmac_hex ext.slot_key message) ≡ none)
      → now ≤ exp
      → verify_slot ext (offer ext tenant exp t req r).slot_token tenant req.conversation_id now
        ≡ ok (offer_claims ext tenant exp t req r)
  unfolding verify_slot offer
  verify_slot-offer tenant exp now t req r loads decodes plain fresh =
      let c = offer_claims ext tenant exp t req r in
      rw (verify_token-sign_token ext.codec ext.slot_key c loads decodes plain)
        (verify_claims-own c now fresh)

  module _ (clock : Clock) (rules_of : AppointmentType → BookingRules) (offer_ttl : ℕ) where
    -- The answer consists of offers of chosen slots, each of them free by the type's rules.
    abbrev pub IsOffered :
        (tenant now : ℕ) → AvailabilityRequest → SchedulingDb → List SlotOffer → Type 0
    IsOffered tenant now req db out =
        (t : AppointmentType) × (p : Provider) × (busy : List Range) × (slots : List Range)
        × (type_of ext req.appointment_type db ≡ ok t)
        × (provider_for ext t db ≡ ok p)
        × (provider_busy ext p t.calendar_id now (horizon ext clock rules_of offer_ttl now t req)
            ≡ ok busy)
        × (out ≡ map (offer ext tenant (now + offer_ttl) t req) slots)
        × (length slots ≤ req.max_slots)
        × All
            (IsOffer clock (rules_of t) (
              search (rules_of t) (minutes t.duration_minutes) (minutes t.buffer_minutes) now
                req.earliest req.days
                (busy
                  ++ db_busy t.calendar_id now (horizon ext clock rules_of offer_ttl now t req) none
                      db)))
            slots

    -- The availability of an appointment type, where at least one slot is asked for, consists of
    -- at most as many offers as that, and each is for a free slot: one within working hours, in
    -- time, and clear, by the buffer, of all that the provider configured for the type and the
    -- table answer for the time from now to the horizon.
    pub availability-IsOffered :
        (tenant now : ℕ) (req : AvailabilityRequest) (db : SchedulingDb) (out : List SlotOffer)
        → 1 ≤ req.max_slots
        → availability ext clock rules_of offer_ttl tenant now req db ≡ ok (some out)
        → IsOffered tenant now req db out
    unfolding availability offers slots_for
    availability-IsOffered tenant now req db out positive h =
        elim (Bool-cases (clock.has_zone req.timezone)) [
          | inr unknown ↦ let clash = rw unknown at h in absurd (cc)
          | inl known ↦ elim (Result-cases (type_of ext req.appointment_type db)) [
            | inr (e, failed) ↦ let clash = rw (known, failed) at h in absurd (cc)
            | inl (t, typed) ↦ elim (Result-cases (provider_for ext t db)) [
              | inr (e, failed) ↦ let clash = rw (known, typed, failed) at h in absurd (cc)
              | inl (p, provided) ↦
                  let until = horizon ext clock rules_of offer_ttl now t req in
                  elim (Result-cases (provider_busy ext p t.calendar_id now until)) [
                    | inr (e, failed) ↦
                        let clash = rw (known, typed, provided, failed) at h in absurd (cc)
                    | inl (busy, seen) ↦
                        let taken = busy ++ db_busy t.calendar_id now until none db in
                        let run = rw (known, typed, provided, seen) at h in
                        elim (Result-cases
                          (slots_for ext clock rules_of offer_ttl now t req taken)) [
                            | inr (e, failed) ↦ let clash = rw failed at run in absurd (cc)
                            | inl (none, got) ↦ let clash = rw got at run in absurd (cc)
                            | inl (some slots, got) ↦
                                let e = rw got at run in
                                let chosen = spread slots req.max_slots in
                                let same : map (offer ext tenant (now + offer_ttl) t req) chosen
                                    ≡ out =
                                  cc in
                                let free =
                                  candidate_slots-IsOffer clock (rules_of t)
                                    (minutes t.duration_minutes) (minutes t.buffer_minutes) now
                                    req.earliest req.days taken slots got in
                                let (few, kept) =
                                  spread-All
                                    (IsOffer clock (rules_of t) (
                                      search (rules_of t) (minutes t.duration_minutes)
                                        (minutes t.buffer_minutes) now req.earliest req.days taken))
                                    slots req.max_slots positive free in
                                (t, p, busy, chosen, typed, provided, seen, sym same, few, kept)
                          ]
                  ]
            ]
          ]
        ]
