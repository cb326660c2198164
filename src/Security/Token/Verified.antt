-- ===== src/Security/Token/Verified.antt =====
-- What a token that was verified has established.
use soomsuite_agent.Prelude.{
  ℕ, ◌≡◌, refl, inl, inr, String, Bool, true, false, not, ◌||◌, Option, none, some, List, arith,
  Bool-cases, Option-cases, ◌=?◌, =?→eq, or_false, not-false, sym, ap,
}
use soomsuite_agent.Errors.{ok}
use soomsuite_agent.Security.Principal.{Principal}
use soomsuite_agent.Security.Acl.{Service, service_enum}
use soomsuite_agent.Security.ServiceAuth.{RequestContext, is_accepted}
use soomsuite_agent.Security.Token.{
  Item, Claims, TokenExternals, first_use, is_subject, replay_ttl, built, context, settle_replay,
  verify_claims, verify,
}

module _ (ext : TokenExternals) (receiver : Service) (allowed : Option (List Service)) where
  -- The token is signed by a trusted caller under its own key for this receiver, the caller is
  -- accepted there, the token is used for the first time, and the context is that of its claims.
  pub record IsVerified (now clock : ℕ) (token : String) (items : List Item) (ctx : RequestContext)
      : Type 0 where
    pub kid : Service
    pub trusted : ext.trusts kid ≡ true
    pub claims : Claims
    pub decoded : ext.decode token kid receiver now ≡ some claims
    pub own_key : claims.iss ≡ kid
    pub subject : is_subject claims.iss claims.sub ≡ true
    pub accepted : is_accepted receiver allowed claims.iss ≡ true
    pub fresh :
        (first_use ext.max_items clock
          (ext.replay_key claims.iss claims.jti)
          (replay_ttl now claims)
          items).0
        ≡ true
    pub principal : claims.prn ≡ some ctx.principal
    pub caller : ctx.caller ≡ claims.iss
    pub here : ctx.receiver ≡ receiver

  answered :
      (c : Claims) (o : Option Principal) (ctx : RequestContext)
      → context receiver c o ≡ ok ctx
      → (o ≡ some ctx.principal) × (ctx.caller ≡ c.iss) × (ctx.receiver ≡ receiver)
  answered c none ctx h = absurd (cc)
  answered c (some p) ctx h =
      let eq : built receiver c p ≡ ctx = cc in
      (
        ap (λ (x : RequestContext). some x.principal) eq,
        sym (ap (λ (x : RequestContext). x.caller) eq),
        sym (ap (λ (x : RequestContext). x.receiver) eq),
      )

  settled :
      (c : Claims) (fresh : Bool) (left : List Item) (ctx : RequestContext)
      → (settle_replay receiver c (fresh, left)).0 ≡ ok ctx
      → (fresh ≡ true)
        × (c.prn ≡ some ctx.principal)
        × (ctx.caller ≡ c.iss)
        × (ctx.receiver ≡ receiver)
  settled c true left ctx h =
      let (p, caller, here) = answered c c.prn ctx h in (refl, p, caller, here)
  settled c false left ctx h = absurd (cc)

  verify_claims-steps :
      (now clock : ℕ) (kid : Service) (c : Claims) (items : List Item) (ctx : RequestContext)
      → (verify_claims ext receiver allowed now clock kid c items).0 ≡ ok ctx
      → ((c.iss =? kid) ≡ true)
        × (is_subject c.iss c.sub ≡ true)
        × (is_accepted receiver allowed c.iss ≡ true)
        × ((first_use ext.max_items clock (ext.replay_key c.iss c.jti) (replay_ttl now c) items).0
            ≡ true)
        × (c.prn ≡ some ctx.principal)
        × (ctx.caller ≡ c.iss)
        × (ctx.receiver ≡ receiver)
  unfolding verify_claims
  verify_claims-steps now clock kid c items ctx h =
      let spent =
        first_use ext.max_items clock (ext.replay_key c.iss c.jti) (replay_ttl now c) items in
      elim (Bool-cases (not (c.iss =? kid) || not (is_subject c.iss c.sub))) [
        | inl mismatch ↦ absurd (ground arith)
        | inr same ↦ elim (Bool-cases (is_accepted receiver allowed c.iss)) [
          | inr unknown ↦ absurd (ground arith)
          | inl accepted ↦
              let rest : (settle_replay receiver c spent).0 ≡ ok ctx = rw (same, accepted) at h in
              let (own, subject) = or_false (not (c.iss =? kid)) _ same in
              let (fresh, principal, caller, here) = settled c spent.0 spent.1 ctx rest in
              (
                not-false (c.iss =? kid) own,
                not-false (is_subject c.iss c.sub) subject,
                accepted,
                fresh,
                principal,
                caller,
                here,
              )
        ]
      ]

  verify-steps :
      (now clock : ℕ) (token : String) (items : List Item) (ctx : RequestContext)
      → (verify ext receiver allowed now clock token items).0 ≡ ok ctx
      → (kid : Service) × (c : Claims) × (ext.trusts kid ≡ true)
        × (ext.decode token kid receiver now ≡ some c)
        × ((verify_claims ext receiver allowed now clock kid c items).0 ≡ ok ctx)
  unfolding verify
  verify-steps now clock token items ctx h = elim (Option-cases (ext.header token)) [
    | inl malformed ↦ absurd (ground arith)
    | inr (head, parsed) ↦ elim (Bool-cases (not head.is_eddsa || not (ext.trusts head.kid))) [
      | inl foreign ↦ absurd (ground arith)
      | inr known ↦ elim (Option-cases (ext.decode token head.kid receiver now)) [
        | inl invalid ↦ absurd (ground arith)
        | inr (c, decoded) ↦ (head.kid, c, ground arith, decoded, ground arith)
      ]
    ]
  ]

  -- A token is accepted only if it is decoded under the key of a trusted caller for this receiver and
  -- names that caller as issuer and subject, the route accepts the caller here, and the cache of used
  -- tokens, as it stands with its bound, takes the token's key as new; the context then has the caller
  -- and the principal of the claims.
  pub verify-IsVerified :
      (now clock : ℕ) (token : String) (items : List Item) (ctx : RequestContext)
      → (verify ext receiver allowed now clock token items).0 ≡ ok ctx
      → IsVerified now clock token items ctx
  verify-IsVerified now clock token items ctx h =
      let (kid, c, trusted, decoded, rest) = verify-steps now clock token items ctx h in
      let (own, subject, accepted, fresh, principal, caller, here) =
        verify_claims-steps now clock kid c items ctx rest in
      record {
        kid = kid;
        trusted = trusted;
        claims = c;
        decoded = decoded;
        own_key = =?→eq c.iss kid own;
        subject = subject;
        accepted = accepted;
        fresh = fresh;
        principal = principal;
        caller = caller;
        here = here;
      }
