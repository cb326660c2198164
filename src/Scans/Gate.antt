-- ===== src/Scans/Gate.antt =====
-- services/scanner-controller/src/scanner_controller/service.py: the conditions of a scan.
use soomsuite_agent.Prelude.{
  ℕ, ◌≡◌, ◌↔◌, refl, ◌<◌, String, Bool, true, false, not, ◌&&◌, Option, none, some, ltb, arith,
  and_true, str_eq, is_some, any, ◌=?◌, =?→eq, or_empty, non_empty,
}
use soomsuite_agent.Errors.{Result, raise_if, forbidden}
use soomsuite_agent.Schemas.Scan.{verified, verification_enum, scan_profiles}
use soomsuite_agent.Security.Rbac.{scan_request}
use soomsuite_agent.Security.ServiceAuth.{RequestContext}
use soomsuite_agent.Security.Policy.{is_user, check}
use soomsuite_agent.Scans.{Asset, ScanExternals}

-- `GateResult.checks`. Condition 6 is the approval, which the start of a scan consumes.
pub record GateResult : Type 0 where
  pub authenticated_security_engineer : Bool
  pub customer_authorization : Bool
  pub domain_ownership_verified : Bool
  pub target_allowlisted : Bool
  pub authorization_ticket : Bool
  pub scan_profile_selected : Bool

-- `t is not None and t > now`
abbrev pub is_after : ℕ → Option ℕ → Bool
is_after now none = false
is_after now (some t) = ltb now t

unfoldable pub passed : GateResult → Bool
passed g =
    g.authenticated_security_engineer && g.customer_authorization && g.domain_ownership_verified
    && g.target_allowlisted && g.authorization_ticket && g.scan_profile_selected

unfoldable pub raise_if_failed : GateResult → Result (Unit {0})
raise_if_failed g = raise_if (not (passed g)) (forbidden "scan authorization requirements not met")

unfoldable pub evaluate_gate :
    ScanExternals → RequestContext → Asset → String → String → ℕ → GateResult
evaluate_gate ext ctx asset ticket profile now = record {
  authenticated_security_engineer =
      is_user ctx.principal.actor_type && (check ctx scan_request none none).allowed;
  customer_authorization =
      non_empty (or_empty asset.customer_authorization_ref)
      && is_after now asset.customer_authorization_expires_at;
  domain_ownership_verified =
      (asset.verification_status =? verified) && is_after now asset.verified_until;
  target_allowlisted = asset.allowlisted && not (is_some asset.deleted_at);
  authorization_ticket = ext.ticket_matches ticket;
  scan_profile_selected = any (str_eq profile) scan_profiles;
}

-- What a scan of an asset needs, as the contract of the controller puts it.
pub record MayScan (ext : ScanExternals) (ctx : RequestContext) (asset : Asset)
    (ticket profile : String) (now : ℕ) : Type 0 where
  pub engineer : is_user ctx.principal.actor_type ≡ true
  pub permitted : (check ctx scan_request none none).allowed ≡ true
  pub authorized : non_empty (or_empty asset.customer_authorization_ref) ≡ true
  pub authorized_now : (t : ℕ) × (asset.customer_authorization_expires_at ≡ some t) × (now < t)
  pub owned : asset.verification_status ≡ verified
  pub owned_now : (t : ℕ) × (asset.verified_until ≡ some t) × (now < t)
  pub allowlisted : asset.allowlisted ≡ true
  pub kept : asset.deleted_at ≡ none
  pub ticketed : ext.ticket_matches ticket ≡ true
  pub profiled : any (str_eq profile) scan_profiles ≡ true

is_after-some :
    (now : ℕ) (t : Option ℕ) → is_after now t ≡ true → (n : ℕ) × (t ≡ some n) × (now < n)
is_after-some now none h = cc
is_after-some now (some t) h = (t, refl, ground arith)

is_after_of : (now : ℕ) (t : Option ℕ) → (n : ℕ) × (t ≡ some n) × (now < n) → is_after now t ≡ true
is_after_of now none (n, h, l) = absurd (cc)
is_after_of now (some t) (n, h, l) = ground arith

kept_none : (o : Option ℕ) → not (is_some o) ≡ true → o ≡ none
kept_none none h = refl
kept_none (some n) h = cc

-- The gate passes exactly when the scan may be made: a human with the permission, a current
-- authorization of the customer, a current proof of ownership, a target on the allowlist that is
-- not deleted, a ticket of the right form and a known profile.
pub evaluate_gate-MayScan :
    (ext : ScanExternals) (ctx : RequestContext) (asset : Asset) (ticket profile : String) (now : ℕ)
    → (passed (evaluate_gate ext ctx asset ticket profile now) ≡ true)
      ↔ MayScan ext ctx asset ticket profile now
unfolding passed evaluate_gate
evaluate_gate-MayScan ext ctx asset ticket profile now = (to, from)
  where
    to :
        passed (evaluate_gate ext ctx asset ticket profile now) ≡ true
        → MayScan ext ctx asset ticket profile now
    to h =
        let g = evaluate_gate ext ctx asset ticket profile now in
        let (r5, h6) = and_true _ g.scan_profile_selected h in
        let (r4, h5) = and_true _ g.authorization_ticket r5 in
        let (r3, h4) = and_true _ g.target_allowlisted r4 in
        let (r2, h3) = and_true _ g.domain_ownership_verified r3 in
        let (h1, h2) = and_true g.authenticated_security_engineer g.customer_authorization r2 in
        let (a1, a2) =
          and_true (is_user ctx.principal.actor_type) ((check ctx scan_request none none).allowed)
            h1 in
        let (b1, b2) = and_true (non_empty (or_empty asset.customer_authorization_ref)) _ h2 in
        let (c1, c2) = and_true (asset.verification_status =? verified) _ h3 in
        let (d1, d2) = and_true asset.allowlisted _ h4 in
        record {
          engineer = a1;
          permitted = a2;
          authorized = b1;
          authorized_now = is_after-some now asset.customer_authorization_expires_at b2;
          owned = =?→eq asset.verification_status verified c1;
          owned_now = is_after-some now asset.verified_until c2;
          allowlisted = d1;
          kept = kept_none asset.deleted_at d2;
          ticketed = h5;
          profiled = h6;
        }

    from :
        MayScan ext ctx asset ticket profile now
        → passed (evaluate_gate ext ctx asset ticket profile now) ≡ true
    from m =
        rw
          (
            m.engineer,
            m.permitted,
            m.authorized,
            is_after_of now asset.customer_authorization_expires_at m.authorized_now,
            m.owned,
            is_after_of now asset.verified_until m.owned_now,
            m.allowlisted,
            m.kept,
            m.ticketed,
            m.profiled,
          )
          refl
