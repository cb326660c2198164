-- ===== src/Security/Token.antt =====
-- packages/platform-core/src/platform_core/security/service_auth.py: the cache of used tokens and
-- the verification of a service token.
pub mod Replay
pub mod Verified
use soomsuite_agent.Prelude.{
  ℕ, ◌+◌, ◌-◌, max, String, Bool, true, false, not, ◌&&◌, ◌||◌, Option, none, some, List, [], ◌∷◌,
  ◌++◌, ltb, if◌then◌else◌, any, length, str_eq, str_take, ◌=?◌,
}
use soomsuite_agent.Errors.{PlatformError, Result, ok, err, unauthenticated, forbidden}
use soomsuite_agent.Security.Principal.{Principal}
use soomsuite_agent.Security.Acl.{Service, service_enum}
use soomsuite_agent.Security.ServiceAuth.{RequestContext, is_accepted}

-- An item of `InMemoryReplayCache`, in the order of insertion.
pub record Item : Type 0 where
  pub key : String
  pub expires : ℕ

abbrev pub has_key : String → Item → Bool
has_key key i = str_eq i.key key

-- The loop that pops the oldest items: those that have expired, and as many as the bound asks for.
unfoldable pub evict : (max_items now : ℕ) → List Item → List Item
evict max_items now [] = []
evict max_items now (i ∷ items) =
    let rest = evict max_items now items in
    if ltb now i.expires && ltb (length (i ∷ items)) max_items then i ∷ items else rest

unfoldable pub first_use :
    (max_items now : ℕ) (key : String) (ttl_seconds : ℕ) → List Item → Bool × List Item
first_use max_items now key ttl_seconds items =
    let kept = evict max_items now items in
    if any (has_key key) kept
    then (false, kept)
    else (true, kept ++ (record { key = key; expires = now + ttl_seconds } ∷ []))

-- The claims of a token that `jwt.decode` accepts; `sub` and the principal may be missing or
-- unreadable.
pub record Claims : Type 0 where
  pub iss : Service
  pub sub : Option Service
  pub exp : ℕ
  pub jti : String
  pub prn : Option Principal
  pub rid : String
  pub sip : Option String
  pub arn : Option ℕ

-- The unverified header: whether its algorithm is EdDSA, and its `kid`.
pub record Header : Type 0 where
  pub is_eddsa : Bool
  pub kid : Service

-- PyJWT, with `none` for a `PyJWTError`: the header, and the claims by the key of a caller, for an
-- audience, at a time. `trusts` is membership in the trust bundle.
pub record TokenExternals : Type 0 where
  pub header : String → Option Header
  pub decode : String → Service → Service → ℕ → Option Claims
  pub trusts : Service → Bool
  pub replay_key : Service → String → String
  pub max_items : ℕ

-- `claims.get("sub") != caller`
abbrev pub is_subject : Service → Option Service → Bool
is_subject caller none = false
is_subject caller (some s) = s =? caller

-- `max(1, int(claims["exp"]) - int(time.time()) + LEEWAY_SECONDS)`, with the leeway of 5 seconds.
abbrev pub replay_ttl : ℕ → Claims → ℕ
replay_ttl now c = max 1 (c.exp + 5 - now)

abbrev pub built : Service → Claims → Principal → RequestContext
built receiver c principal = record {
  caller = c.iss;
  receiver = receiver;
  principal = principal;
  request_id = str_take 128 c.rid;
  source_ip = c.sip;
  agent_run_id = c.arn;
}

abbrev pub context : Service → Claims → Option Principal → Result RequestContext
context receiver c none = err (unauthenticated "invalid principal claims")
context receiver c (some principal) = ok (built receiver c principal)

abbrev pub settle_replay : Service → Claims → Bool × List Item → Result RequestContext × List Item
settle_replay receiver c (true, items) = (context receiver c c.prn, items)
settle_replay receiver c (false, items) = (err (unauthenticated "service token replayed"), items)

module _ (ext : TokenExternals) (receiver : Service) (allowed : Option (List Service)) where
  -- `verify` once the claims are decoded.
  unfoldable pub verify_claims :
      ℕ → ℕ → Service → Claims → List Item → Result RequestContext × List Item
  unfolding first_use
  verify_claims now clock kid c items =
      if not (c.iss =? kid) || not (is_subject c.iss c.sub)
      then (err (unauthenticated "service token identity mismatch"), items)
      else if not (is_accepted receiver allowed c.iss)
      then (err (forbidden "caller not permitted"), items)
      else settle_replay receiver c
          (first_use ext.max_items clock (ext.replay_key c.iss c.jti) (replay_ttl now c) items)

  abbrev verify_decoded :
      ℕ → ℕ → Service → Option Claims → List Item → Result RequestContext × List Item
  verify_decoded now clock kid none items = (err (unauthenticated "invalid service token"), items)
  verify_decoded now clock kid (some c) items = verify_claims now clock kid c items

  abbrev verify_header :
      ℕ → ℕ → String → Option Header → List Item → Result RequestContext × List Item
  verify_header now clock token none items =
      (err (unauthenticated "malformed service token"), items)
  verify_header now clock token (some h) items =
      if not h.is_eddsa || not (ext.trusts h.kid)
      then (err (unauthenticated "untrusted service token"), items)
      else verify_decoded now clock h.kid (ext.decode token h.kid receiver now) items

  -- `verify`; `now` is the time of day, and `clock` the monotonic time that the cache reads.
  unfoldable pub verify : ℕ → ℕ → String → List Item → Result RequestContext × List Item
  unfolding verify_claims
  verify now clock token items = verify_header now clock token (ext.header token) items
