-- ===== src/Security/Tools/Registry.antt =====
-- What validation establishes of a registry, and what an allowed tool call implies.
use soomsuite_agent.Prelude.{
  ◌≡◌, refl, sym, ap, ◌⊎◌, inl, inr, String, Bool, true, false, Option, none, some, List, [], ◌∷◌,
  arith, str_eq, str_eq_iff, Bool-cases, Option-cases, any, find, is_empty, inter, ◌=?◌, =?→eq, not,
  ◌||◌, or_false, not-false, ◌&&◌,
}
use soomsuite_agent.Security.Principal.{AgentName, samiir, fatma, is_customer}
use soomsuite_agent.Security.Rbac.{p_enum}
use soomsuite_agent.Security.Acl.{Service, agent_for_service}
use soomsuite_agent.Security.ServiceAuth.{RequestContext}
use soomsuite_agent.Security.Policy.{effective_permissions}
use soomsuite_agent.Security.Tools.{
  ToolRule, agent_enum, tool_registry, has_forbidden_prefix, validate_tools, validate_registry,
  is_bound, authorize_rule, authorize_tool,
}

abbrev named : String → List ToolRule → Option ToolRule
named t rs = find (λ r. str_eq r.name t) rs

abbrev seen_in : String → List String → Bool
seen_in t = any (str_eq t)

-- One round of the loop that accepts.
validate_tools-cons :
    (agent : AgentName) (r : ToolRule) (rs : List ToolRule) (seen out : List String)
    → validate_tools agent (r ∷ rs) seen ≡ some out
    → (r.agent ≡ agent)
      × (seen_in r.name seen ≡ false)
      × (has_forbidden_prefix r.name ≡ false)
      × (validate_tools agent rs (r.name ∷ seen) ≡ some out)
unfolding validate_tools
validate_tools-cons agent r rs seen out h =
    let other = not (r.agent =? agent) in
    let bad = other || seen_in r.name seen || has_forbidden_prefix r.name in
    elim (Bool-cases bad) [
      | inl b ↦ let clash : none ≡ some out = rw b at h in cc
      | inr g ↦
          let (ab, c) = or_false (other || seen_in r.name seen) (has_forbidden_prefix r.name) g in
          let (a, b) = or_false other (seen_in r.name seen) ab in
          (=?→eq r.agent agent (not-false _ a), b, c, rw g at h)
    ]

seen-validate_tools :
    (agent : AgentName) (rs : List ToolRule) (seen out : List String) (t : String)
    → validate_tools agent rs seen ≡ some out
    → seen_in t seen ≡ true
    → seen_in t out ≡ true
unfolding validate_tools
seen-validate_tools agent [] seen out t h s = let same : seen ≡ out = cc in rw (← same) s
seen-validate_tools agent (r ∷ rs) seen out t h s =
    seen-validate_tools agent rs (r.name ∷ seen) out t (validate_tools-cons agent r rs seen out h).3
      (ground arith)

-- A registered tool has the agent of its registry, was not seen before, and is no forbidden
-- capability.
find-validate_tools :
    (agent : AgentName) (rs : List ToolRule) (seen out : List String) (t : String) (r : ToolRule)
    → validate_tools agent rs seen ≡ some out
    → named t rs ≡ some r
    → (r.agent ≡ agent)
      × (seen_in t seen ≡ false)
      × (has_forbidden_prefix t ≡ false)
      × (seen_in t out ≡ true)
find-validate_tools agent [] seen out t r h f = cc
find-validate_tools agent (x ∷ rs) seen out t r h f =
    let (own, fresh, allowed, rest) = validate_tools-cons agent x rs seen out h in
    elim (Bool-cases (str_eq x.name t)) [
      | inl hit ↦
          let name : x.name ≡ t = (str_eq_iff _ _).0 hit in
          let same : x ≡ r = cc in
          (
            rw (← same) own,
            rw name at fresh,
            rw name at allowed,
            seen-validate_tools agent rs (x.name ∷ seen) out t rest
                (rw ((str_eq_iff t x.name).1 (sym name))),
          )
      | inr miss ↦
          let (a, b, c, d) =
            find-validate_tools agent rs (x.name ∷ seen) out t r rest (rw miss at f) in
          (a, (or_false _ _ b).1, c, d)
    ]

abbrev names_of : List ToolRule → List String → List String
names_of [] seen = seen
names_of (r ∷ rs) seen = names_of rs (r.name ∷ seen)

samiir_valid :
    validate_tools samiir (tool_registry samiir) [] ≡ some (names_of (tool_registry samiir) [])
unfolding validate_registry
samiir_valid = refl

fatma_valid :
    validate_tools fatma (tool_registry fatma) (names_of (tool_registry samiir) [])
    ≡ some (names_of (tool_registry fatma) (names_of (tool_registry samiir) []))
unfolding validate_registry
fatma_valid = refl

-- What an allowed tool call implies.
pub record IsAuthorized (ctx : RequestContext) (service : Service) (agent : AgentName) (t : String)
    : Type 0 where
  pub bound : agent_for_service service ≡ some agent
  pub tool : ToolRule
  pub registered : find (λ r. str_eq r.name t) (tool_registry agent) ≡ some tool
  pub own_agent : tool.agent ≡ agent
  pub not_forbidden : has_forbidden_prefix t ≡ false
  pub held : is_empty (inter tool.any_of (effective_permissions ctx)) ≡ false
  pub no_customer : (agent ≡ samiir) ⊎ (is_customer ctx.principal ≡ false)
  pub approval : (authorize_tool ctx service agent t).requires_approval ≡ tool.requires_approval
  pub level : (authorize_tool ctx service agent t).risk ≡ tool.risk

registered_facts :
    (agent : AgentName) (t : String) (r : ToolRule)
    → named t (tool_registry agent) ≡ some r
    → (r.agent ≡ agent) × (has_forbidden_prefix t ≡ false)
registered_facts samiir t r h =
    let (a, _, c, _) = find-validate_tools samiir (tool_registry samiir) [] _ t r samiir_valid h in
    (a, c)
registered_facts fatma t r h =
    let (a, _, c, _) = find-validate_tools fatma (tool_registry fatma) _ _ t r fatma_valid h in
    (a, c)

is_bound_sound :
    (o : Option AgentName) (agent : AgentName) → is_bound o agent ≡ true → o ≡ some agent
is_bound_sound none agent h = cc
is_bound_sound (some b) agent h = ap some (=?→eq b agent h)

customer_free :
    (agent : AgentName) (c : Bool)
    → ((agent =? fatma) && c) ≡ false
    → (agent ≡ samiir) ⊎ (c ≡ false)
customer_free samiir c h = inl refl
customer_free fatma c h = inr h

abbrev bound_test : Service → AgentName → Bool
bound_test service agent = is_bound (agent_for_service service) agent

module _ (ctx : RequestContext) (service : Service) (agent : AgentName) (t : String) where
  authorize_tool_unbound :
      bound_test service agent ≡ false → (authorize_tool ctx service agent t).allowed ≡ true → ⊥
  unfolding authorize_tool
  authorize_tool_unbound unbound h = ground arith

  authorize_tool_unregistered :
      named t (tool_registry agent) ≡ none → (authorize_tool ctx service agent t).allowed ≡ true → ⊥
  unfolding authorize_tool
  authorize_tool_unregistered missing h = elim (Bool-cases (bound_test service agent)) [
    | inl bound ↦ let clash : false ≡ true = rw (bound, missing) at h in cc
    | inr unbound ↦ authorize_tool_unbound unbound h
  ]

  authorize_tool_registered :
      (r : ToolRule)
      → bound_test service agent ≡ true
      → named t (tool_registry agent) ≡ some r
      → (authorize_tool ctx service agent t).allowed ≡ true
      → (is_empty (inter r.any_of (effective_permissions ctx)) ≡ false)
        × (((agent =? fatma) && is_customer ctx.principal) ≡ false)
        × ((authorize_tool ctx service agent t).requires_approval ≡ r.requires_approval)
        × ((authorize_tool ctx service agent t).risk ≡ r.risk)
  unfolding authorize_tool
  authorize_tool_registered r bound found h =
      let eq : authorize_tool ctx service agent t ≡ authorize_rule ctx agent (some r) =
        rw (bound, found) in
      let h' : (authorize_rule ctx agent (some r)).allowed ≡ true = rw eq at h in
      let none_held = is_empty (inter r.any_of (effective_permissions ctx)) in
      let customer = (agent =? fatma) && is_customer ctx.principal in
      rw eq (elim (Bool-cases customer) [
        | inl c ↦ let clash : false ≡ true = rw c at h' in absurd (cc)
        | inr n ↦ elim (Bool-cases none_held) [
          | inl e ↦ let clash : false ≡ true = rw (n, e) at h' in absurd (cc)
          | inr f ↦ (f, n, rw (n, f), rw (n, f))
        ]
      ])

-- A tool call is allowed only if the executing service is bound to the agent, the tool is in that
-- agent's registry and begins with no forbidden prefix, the principal is no customer where the
-- agent is FATMA, and the effective permissions hold one of the tool's; the decision carries the
-- tool's risk and need of approval.
pub authorize_tool-IsAuthorized :
    (ctx : RequestContext) (service : Service) (agent : AgentName) (t : String)
    → (authorize_tool ctx service agent t).allowed ≡ true
    → IsAuthorized ctx service agent t
authorize_tool-IsAuthorized ctx service agent t h = elim (Bool-cases (bound_test service agent)) [
  | inl bound ↦ elim (Option-cases (named t (tool_registry agent))) [
    | inl none_found ↦ absurd (authorize_tool_unregistered ctx service agent t none_found h)
    | inr (r, found) ↦
        let (held, plain, approval, level) =
          authorize_tool_registered ctx service agent t r bound found h in
        let (own, free) = registered_facts agent t r found in
        record {
          bound = is_bound_sound (agent_for_service service) agent bound;
          tool = r;
          registered = found;
          own_agent = own;
          not_forbidden = free;
          held = held;
          no_customer = customer_free agent (is_customer ctx.principal) plain;
          approval = approval;
          level = level;
        }
  ]
  | inr unbound ↦ absurd (authorize_tool_unbound ctx service agent t unbound h)
]

-- No tool name is allowed for both agents, whoever calls and wherever it runs.
pub authorize_tool_disjoint :
    (ctx ctx' : RequestContext) (service service' : Service) (t : String)
    → (authorize_tool ctx service samiir t).allowed ≡ true
    → (authorize_tool ctx' service' fatma t).allowed ≡ true
    → ⊥
authorize_tool_disjoint ctx ctx' service service' t hs hf =
    let s = authorize_tool-IsAuthorized ctx service samiir t hs in
    let f = authorize_tool-IsAuthorized ctx' service' fatma t hf in
    let (_, _, _, seen) =
      find-validate_tools samiir (tool_registry samiir) [] _ t s.tool samiir_valid s.registered in
    let (_, fresh, _, _) =
      find-validate_tools fatma (tool_registry fatma) _ _ t f.tool fatma_valid f.registered in
    cc
