-- ===== src/Examples/Approvals.antt =====
-- A request to challenge an address, approved by one engineer for another, and its redemption.
use soomsuite_agent.Prelude.{◌≡◌, refl, true, false, none, some, List, [], ◌∷◌, ltb, str_take}
use soomsuite_agent.Errors.{err, is_ok, conflict}
use soomsuite_agent.Schemas.Approval.{pending, approved, executed, approval_status_enum}
use soomsuite_agent.Schemas.Defense.{preapproved_low_risk, action_value}
use soomsuite_agent.Security.Policy.{medium, high}
use soomsuite_agent.Store.{transaction}
use soomsuite_agent.Approvals.{Payload, ApprovalRequest, Db, Externals}
use soomsuite_agent.Approvals.Policies.{
  ApprovalPolicy, policy_for, policies, defense_name, defense_policy,
}
use soomsuite_agent.Approvals.Service.{find_row, get, create, preapprove, preapproval_checks}
use soomsuite_agent.Approvals.Decision.{
  decide, decide_checks, decide_flush, redeemed, redeem, consume,
}
use soomsuite_agent.Approvals.Trace.{
  Call, create_call, decide_call, consume_call, expire_call, perform, run, run_terminal,
}
use soomsuite_agent.Approvals.SingleUse.{attempt, consume_once}
use soomsuite_agent.Approvals.Soundness.{IsSound, run-IsSound}
use soomsuite_agent.Approvals.Expiry.{decide_rolled_back}
use soomsuite_agent.Approvals.Race.{begin, between, begin-twice}
use soomsuite_agent.Approvals.Steps.Preapproving.{IsPreapprovable, preapprove-IsPreapprovable}

abbrev pub externals : Externals
externals = record {
  payload_hash = λ p. p.target;
  sign = λ m. m.payload_hash;
  below_0_9 = λ c. ltb c 9;
  num_addresses = λ t. some 1;
}

abbrev pub payload : Payload
payload = record {
  tenant_id = some 1;
  action_type = some "scan.execute";
  ttl_seconds = 600;
  target = "198.51.100.7";
  confidence = 9;
  rest = "";
}

abbrev empty_db : Db
empty_db = record { requests = []; tenants = [] }

abbrev pub waiting_request : ApprovalRequest
waiting_request = record {
  id = 7;
  tenant_id = 1;
  action_type = "scan.execute";
  action_payload = payload;
  payload_hash = "198.51.100.7";
  target_type = none;
  target_id = none;
  requested_by = "ada";
  requested_by_type = "user";
  requested_via = "scanner-controller";
  requested_at = 100;
  reason = "assessment";
  risk_level = medium;
  expires_at = 200;
  status = pending;
  approved_by = none;
  approved_at = none;
  decision_comment = none;
  approval_signature = none;
  consumed_at = none;
  consumed_by = none;
}

abbrev approved_request : ApprovalRequest
approved_request = record waiting_request {
  status = approved;
  approved_by = some "bob";
  approved_at = some 110;
}

abbrev pub waiting_db : Db
waiting_db = record { requests = waiting_request ∷ []; tenants = [] }

abbrev approved_db : Db
approved_db = record { requests = approved_request ∷ []; tenants = [] }

consume_once_example :
    is_ok
      (attempt externals 1 130 7 "scan.execute" payload "scanner-controller" (
        run externals
          (expire_call 125 ∷ [])
          (attempt externals 1 120 7 "scan.execute" payload "scanner-controller" approved_db).1)).0
    ≡ false
unfolding transaction consume redeem get
consume_once_example =
    consume_once externals 1 120 7 "scan.execute" payload "scanner-controller" approved_db
      (redeemed 120 "scanner-controller" approved_request) (expire_call 125 ∷ []) 130 "scan.execute"
      payload "scanner-controller" refl

abbrev life : List Call
life =
    create_call 1 7 100 "scan.execute" payload "assessment" none none "ada" "user"
      "scanner-controller"
    ∷ decide_call 1 110 7 true "bob" "198.51.100.7" none
    ∷ consume_call 1 120 7 "scan.execute" payload "scanner-controller"
    ∷ []

abbrev last_request : ApprovalRequest
last_request = record approved_request {
  reason = "assessment";
  risk_level = high;
  expires_at = 86500;
  status = executed;
  approval_signature = some "198.51.100.7";
  consumed_at = some 120;
  consumed_by = some "scanner-controller";
}

run-IsSound_example : IsSound externals last_request
unfolding run perform transaction create decide decide_checks decide_flush consume redeem get
    policy_for policies str_take
run-IsSound_example = run-IsSound externals life empty_db 1 7 last_request refl refl

run_terminal_example :
    find_row 1 7 (run externals life (record { requests = last_request ∷ []; tenants = [] }))
    ≡ some last_request
run_terminal_example =
    run_terminal externals life (record { requests = last_request ∷ []; tenants = [] }) 1 7
      last_request refl refl

decide_rolled_back_example :
    transaction (decide externals 1 250 7 true "bob" "198.51.100.7" none) waiting_db
    ≡ (err (conflict "approval request has expired"), waiting_db)
decide_rolled_back_example =
    decide_rolled_back externals 1 250 7 true "bob" "198.51.100.7" none waiting_db waiting_request
      refl refl refl

abbrev low_risk_payload : Payload
low_risk_payload = record payload { action_type = some "defense.challenge_ip" }

abbrev opted_in : Db
opted_in = record {
  requests = [];
  tenants =
      record {
        tenant_id = 1;
        fatma_mode = some preapproved_low_risk;
        preapproved_actions = "defense.challenge_ip" ∷ [];
      }
      ∷ [];
}

preapprove-IsPreapprovable_example :
    (pol : ApprovalPolicy) × (policy_for "defense.challenge_ip" ≡ some pol)
    × IsPreapprovable externals 1 pol "defense.challenge_ip" low_risk_payload opted_in
unfolding preapprove preapproval_checks create policy_for policies defense_name defense_policy
    action_value
preapprove-IsPreapprovable_example =
    preapprove-IsPreapprovable externals 1 8 100 "defense.challenge_ip" low_risk_payload
      "scanner seen" none none "agent:FATMA" opted_in refl

-- Bob and Eve have both opened the request before either decides.
begin-twice_example :
    (is_ok
        (attempt externals 1 120 7 "scan.execute" payload "scanner"
          (decide_flush externals 1 true 120 7 "bob" none waiting_db).1).0
      ≡ true)
    × (is_ok
          (attempt externals 1 120 7 "scan.execute" payload "scanner"
            (between externals 1 120 7 "scan.execute" payload "scanner" "bob" "eve" waiting_db)).0
        ≡ true)
unfolding begin get decide_checks
begin-twice_example =
    begin-twice externals 1 120 7 "bob" "eve" "198.51.100.7" "198.51.100.7" "scan.execute" payload
      "scanner" "scanner" waiting_db waiting_request refl refl refl refl refl
