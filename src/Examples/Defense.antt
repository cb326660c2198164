-- ===== src/Examples/Defense.antt =====
-- A recommendation that a tenant's pre-approval carries out, and one that a human approves.
use soomsuite_agent.Prelude.{true, false, none, some, List, [], ◌∷◌, All}
use soomsuite_agent.Errors.{ok}
use soomsuite_agent.Schemas.Defense.{challenge_ip, block_country, preapproved_low_risk}
use soomsuite_agent.Defense.{DefenseExternals, DefenseDb}
use soomsuite_agent.Defense.Service.{Recommendation}
use soomsuite_agent.Defense.Changes.{IsSafe}
use soomsuite_agent.Defense.Safety.{
  Call, recommend_call, request_call, execute_call, revert_call, preapprove_call, run, run-IsSafe,
}

abbrev externals : DefenseExternals
externals = record {
  network = λ t. ok (record {
    is_global = true;
    is_documentation = false;
    is_v4 = true;
    num_addresses = 1;
    text = t;
    network_address = t;
  });
  is_alpha = λ t. true;
  upper = λ t. t;
  round3 = λ x. x;
  sha256_json = λ p. p.target;
  apply = λ provider a. ok "rule-1";
  revert = λ provider a. ok tt;
  allow_documentation_ranges = false;
  default_provider = "cloudflare";
  request_approval = λ p reason. ok 7;
  preapprove = λ p reason. ok 8;
  consume = λ id p. ok tt;
}

abbrev low : Recommendation
low = record {
  incident_id = none;
  action_type = challenge_ip;
  target = "8.8.8.8";
  ttl_seconds = some 600;
  rationale = "credential stuffing";
  confidence = 9;
  created_by = "agent:FATMA";
}

abbrev risky : Recommendation
risky = record low { action_type = block_country; target = "XX"; ttl_seconds = none }

abbrev calls : List (Call externals 1)
calls =
    recommend_call 1 low
    ∷ preapprove_call 100 1
    ∷ recommend_call 2 risky
    ∷ request_call 2
    ∷ execute_call 200 2 "bob"
    ∷ revert_call 2 false
    ∷ []

abbrev empty_db : DefenseDb
empty_db = record { actions = []; fatma_mode = some preapproved_low_risk }

run-IsSafe_example : All (IsSafe externals 1) (run externals 1 calls empty_db).actions
run-IsSafe_example = run-IsSafe externals 1 calls empty_db tt
