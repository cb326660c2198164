-- ===== src/Examples/Token.antt =====
-- A token of the admin gateway at the approval service.
use soomsuite_agent.Prelude.{◌≡◌, refl, true, false, none, some, [], ◌∷◌, arith, str_take}
use soomsuite_agent.Security.Acl.{gateway_admin, approvals, accepted_callers}
use soomsuite_agent.Security.ServiceAuth.{is_accepted}
use soomsuite_agent.Security.Token.{TokenExternals, evict, first_use, verify_claims, verify}
use soomsuite_agent.Security.Token.Replay.{run, first_use_once}
use soomsuite_agent.Security.Token.Verified.{IsVerified, verify-IsVerified}
use soomsuite_agent.Examples.Authority.{bob, from}

abbrev externals : TokenExternals
externals = record {
  header = λ t. some (record { is_eddsa = true; kid = gateway_admin });
  decode = λ t kid receiver now. some (record {
    iss = gateway_admin;
    sub = some gateway_admin;
    exp = 60;
    jti = t;
    prn = some bob;
    rid = "r";
    sip = none;
    arn = none;
  });
  trusts = λ s. true;
  replay_key = λ s jti. jti;
  max_items = 100000;
}

first_use_once_example :
    (first_use 10 12 "t" 30
      (run 10 (record { at = 11; key = "u"; ttl = 5 } ∷ []) (first_use 10 10 "t" 30 []).1)).0
    ≡ false
unfolding first_use evict
first_use_once_example =
    first_use_once 10 10 30 12 30 "t" (record { at = 11; key = "u"; ttl = 5 } ∷ []) [] refl
      (omega arith, tt) (omega arith) (omega arith)

verify-IsVerified_example : IsVerified externals approvals none 10 10 "t" [] (from gateway_admin)
unfolding verify verify_claims first_use evict is_accepted accepted_callers str_take
verify-IsVerified_example =
    verify-IsVerified externals approvals none 10 10 "t" [] (from gateway_admin) refl
