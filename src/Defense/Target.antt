-- ===== src/Defense/Target.antt =====
-- services/fatma-soc/src/fatma_soc/defense.py: the payload of an action and the check of its target.
use soomsuite_agent.Prelude.{
  ℕ, String, not, ◌&&◌, ◌||◌, [], ◌∷◌, ltb, ◌==◌, if◌then◌else◌, str_eq, str_append, str_take,
  str_length, contains, ◌=?◌,
}
use soomsuite_agent.Errors.{Result, ok, err, validation_failed, ◌>>=◌, ◌>>◌, raise_if}
use soomsuite_agent.Schemas.Defense.{
  DefenseActionType, defense_action_enum, action_value, challenge_ip, temp_block_ip, block_country,
  rate_limit_path,
}
use soomsuite_agent.Defense.{WafAction, ActionPayload, Network, DefenseExternals}

unfoldable pub action_payload : ℕ → WafAction → ActionPayload
unfolding action_value
action_payload tenant_id a = record {
  tenant_id = tenant_id;
  action_type = str_append "defense." (action_value a.action_type);
  waf_action_id = a.id;
  provider = a.provider;
  target = a.target;
  ttl_seconds = a.ttl_seconds;
  confidence = a.confidence;
}

abbrev network_target : DefenseExternals → Network → Result String
network_target ext net = do
  raise_if (not net.is_global && not (ext.allow_documentation_ranges && net.is_documentation))
      (validation_failed "refusing to act on a non-public address")
  raise_if (ltb (if net.is_v4 then 256 else 18446744073709551616) net.num_addresses)
      (validation_failed "target range too broad")
  ok (if ltb 1 net.num_addresses then net.text else net.network_address)

unfoldable pub validate_target : DefenseExternals → DefenseActionType → String → Result String
validate_target ext action_type target =
    if contains (challenge_ip ∷ temp_block_ip ∷ []) action_type
    then ext.network target >>= network_target ext
    else if action_type =? block_country
    then if (str_length target == 2) && ext.is_alpha target
      then ok (ext.upper target)
      else err (validation_failed "country must be an ISO-3166 alpha-2 code")
    else if action_type =? rate_limit_path
    then if not (str_eq (str_take 1 target) "/") || ltb 200 (str_length target)
      then err (validation_failed "path must start with /")
      else ok target
    else if str_eq target "" || ltb 200 (str_length target)
    then err (validation_failed "invalid target")
    else ok target
