-- ===== src/Examples/Audit.antt =====
-- Logs of one entry and two, and a log that was tampered with under a weak hash.
use soomsuite_agent.Prelude.{
  or_empty, some, ◌≡◌, ◌⊎◌, refl, none, List, [], String, str_eq, str_append, str_length,
  if◌then◌else◌, Bool-cases, inl, inr,
}
use soomsuite_agent.Audit.{
  Event, AuditLog, HashExternals, genesis, entry_hash, is_break, verify_from, verify_rows, broken,
  next_position, new_row, append, hashed_texts,
}
use soomsuite_agent.Audit.Integrity.{Collides, tamper_evident}

abbrev ones : String
ones = "1111111111111111111111111111111111111111111111111111111111111111"

abbrev externals : HashExternals
externals = record {
  canonical_json = λ e. e.action;
  sha256_hex = λ t. if str_eq t (str_append genesis "scan.start") then ones else genesis;
  redact = λ m. m;
  json_loads = λ t. t;
  stored_ip = λ ip. ip;
  stored_metadata = λ m. m;
  stored_time = λ t. record t { zone = "+02:00" };
}

abbrev event : Event
event = record {
  actor_type = "user";
  actor_id = "bob";
  agent_name = none;
  agent_run_id = none;
  tool_name = none;
  action = "approval.approve";
  target_type = none;
  target_id = none;
  request_id = "r";
  source_ip = none;
  result = "success";
  risk_level = none;
  approval_id = none;
  metadata = "";
}

abbrev one_entry : List AuditLog
unfolding append
one_entry = append externals 1 "approvals" 10 event []

-- A database that writes addresses in small letters.
abbrev lowering : HashExternals
lowering = record externals {
  canonical_json = λ e. or_empty e.source_ip;
  sha256_hex = λ t. if str_eq t (str_append genesis "2001:DB8::1") then "a" else "b";
  stored_ip = λ ip. some "2001:db8::1";
}

abbrev from_v6 : Event
from_v6 = record event { source_ip = some "2001:DB8::1" }

not_kept : verify_rows lowering (append lowering 1 "approvals" 20 from_v6 []) ≡ broken 1 1
unfolding append verify_rows verify_from is_break entry_hash new_row next_position
not_kept = refl

-- The first entry was replaced.
abbrev tampered : List AuditLog
unfolding append
tampered =
    append externals 1 "approvals" 20 event
      (append externals 1 "approvals" 10 (record event { action = "approval.reject" }) [])

abbrev two_entries : List AuditLog
unfolding append
two_entries = append externals 1 "approvals" 20 event one_entry

hash_length : (t : String) → str_length (externals.sha256_hex t) ≡ 64
hash_length t = elim (Bool-cases (str_eq t (str_append genesis "scan.start"))) [
  | inl known ↦ rw known refl
  | inr other ↦ rw other refl
]

tamper_evident_example :
    (hashed_texts externals two_entries ≡ hashed_texts externals tampered)
    ⊎ Collides externals (hashed_texts externals two_entries) (hashed_texts externals tampered)
unfolding two_entries tampered one_entry append verify_rows verify_from is_break entry_hash new_row
    next_position
tamper_evident_example =
    tamper_evident externals hash_length two_entries tampered 2 genesis refl refl
