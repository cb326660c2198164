-- ===== src/Audit.antt =====
-- services/audit/src/audit_service: the hash chain (chain.py) and the store (service.py) of one
-- tenant's audit log. Forwarding to a SIEM and the metrics are left out. What the database gives back for a
-- column that it normalises, INET, JSONB or TIMESTAMPTZ, is a parameter.
pub mod Integrity
use soomsuite_agent.Prelude.{
  ℕ, ◌+◌, String, Bool, true, false, not, ◌||◌, Option, List, [], ◌∷◌, ◌++◌, ◌==◌, if◌then◌else◌,
  str_eq, str_append, str_take, length, map,
}

-- `GENESIS`
abbrev pub genesis : String
genesis = "0000000000000000000000000000000000000000000000000000000000000000"

-- The event that a service asks to record; the metadata's dictionary stands for its JSON text.
pub record Event : Type 0 where
  pub actor_type : String
  pub actor_id : String
  pub agent_name : Option String
  pub agent_run_id : Option ℕ
  pub tool_name : Option String
  pub action : String
  pub target_type : Option String
  pub target_id : Option String
  pub request_id : String
  pub source_ip : Option String
  pub result : String
  pub risk_level : Option String
  pub approval_id : Option ℕ
  pub metadata : String

-- A time with its zone, which `str` shows.
pub record Timestamp : Type 0 where
  pub instant : ℕ
  pub zone : String

-- A value of the metadata column: a dictionary, which stands for its JSON text, or a text that is
-- still to be parsed.
pub data Metadata : Type 0 where
  parsed raw : (text : String) → Metadata

-- The fields of a row that its hash covers, `CHAINED_FIELDS`.
pub record Entry : Type 0 where
  pub tenant_id : ℕ
  pub seq : ℕ
  pub actor_type : String
  pub actor_id : String
  pub agent_name : Option String
  pub agent_run_id : Option ℕ
  pub service : String
  pub tool_name : Option String
  pub action : String
  pub target_type : Option String
  pub target_id : Option String
  pub request_id : String
  pub source_ip : Option String
  pub result : String
  pub risk_level : Option String
  pub approval_id : Option ℕ
  pub metadata_redacted : Metadata
  pub created_at : Timestamp

-- A row of `audit_logs`. A table is the list of its rows by `seq`.
pub record AuditLog : Type 0 where
  pub entry : Entry
  pub prev_hash : String
  pub entry_hash : String

-- The canonical JSON text of the material, SHA-256 in hexadecimal, the redaction of metadata, the
-- parsing of JSON, and what the columns give back for what was written to them.
pub record HashExternals : Type 0 where
  pub canonical_json : Entry → String
  pub sha256_hex : String → String
  pub redact : String → String
  pub json_loads : String → String
  pub stored_ip : Option String → Option String
  pub stored_metadata : Metadata → Metadata
  pub stored_time : Timestamp → Timestamp

-- The entry as a session reads it back.
abbrev pub as_stored : HashExternals → Entry → Entry
as_stored ext e = record e {
  source_ip = ext.stored_ip e.source_ip;
  metadata_redacted = ext.stored_metadata e.metadata_redacted;
  created_at = ext.stored_time e.created_at;
}

-- `json.loads` of metadata that is a text
abbrev pub loaded : HashExternals → Metadata → Metadata
loaded ext (parsed text) = parsed text
loaded ext (raw text) = parsed (ext.json_loads text)

-- `created_at.astimezone(UTC)`
abbrev pub in_utc : Timestamp → Timestamp
in_utc t = record t { zone = "+00:00" }

-- The entry that `verify_rows` hashes for a row.
abbrev pub verified_entry : HashExternals → Entry → Entry
verified_entry ext e = record e {
  metadata_redacted = loaded ext e.metadata_redacted;
  created_at = in_utc e.created_at;
}

-- What is hashed for an entry.
abbrev pub hashed_text : HashExternals → String → Entry → String
hashed_text ext prev_hash entry = str_append prev_hash (ext.canonical_json entry)

unfoldable pub entry_hash : HashExternals → String → Entry → String
entry_hash ext prev_hash entry = ext.sha256_hex (hashed_text ext prev_hash entry)

-- The answer of `verify_rows`: the number of entries and the head, or the row that breaks the chain.
pub data Verdict : Type 0 where
  valid : (entries : ℕ) (head : String) → Verdict
  broken : (broken_at_seq entries : ℕ) → Verdict

-- Whether a row is not what the chain expects next.
unfoldable pub is_break : HashExternals → String → ℕ → AuditLog → Bool
unfolding entry_hash
is_break ext prev expected_seq r =
    not (r.entry.seq == expected_seq)
    || not (str_eq r.prev_hash prev)
    || not (str_eq r.entry_hash (entry_hash ext prev (verified_entry ext r.entry)))

-- The loop of `verify_rows`, from the hash and the number that it expects.
unfoldable pub verify_from : HashExternals → (entries : ℕ) → String → ℕ → List AuditLog → Verdict
verify_from ext entries prev expected_seq [] = valid entries prev
verify_from ext entries prev expected_seq (r ∷ rs) =
    let rest = verify_from ext entries r.entry_hash (expected_seq + 1) rs in
    if is_break ext prev expected_seq r then broken r.entry.seq entries else rest

unfoldable pub verify_rows : HashExternals → List AuditLog → Verdict
verify_rows ext rows = verify_from ext (length rows) genesis 1 rows

-- `(last[0] + 1, last[1]) if last else (1, GENESIS)`, from the value without rows.
unfoldable pub next_position : ℕ × String → List AuditLog → ℕ × String
next_position none_yet [] = none_yet
next_position none_yet (r ∷ rs) = next_position (r.entry.seq + 1, r.entry_hash) rs

-- The entry of `append`; the service is the authenticated caller.
abbrev pub new_entry : HashExternals → ℕ → String → ℕ → ℕ → Event → Entry
new_entry ext tenant_id writer now seq e = record {
  tenant_id = tenant_id;
  seq = seq;
  actor_type = e.actor_type;
  actor_id = str_take 256 e.actor_id;
  agent_name = e.agent_name;
  agent_run_id = e.agent_run_id;
  service = writer;
  tool_name = e.tool_name;
  action = e.action;
  target_type = e.target_type;
  target_id = e.target_id;
  request_id = str_take 128 e.request_id;
  source_ip = e.source_ip;
  result = e.result;
  risk_level = e.risk_level;
  approval_id = e.approval_id;
  metadata_redacted = parsed (ext.redact e.metadata);
  created_at = record { instant = now; zone = "+00:00" };
}

-- The row that `append` adds: its hash is that of the entry as it was made, its columns are what the
-- database keeps of it.
unfoldable pub new_row : HashExternals → ℕ → String → ℕ → Event → ℕ × String → AuditLog
unfolding entry_hash
new_row ext tenant_id writer now e (seq, prev) = record {
  entry = as_stored ext (new_entry ext tenant_id writer now seq e);
  prev_hash = prev;
  entry_hash = entry_hash ext prev (new_entry ext tenant_id writer now seq e);
}

-- `append`, under the tenant's lock.
unfoldable pub append : HashExternals → ℕ → String → ℕ → Event → List AuditLog → List AuditLog
unfolding new_row
append ext tenant_id writer now e rows =
    rows ++ (new_row ext tenant_id writer now e (next_position (1, genesis) rows) ∷ [])

-- The texts that the hashes of a log cover, in order.
abbrev pub hashed_texts : HashExternals → List AuditLog → List String
hashed_texts ext =
    map {A = AuditLog} {B = String} λ r. hashed_text ext r.prev_hash (verified_entry ext r.entry)
