-- ===== src/Security/Idempotency.antt =====
-- packages/platform-core/src/platform_core/security/idempotency.py: `IdempotencyStore` on its
-- dictionary in memory. A request stands for its hash, an entry for its JSON text. What a response is
-- after `json.dumps(…, default=str)` and `json.loads` is a parameter; that there is no
-- such text is left out, and so is the Redis branch of the three accesses.
pub mod Once
pub mod Replay
use soomsuite_agent.Prelude.{
  ℕ, ◌≡◌, String, str_eq, str_append, str_length, non_empty, Bool, true, false, not, ◌&&◌, ◌||◌,
  Option, none, some, ltb, leb, ◌==◌, if◌then◌else◌,
}
use Prim.Native.Char.{Char, code}
use soomsuite_agent.Errors.{PlatformError, Result, ok, err, conflict, validation_failed}
use soomsuite_agent.Store.{Action}

-- `c.isalnum() or c in "-_:."`, by the code points of the four marks.
abbrev is_key_char : (Char → Bool) → Char → Bool
is_key_char isalnum c = isalnum c || code c == 45 || code c == 95 || code c == 58 || code c == 46

unfoldable pub all_chars : (Char → Bool) → String → Bool
all_chars p String.[] = true
all_chars p (String.◌∷◌ c s) = p c && all_chars p s

abbrev is_valid_key : (Char → Bool) → String → Bool
unfolding all_chars
is_valid_key isalnum key =
    leb 16 (str_length key) && leb (str_length key) 128 && all_chars (is_key_char isalnum) key

-- `validate_key`; no key is the empty text.
unfoldable pub validate_key : (Char → Bool) → String → Result String
unfolding all_chars
validate_key isalnum key =
    if not (is_valid_key isalnum key)
    then err (validation_failed "a valid Idempotency-Key header (16-128 chars) is required")
    else ok key

module _ (Response : Type 0) where
  -- What is stored under a key.
  pub data Entry : Type 0 where
    pending : (request_hash : String) → Entry
    done : (request_hash : String) (response : Response) → Entry

  abbrev pub Memory : Type 0
  Memory = String → Option Entry

  -- `_set`
  abbrev pub set : String → Entry → Memory → Memory
  set k v memory = λ j. if str_eq j k then some v else memory j

  -- `_delete`
  abbrev pub delete : String → Memory → Memory
  delete k memory = λ j. if str_eq j k then none else memory j

  -- What `run` does once it has looked its key up: answer, refuse, or execute the function.
  pub data Entering : Type 0 where
    answer : Response → Entering
    refuse : PlatformError → Entering
    execute : Entering

  abbrev pub in_progress : PlatformError
  in_progress = conflict "a request with this idempotency key is in progress"

  abbrev pub other_request : PlatformError
  other_request = conflict "idempotency key reused with a different request"

  abbrev look_up : String → Option Entry → Entering
  look_up request_hash none = execute
  look_up request_hash (some (pending h)) =
      if not (str_eq h request_hash) then refuse other_request else refuse in_progress
  look_up request_hash (some (done h response)) =
      if not (str_eq h request_hash) then refuse other_request else answer response

  abbrev claimed : String → String → Entering → Memory → Memory
  claimed k request_hash execute memory = set k (pending request_hash) memory
  claimed k request_hash _ memory = memory

  -- `run` up to its call of the function: the look-up, and the lock where the key is free. On the
  -- dictionary nothing runs between the two, so that the lock never finds the key taken.
  unfoldable pub enter : String → String → Memory → Entering × Memory
  enter k request_hash memory = (
    look_up request_hash (memory k),
    claimed k request_hash (look_up request_hash (memory k)) memory,
  )

  abbrev pub rkey : (prefix scope key : String) → String
  rkey prefix scope key =
      str_append prefix (str_append ":idem:" (str_append scope (str_append ":" key)))

  module _ (through_json : Response → Response) where
    -- `run` after the function has returned or raised. The response is stored as JSON.
    unfoldable pub leave : String → String → Result Response → Memory → Memory
    leave k request_hash (ok response) memory =
        set k (done request_hash (through_json response)) memory
    leave k request_hash (err e) memory = delete k memory

  module _ (through_json : Response → Response) {S : Type 0} (func : Action S Response) where
    abbrev pub settle : String → String → Entering × Memory → S → Result Response × (Memory × S)
    unfolding leave
    settle k request_hash (answer r, memory) s = (ok r, (memory, s))
    settle k request_hash (refuse e, memory) s = (err e, (memory, s))
    settle k request_hash (execute, memory) s =
        ((func s).0, (leave through_json k request_hash (func s).0 memory, (func s).1))

    abbrev pub run_valid :
        String → String → Result String → Memory × S → Result Response × (Memory × S)
    unfolding enter leave
    run_valid k request_hash (err e) w = (err e, w)
    run_valid k request_hash (ok _) (memory, s) =
        settle k request_hash (enter k request_hash memory) s

    -- `IdempotencyStore.run`, with nothing else running between its steps
    unfoldable pub run :
        (Char → Bool) → (prefix scope key request_hash : String) → Action (Memory × S) Response
    unfolding validate_key enter leave
    run isalnum prefix scope key request_hash w =
        run_valid (rkey prefix scope key) request_hash (validate_key isalnum key) w
