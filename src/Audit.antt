-- ===== src/Audit.antt =====
-- The audit events of the native process, `src/audit.rs`: their required fields.
pub mod Required
pub mod Samples
use Prim.Native.Char.{code}
use aira_graphdb.Base.{
  ℕ, String, Bool, true, false, not, Option, none, some, List, [], ◌∷◌, ◌==◌, string_eq,
  if◌then◌else◌, any,
}
use aira_graphdb.Graph.{ℤ}
use aira_graphdb.Io.Utf8.{is_blank}

abbrev pub allowed_failure_classes : List String
allowed_failure_classes = "INTERNAL_BUG" ∷ "IO_FAILURE" ∷ "OOM" ∷ "TIMEOUT" ∷ "CLIENT_INPUT" ∷ []

abbrev pub internal_failure_classes : List String
internal_failure_classes = "INTERNAL_BUG" ∷ "IO_FAILURE" ∷ "OOM" ∷ "TIMEOUT" ∷ []

pub record NativeRequestAuditEvent : Type 0 where
  pub error_code : String
  pub failure_class : String
  pub request_id : String
  pub timestamp : String

pub record NativeCrashAuditEvent : Type 0 where
  pub error_code : String
  pub timestamp : String
  pub process_exit_code : Option ℤ
  pub signal : Option String
  pub last_request_id : Option String
  pub uptime_sec : ℕ
  pub cause : Option String

-- `Result<(), String>`
pub data Verdict : Type 0 where
  valid : Verdict
  invalid : String → Verdict

abbrev code_points : String → List ℕ
code_points String.[] = []
code_points (String.◌∷◌ c s) = code c ∷ code_points s

-- `text.trim().is_empty()`
abbrev pub is_blank_text : String → Bool
is_blank_text text = is_blank (code_points text)

abbrev pub is_allowed_failure_class : String → Bool
is_allowed_failure_class failure_class = any (λ c. c == failure_class) allowed_failure_classes

abbrev pub is_internal_failure_class : String → Bool
is_internal_failure_class failure_class = any (λ c. c == failure_class) internal_failure_classes

unfoldable pub validate_request_event_required_fields : NativeRequestAuditEvent → Verdict
validate_request_event_required_fields event =
    if is_blank_text event.error_code
    then invalid "errorCode is required"
    else if not (is_allowed_failure_class event.failure_class)
    then invalid
        "failureClass must be one of [\"INTERNAL_BUG\", \"IO_FAILURE\", \"OOM\", \"TIMEOUT\", \"CLIENT_INPUT\"]"
    else if is_blank_text event.request_id
    then invalid "requestId is required"
    else if is_blank_text event.timestamp
    then invalid "timestamp is required"
    else valid

-- `as_deref().unwrap_or_default()`
abbrev pub text_or_empty : Option String → String
text_or_empty none = ""
text_or_empty (some text) = text

unfoldable pub validate_crash_event_required_fields : NativeCrashAuditEvent → Verdict
validate_crash_event_required_fields event =
    if not (event.error_code == "PROCESS_CRASH")
    then invalid "errorCode must be PROCESS_CRASH"
    else if is_blank_text event.timestamp
    then invalid "timestamp is required"
    else if is_blank_text (text_or_empty event.last_request_id)
    then invalid "lastRequestId is required"
    else valid
