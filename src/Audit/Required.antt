-- ===== src/Audit/Required.antt =====
-- Which audit events are valid.
use aira_graphdb.Base.{
  String, true, false, ◌≡◌, ◌↔◌, refl, Option, none, some, arith, ◌==◌, eq_iff, string_eq, any,
}
use aira_graphdb.Io.Utf8.{is_blank}
use aira_graphdb.Audit.{
  NativeRequestAuditEvent, NativeCrashAuditEvent, Verdict, validate_request_event_required_fields,
  validate_crash_event_required_fields, is_blank_text, text_or_empty, allowed_failure_classes,
}

-- A request event is valid exactly if its code, its request and its time are not blank and its
-- failure class is one of the allowed ones.
pub validate_request_event_iff :
    (event : NativeRequestAuditEvent)
    → (validate_request_event_required_fields event ≡ Verdict.valid) ↔ (
        (is_blank_text event.error_code ≡ false)
        × (any (λ c. c == event.failure_class) allowed_failure_classes ≡ true)
        × (is_blank_text event.request_id ≡ false)
        × (is_blank_text event.timestamp ≡ false))
unfolding validate_request_event_required_fields
validate_request_event_iff event = ground arith

blank_empty : is_blank_text "" ≡ true
unfolding is_blank
blank_empty = refl

named_request :
    (id : Option String)
    → is_blank_text (text_or_empty id) ≡ false
    → (name : String) × (id ≡ some name) × (is_blank_text name ≡ false)
named_request none h = absurd (ground (arith, blank_empty))
named_request (some name) h = (name, refl, h)

-- A crash event is valid exactly if it has the code of a crash, its time is not blank, and it names
-- a last request that is not blank.
pub validate_crash_event_iff :
    (event : NativeCrashAuditEvent)
    → (validate_crash_event_required_fields event ≡ Verdict.valid) ↔ (
        (event.error_code ≡ "PROCESS_CRASH")
        × (is_blank_text event.timestamp ≡ false)
        × ((id : String) × (event.last_request_id ≡ some id) × (is_blank_text id ≡ false)))
unfolding validate_crash_event_required_fields
validate_crash_event_iff event = (
  (λ h. (
    ground (arith, eq_iff event.error_code "PROCESS_CRASH"),
    ground arith,
    named_request event.last_request_id (ground arith),
  )),
  (λ (crash, timed, (id, found, filled)).
      ground (arith, eq_iff event.error_code "PROCESS_CRASH", found, crash, timed, filled)),
)
