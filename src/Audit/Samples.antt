-- ===== src/Audit/Samples.antt =====
-- The audit theorems on one event of each kind.
use aira_graphdb.Base.{none, some, string_eq}
use aira_graphdb.Audit.{NativeRequestAuditEvent, NativeCrashAuditEvent}

abbrev request_event : NativeRequestAuditEvent
request_event = record {
  error_code = "REQUEST_EXECUTION_FAILED";
  failure_class = "CLIENT_INPUT";
  request_id = "r-1";
  timestamp = "1700000000000";
}

abbrev crash_event : NativeCrashAuditEvent
crash_event = record {
  error_code = "PROCESS_CRASH";
  timestamp = "1700000000000";
  process_exit_code = none;
  signal = some "SIGABRT";
  last_request_id = some "r-10";
  uptime_sec = 120;
  cause = none;
}
