-- ===== src/Protocol.antt =====
-- The handshake, `src/protocol.rs`.
use aira_graphdb.Base.{
  String, Bool, true, not, ◌||◌, Option, some, List, [], ◌∷◌, ◌==◌, string_eq, if◌then◌else◌, any,
}
use aira_graphdb.Errors.{ErrorCode, Result, ok, err, new}

pub record HandshakeRequest : Type 0 where
  pub protocol_version : String
  pub canonical_type_system_version : String

pub record HandshakeResponse : Type 0 where
  pub accepted : Bool
  pub protocol_version : Option String
  pub canonical_type_system_version : Option String

-- What `load_typemap_spec` reads from `spec/contracts/agdb-typemap-p0.v1.0.0.json`.
abbrev pub protocol_versions : List String
protocol_versions = "protocol-p0@1.0.0" ∷ []

abbrev pub canonical_type_system_versions : List String
canonical_type_system_versions = "canonical-types@1.0.0" ∷ []

unfoldable pub negotiate : HandshakeRequest → Result HandshakeResponse
negotiate request =
    let protocol_ok = any (λ v. v == request.protocol_version) protocol_versions in
    let canonical_ok =
      any (λ v. v == request.canonical_type_system_version) canonical_type_system_versions in
    if not protocol_ok || not canonical_ok
    then err (
        new ErrorCode.protocol_version_mismatch
          "protocol or canonical type system version mismatch")
    else ok (record {
      accepted = true;
      protocol_version = some request.protocol_version;
      canonical_type_system_version = some request.canonical_type_system_version;
    })
