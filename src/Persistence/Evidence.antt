-- ===== src/Persistence/Evidence.antt =====
-- What commit evidence that was accepted holds, and that its bytes are read back.
use aira_graphdb.Base.{
  ◌+◌, ◌≤◌, ◌≡◌, String, true, false, refl, arith, ◌==◌, eq_iff, string_eq, ◌∙◌, ap, sym,
}
use mathlib.Core.Path.{subst}
use aira_graphdb.Base.Checked.{Checked, valid, ◌>>=◌, ensure, bind_valid, ensure_valid}
use aira_graphdb.Persistence.{
  json_safe_integer_max, is_safe_integer, is_lower_hex, validate_lower_hex, CommitEvidencePayload,
  RawCommitEvidence, is_next, new_payload, commit_schema, PreparedCommitEvidence, prepared,
  committed, new_prepared, commit_bytes, commit_evidence, commit_from_canonical_bytes,
}

-- The evidence of one commit: two hashes, a generation behind its base, and a log that is not empty, in
-- integers that JSON holds exactly.
pub record IsEvidence (p : CommitEvidencePayload) : Type 0 where
  pub nonce_hex : is_lower_hex p.transaction_nonce 32 ≡ true
  pub sha_hex : is_lower_hex p.wal_sha256 32 ≡ true
  pub next : p.generation ≡ p.base_generation + 1
  pub generation_safe : p.generation ≤ json_safe_integer_max
  pub some_bytes : 1 ≤ p.wal_bytes
  pub bytes_safe : p.wal_bytes ≤ json_safe_integer_max
  pub some_records : 1 ≤ p.wal_record_count
  pub records_safe : p.wal_record_count ≤ json_safe_integer_max

new_payload-IsEvidence :
    (p q : CommitEvidencePayload) → new_payload p ≡ valid q → (q ≡ p) × IsEvidence p
unfolding new_payload validate_lower_hex
new_payload-IsEvidence p q h =
    let (_, (nonce, h1)) =
      bind_valid (validate_lower_hex "transactionNonce" p.transaction_nonce 32) _ q h in
    let (_, (sha, h2)) = bind_valid (validate_lower_hex "walSha256" p.wal_sha256 32) _ q h1 in
    let (_, (base, h3)) = bind_valid (ensure (is_safe_integer p.base_generation true) _) _ q h2 in
    let (_, (generation, h4)) = bind_valid (ensure (is_safe_integer p.generation false) _) _ q h3 in
    let (_, (bytes, h5)) = bind_valid (ensure (is_safe_integer p.wal_bytes false) _) _ q h4 in
    let (_, (records, h6)) =
      bind_valid (ensure (is_safe_integer p.wal_record_count false) _) _ q h5 in
    let (_, (next, done)) = bind_valid (ensure (is_next p.base_generation p.generation) _) _ q h6 in
    let safe_generation = ensure_valid _ _ _ generation in
    let safe_bytes = ensure_valid _ _ _ bytes in
    let safe_records = ensure_valid _ _ _ records in
    let is_successor = ensure_valid _ _ _ next in
    (
      ground arith,
      record {
        nonce_hex = ensure_valid _ _ _ nonce;
        sha_hex = ensure_valid _ _ _ sha;
        next = ground (arith, is_successor);
        generation_safe = ground (arith, safe_generation);
        some_bytes = ground (arith, safe_bytes);
        bytes_safe = ground (arith, safe_bytes);
        some_records = ground (arith, safe_records);
        records_safe = ground (arith, safe_records);
      },
    )

new_prepared-IsEvidence :
    (p : CommitEvidencePayload) (q : PreparedCommitEvidence)
    → new_prepared p ≡ valid q
    → (q ≡ prepared p) × IsEvidence p
unfolding new_prepared
new_prepared-IsEvidence p q h =
    let (r, (found, same)) = bind_valid (new_payload p) _ q h in
    let (is_same, is_evidence) = new_payload-IsEvidence p r found in (cc, is_evidence)

-- The last test, that the evidence is written as it was read.
canonical_lem :
    (q : PreparedCommitEvidence) (message raw : String) (p : CommitEvidencePayload)
    → (ensure (commit_bytes (commit_evidence q) == raw) message
        >>= (λ _. valid (commit_evidence q)))
      ≡ valid (committed p)
    → (q ≡ prepared p) × (commit_bytes (committed p) ≡ raw)
canonical_lem (prepared r) message raw p h =
    let (u, (is_canonical, done)) =
      bind_valid (ensure (commit_bytes (committed r) == raw) message) _ _ h in
    let same = (eq_iff (commit_bytes (committed r)) raw).0 (ensure_valid _ _ u is_canonical) in
    let is_p : r ≡ p = cc in (cc, ap (λ x. commit_bytes (committed x)) (sym is_p) ∙ same)

-- Whatever the JSON parser reads, bytes that are accepted as commit evidence are the canonical
-- bytes of the evidence. Its nonce and its hash have 64 lower-case hex characters, its generation
-- is the one after its base, its log has bytes and records, and its numbers are integers that JSON
-- holds exactly.
pub commit_from-IsEvidence :
    (parse : String → Checked RawCommitEvidence) (raw : String) (p : CommitEvidencePayload)
    → commit_from_canonical_bytes parse raw ≡ valid (committed p)
    → (commit_bytes (committed p) ≡ raw) × IsEvidence p
unfolding commit_from_canonical_bytes
commit_from-IsEvidence parse raw p h =
    let (parsed, (_, h1)) = bind_valid (parse raw) _ (committed p) h in
    let (_, (_, h2)) = bind_valid (ensure (parsed.schema == commit_schema) _) _ (committed p) h1 in
    let (q, (created, h3)) = bind_valid (new_prepared parsed.payload) _ (committed p) h2 in
    let (is_q, is_evidence) = new_prepared-IsEvidence parsed.payload q created in
    let (is_p, same) = canonical_lem q _ raw p h3 in
    let is_payload : parsed.payload ≡ p = cc in (same, subst IsEvidence is_payload is_evidence)

IsEvidence-new_payload : (p : CommitEvidencePayload) → IsEvidence p → new_payload p ≡ valid p
unfolding new_payload validate_lower_hex
IsEvidence-new_payload p e =
    let nonce_hex = e.nonce_hex in
    let sha_hex = e.sha_hex in
    let next = e.next in
    let generation_safe = e.generation_safe in
    let some_bytes = e.some_bytes in
    let bytes_safe = e.bytes_safe in
    let some_records = e.some_records in let records_safe = e.records_safe in ground arith

-- Evidence of this form is accepted from its canonical bytes, if the JSON parser reads them back.
pub commit_from-commit_bytes :
    (parse : String → Checked RawCommitEvidence) (p : CommitEvidencePayload)
    → IsEvidence p
    → parse (commit_bytes (committed p)) ≡ valid record { schema = commit_schema; payload = p }
    → commit_from_canonical_bytes parse (commit_bytes (committed p)) ≡ valid (committed p)
unfolding commit_from_canonical_bytes new_prepared
commit_from-commit_bytes parse p e h =
    let same = (eq_iff (commit_bytes (committed p)) (commit_bytes (committed p))).1 refl in
    rw (h, IsEvidence-new_payload p e, same) refl
