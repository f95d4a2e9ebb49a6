-- ===== src/Auth.antt =====
-- Bearer tokens, `src/auth.rs`. The base64 and JSON decoders are third-party code: they are the
-- parameter `TokenCodec`. The time of the check is read from the clock of the `World`.
pub mod Accept
pub mod Refusal
pub mod Samples
use Prim.Native.Char.{Char, code}
use aira_graphdb.Base.{
  ℕ, ◌/◌, String, Bool, true, false, not, ◌||◌, Option, none, some, List, [], ◌∷◌, ◌==◌, nat_eq,
  leb, ltb, if◌then◌else◌, any, filter, length,
}
use aira_graphdb.Errors.{ErrorCode, GraphDbError, Result, ok, err, new, with_detail}
use aira_graphdb.Io.{Bytes, World, Action, lift, now, ◌>>=◌, ◌>>◌}

pub record AuthConfig : Type 0 where
  pub allowed_algorithms : List String
  pub expected_issuer : String
  pub expected_audience : String
  pub known_kids : List String

pub record JwtHeader : Type 0 where
  pub alg : String
  pub kid : Option String

pub record JwtClaims : Type 0 where
  pub iss : String
  pub aud : String
  pub exp : ℕ
  pub nbf : Option ℕ

-- `URL_SAFE_NO_PAD.decode` and `serde_json::from_slice`
pub record TokenCodec : Type 0 where
  pub base64_decode : String → Option Bytes
  pub header_from_json : Bytes → Option JwtHeader
  pub claims_from_json : Bytes → Option JwtClaims

-- `c` in front of the first piece.
abbrev cons_piece : Char → List String → List String
cons_piece c [] = (String.◌∷◌ c String.[]) ∷ []
cons_piece c (p ∷ ps) = (String.◌∷◌ c p) ∷ ps

-- `token.split('.')`
unfoldable pub split_dot : String → List String
split_dot String.[] = String.[] ∷ []
split_dot (String.◌∷◌ c s) =
    let rest = split_dot s in if nat_eq (code c) b'.' then String.[] ∷ rest else cons_piece c rest

abbrev pub refused : String → String → GraphDbError
refused message reason = with_detail (new ErrorCode.auth_failed message) "auth_reason" reason

-- The three segments of a token, the last of which is not empty.
unfoldable pub segments : List String → Result (String × String)
segments (header ∷ claims ∷ signature ∷ []) =
    if signature == ""
    then err (refused "empty signature" "empty_signature")
    else ok (header, claims)
segments _ = err (refused "token must have 3 segments" "token_segments")

abbrev base64_or_refused : Option Bytes → Result Bytes
base64_or_refused none = err (refused "base64 decode failed" "base64_decode_failed")
base64_or_refused (some bytes) = ok bytes

abbrev json_or_refused {ℓ} : {A : Type ℓ} → Option A → Result A
json_or_refused none = err (refused "json decode failed" "json_decode_failed")
json_or_refused (some a) = ok a

unfoldable pub decode_segment {ℓ} :
    {A : Type ℓ} → TokenCodec → (Bytes → Option A) → String → Result A
decode_segment codec from_json segment = elim (base64_or_refused (codec.base64_decode segment)) [
  | err e ↦ err e
  | ok bytes ↦ json_or_refused (from_json bytes)
]

unfoldable pub check_algorithm : AuthConfig → JwtHeader → Result (Unit {0})
check_algorithm config header =
    if header.alg == "none" || not (any (λ alg. alg == header.alg) config.allowed_algorithms)
    then err (refused "token algorithm not allowed" "algorithm_not_allowed")
    else ok tt

abbrev pub kid_count : AuthConfig → String → ℕ
kid_count config kid = length (filter (λ known. known == kid) config.known_kids)

unfoldable pub check_kid : AuthConfig → Option String → Result (Unit {0})
check_kid config none = err (new ErrorCode.auth_failed "missing kid")
check_kid config (some kid) =
    if not (nat_eq (kid_count config kid) 1)
    then err (refused "kid unresolved or non-unique" "kid_unresolved")
    else ok tt

unfoldable pub check_names : AuthConfig → JwtClaims → Result (Unit {0})
check_names config claims =
    if not (claims.iss == config.expected_issuer)
    then err (refused "issuer mismatch" "issuer_mismatch")
    else if not (claims.aud == config.expected_audience)
    then err (refused "audience mismatch" "audience_mismatch")
    else ok tt

abbrev early : ℕ → Option ℕ → Bool
early time none = false
early time (some nbf) = ltb time nbf

-- `time` in seconds since the epoch
unfoldable pub check_times : JwtClaims → ℕ → Result (Unit {0})
check_times claims time =
    if leb claims.exp time
    then err (refused "token expired" "token_expired")
    else if early time claims.nbf
    then err (refused "token not yet valid" "token_not_yet_valid")
    else ok tt

-- `SystemTime::now`, in seconds
abbrev pub check_now : JwtClaims → Action (Unit {0})
check_now claims w = let (time, w') = now w in (check_times claims (time / 1000), w')

unfoldable pub validate_bearer_token : AuthConfig → TokenCodec → String → Action (Unit {0})
unfolding segments decode_segment check_algorithm check_kid check_names check_times now
validate_bearer_token config codec token = do
  (header_text, claims_text) ← lift (segments (split_dot token))
  header ← lift (decode_segment codec codec.header_from_json header_text)
  claims ← lift (decode_segment codec codec.claims_from_json claims_text)
  lift (check_algorithm config header)
  lift (check_kid config header.kid)
  lift (check_names config claims)
  check_now claims
