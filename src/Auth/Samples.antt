-- ===== src/Auth/Samples.antt =====
-- The token theorems on tokens whose two first segments are read by a small decoder.
use aira_graphdb.Base.{
  String, ◌≡◌, ◌≢◌, ◌↔◌, refl, Option, none, some, [], ◌∷◌, ◌==◌, eq_iff, if◌then◌else◌, arith,
  string_eq,
}
use aira_graphdb.Errors.{ok, err}
use aira_graphdb.Io.{Bytes, World, now}
use aira_graphdb.Storage.Samples.{bare}
use aira_graphdb.Auth.{
  AuthConfig, JwtHeader, JwtClaims, TokenCodec, validate_bearer_token, split_dot, segments,
  decode_segment, check_algorithm, check_kid, check_names, check_times, refused,
}
use aira_graphdb.Auth.Accept.{IsAccepted, validate_bearer_token_iff, signature_unchecked}

abbrev pub config : AuthConfig
config = record {
  allowed_algorithms = "RS256" ∷ [];
  expected_issuer = "issuer";
  expected_audience = "aira-graphdb";
  known_kids = "k1" ∷ [];
}

-- "h" and "c" are the texts of a header and of claims.
abbrev base64 : String → Option Bytes
base64 text = if text == "h" then some (1 ∷ []) else if text == "c" then some (2 ∷ []) else none

abbrev header_of : Bytes → Option JwtHeader
header_of bytes = some (record { alg = "RS256"; kid = some "k1" })

abbrev claims_of : Bytes → Option JwtClaims
claims_of bytes = some (record { iss = "issuer"; aud = "aira-graphdb"; exp = 200; nbf = some 100 })

abbrev pub codec : TokenCodec
codec = record {
  base64_decode = base64;
  header_from_json = header_of;
  claims_from_json = claims_of;
}

-- 150 seconds after the epoch
abbrev pub at_150 : World
at_150 = record bare { clock = 150000 ∷ [] }

validate_bearer_token_iff_example :
    ((validate_bearer_token config codec "h.c.s" at_150).0 ≡ ok tt)
    ↔ IsAccepted config codec "h.c.s" 150
unfolding now
validate_bearer_token_iff_example = validate_bearer_token_iff config codec "h.c.s" at_150

accepts : (validate_bearer_token config codec "h.c.s" at_150).0 ≡ ok tt
unfolding validate_bearer_token split_dot segments decode_segment check_algorithm check_kid
    check_names check_times now
accepts = refl

cut : split_dot "h.c.s" ≡ "h" ∷ "c" ∷ "s" ∷ []
unfolding split_dot
cut = refl

cut_forged : split_dot "h.c.forged" ≡ "h" ∷ "c" ∷ "forged" ∷ []
unfolding split_dot
cut_forged = refl

filled : ◌≢◌ {A = String} "s" ""
filled h = let s : String = "s" in ground (arith, (eq_iff s "").1 h)

filled_forged : ◌≢◌ {A = String} "forged" ""
filled_forged h = let s : String = "forged" in ground (arith, (eq_iff s "").1 h)

signature_unchecked_example :
    validate_bearer_token config codec "h.c.forged" at_150
    ≡ validate_bearer_token config codec "h.c.s" at_150
signature_unchecked_example =
    signature_unchecked config codec "h.c.s" "h.c.forged" at_150 "h" "c" "s" "forged" cut cut_forged
      filled filled_forged

refuses :
    (validate_bearer_token config codec "h.c" at_150).0
    ≡ err (refused "token must have 3 segments" "token_segments")
unfolding validate_bearer_token split_dot segments
refuses = refl
