-- ===== src/Auth/Accept.antt =====
-- Which tokens `validate_bearer_token` takes, and what it never looks at.
use aira_graphdb.Base.{
  ℕ, ◌/◌, ◌<◌, ◌≤◌, String, true, ◌≡◌, ◌≢◌, ◌↔◌, refl, Option, none, some, List, [], ◌∷◌, ◌==◌,
  eq_iff, any, string_eq, arith, inl, inr, Option-cases,
}
use aira_graphdb.Errors.{ok, Result-cases}
use aira_graphdb.Io.{World, now}
use aira_graphdb.Auth.{
  AuthConfig, TokenCodec, JwtHeader, JwtClaims, validate_bearer_token, segments, split_dot,
  decode_segment, check_algorithm, check_kid, check_names, check_times, kid_count,
}

-- The times between which a token holds.
abbrev pub Timely : JwtClaims → ℕ → Type 0
Timely claims time = (time < claims.exp) × ((nbf : ℕ) → claims.nbf ≡ some nbf → nbf ≤ time)

-- What a token needs beside its form, for the keys, the names and the `time` of the check.
pub record IsAcceptable (config : AuthConfig) (header : JwtHeader) (claims : JwtClaims) (time : ℕ)
    : Type 0 where
  pub signed : header.alg ≢ "none"
  pub allowed : any (λ alg. alg == header.alg) config.allowed_algorithms ≡ true
  pub kid : String
  pub has_kid : header.kid ≡ some kid
  pub known : kid_count config kid ≡ 1
  pub issuer : claims.iss ≡ config.expected_issuer
  pub audience : claims.aud ≡ config.expected_audience
  pub timely : Timely claims time

check_algorithm_iff :
    (config : AuthConfig) (header : JwtHeader)
    → (check_algorithm config header ≡ ok tt)
      ↔ ((header.alg ≢ "none") × (any (λ alg. alg == header.alg) config.allowed_algorithms ≡ true))
unfolding check_algorithm
check_algorithm_iff config header = ground (arith, eq_iff header.alg "none")

check_kid_iff :
    (config : AuthConfig) (kid : Option String)
    → (check_kid config kid ≡ ok tt)
      ↔ ((name : String) × (kid ≡ some name) × (kid_count config name ≡ 1))
unfolding check_kid
check_kid_iff config none = ground arith
check_kid_iff config (some name) =
    ((λ h. (name, refl, ground arith)), (λ (kid, same, one). ground (arith, one, same)))

check_names_iff :
    (config : AuthConfig) (claims : JwtClaims)
    → (check_names config claims ≡ ok tt)
      ↔ ((claims.iss ≡ config.expected_issuer) × (claims.aud ≡ config.expected_audience))
unfolding check_names
check_names_iff config claims =
    ground
      (arith, eq_iff claims.iss config.expected_issuer, eq_iff claims.aud config.expected_audience)

check_times_iff :
    (claims : JwtClaims) (time : ℕ) → (check_times claims time ≡ ok tt) ↔ Timely claims time
unfolding check_times
check_times_iff claims time = elim (Option-cases claims.nbf) [
  | inl always ↦ ground (arith, always)
  | inr (nbf, found) ↦
      rw (found, check_times)
        ((λ h. (ground arith, (λ n e. ground arith))), (λ (a, b). ground (arith, b nbf refl)))
]

segments_cut :
    (parts : List String) (header claims : String)
    → segments parts ≡ ok (header, claims)
    → (signature : String) × (parts ≡ header ∷ claims ∷ signature ∷ []) × (signature ≢ "")
unfolding segments
segments_cut (a ∷ b ∷ s ∷ []) header claims h = (s, ground arith, ground (arith, eq_iff s ""))
segments_cut [] header claims h = absurd (ground arith)
segments_cut (a ∷ []) header claims h = absurd (ground arith)
segments_cut (a ∷ b ∷ []) header claims h = absurd (ground arith)
segments_cut (a ∷ b ∷ s ∷ t ∷ ts) header claims h = absurd (ground arith)

-- The segments of the token are there, and its last one is not empty.
segments_iff :
    (parts : List String) (header claims : String)
    → (segments parts ≡ ok (header, claims))
      ↔ ((signature : String) × (parts ≡ header ∷ claims ∷ signature ∷ []) × (signature ≢ ""))
unfolding segments
segments_iff parts header claims = (segments_cut parts header claims, go)
  where
    go :
        ((signature : String) × (parts ≡ header ∷ claims ∷ signature ∷ []) × (signature ≢ ""))
        → segments parts ≡ ok (header, claims)
    go (signature, same, filled) = rw same (ground (arith, eq_iff signature ""))

module _ (config : AuthConfig) (codec : TokenCodec) (token : String) (w : World)
    (header_text claims_text : String) (header : JwtHeader) (claims : JwtClaims)
    (cut : segments (split_dot token) ≡ ok (header_text, claims_text))
    (head : decode_segment codec codec.header_from_json header_text ≡ ok header)
    (body : decode_segment codec codec.claims_from_json claims_text ≡ ok claims) where
  -- Once the token is read, it is accepted exactly if it passes all checks.
  read_iff : ((validate_bearer_token config codec token w).0 ≡ ok tt) ↔ (
      (check_algorithm config header ≡ ok tt)
      × (check_kid config header.kid ≡ ok tt)
      × (check_names config claims ≡ ok tt)
      × (check_times claims ((now w).0 / 1000) ≡ ok tt))
  unfolding validate_bearer_token
  read_iff =
      let a = check_algorithm config header in
      let k = check_kid config header.kid in
      let n = check_names config claims in
      rw (cut, validate_bearer_token)
        (rw (head, validate_bearer_token)
          (rw (body, validate_bearer_token)
            (elim (Result-cases a) [
              | inr (e, f) ↦ rw (f, validate_bearer_token) (ground arith)
              | inl (_, f) ↦
                  rw (f, validate_bearer_token)
                    (elim (Result-cases k) [
                      | inr (e, g) ↦ rw (g, validate_bearer_token) (ground arith)
                      | inl (_, g) ↦
                          rw (g, validate_bearer_token)
                            (elim (Result-cases n) [
                              | inr (e, o) ↦ rw (o, validate_bearer_token) (ground arith)
                              | inl (_, o) ↦
                                  rw (o, validate_bearer_token)
                                    (((λ h. (refl, refl, refl, h)), (λ (_, _, _, h). h)))
                            ])
                    ])
            ])))

-- A token that holds at `time`: three segments with a last one that is not empty, a header and
-- claims that can be read, and an acceptable content.
pub record IsAccepted (config : AuthConfig) (codec : TokenCodec) (token : String) (time : ℕ)
    : Type 0 where
  pub header_text : String
  pub claims_text : String
  pub signature : String
  pub cut : split_dot token ≡ header_text ∷ claims_text ∷ signature ∷ []
  pub filled : signature ≢ ""
  pub header : JwtHeader
  pub claims : JwtClaims
  pub head : decode_segment codec codec.header_from_json header_text ≡ ok header
  pub body : decode_segment codec codec.claims_from_json claims_text ≡ ok claims
  pub acceptable : IsAcceptable config header claims time

module _ (config : AuthConfig) (codec : TokenCodec) (token : String) (w : World) where
  read_parts :
      (validate_bearer_token config codec token w).0 ≡ ok tt
      → (h : String) × (c : String) × (header : JwtHeader) × (claims : JwtClaims) × (segments
            (split_dot token)
          ≡ ok (h, c))
        × (decode_segment codec codec.header_from_json h ≡ ok header)
        × (decode_segment codec codec.claims_from_json c ≡ ok claims)
  unfolding validate_bearer_token
  read_parts valid = elim (Result-cases (segments (split_dot token))) [
    | inr (e, f) ↦ absurd (ground (arith, rw (f, validate_bearer_token) at valid))
    | inl (p, f) ↦
        let valid' = rw (f, validate_bearer_token) at valid in
        elim (Result-cases (decode_segment codec codec.header_from_json p.0)) [
          | inr (e, g) ↦ absurd (ground (arith, rw (g, validate_bearer_token) at valid'))
          | inl (header, g) ↦
              let valid'' = rw (g, validate_bearer_token) at valid' in
              elim (Result-cases (decode_segment codec codec.claims_from_json p.1)) [
                | inr (e, k) ↦ absurd (ground (arith, rw (k, validate_bearer_token) at valid''))
                | inl (claims, k) ↦ (p.0, p.1, header, claims, f, g, k)
              ]
        ]
  ]

  accepted :
      (validate_bearer_token config codec token w).0 ≡ ok tt
      → IsAccepted config codec token ((now w).0 / 1000)
  accepted valid =
      let (h, c, header, claims, cut, head, body) = read_parts valid in
      let (signature, same, filled) = (segments_iff (split_dot token) h c).0 cut in
      let (a, k, n, t) = (read_iff config codec token w h c header claims cut head body).0 valid in
      let (signed, allowed) = (check_algorithm_iff config header).0 a in
      let (kid, has_kid, known) = (check_kid_iff config header.kid).0 k in
      let (issuer, audience) = (check_names_iff config claims).0 n in
      record {
        header_text = h;
        claims_text = c;
        signature = signature;
        cut = same;
        filled = filled;
        header = header;
        claims = claims;
        head = head;
        body = body;
        acceptable = record {
          signed = signed;
          allowed = allowed;
          kid = kid;
          has_kid = has_kid;
          known = known;
          issuer = issuer;
          audience = audience;
          timely = (check_times_iff claims ((now w).0 / 1000)).0 t;
        };
      }

  -- A token is accepted exactly if it has three segments with a last one that is not empty, its
  -- header and claims can be read, its algorithm is allowed and not `none`, its key is known once,
  -- the issuer and the audience are the expected ones, and the time of the check lies before its
  -- expiry and not before its start.
  pub validate_bearer_token_iff :
      ((validate_bearer_token config codec token w).0 ≡ ok tt)
      ↔ IsAccepted config codec token ((now w).0 / 1000)
  validate_bearer_token_iff = (
    accepted,
    λ i.
        let k = i.acceptable in
        (read_iff config codec token w i.header_text i.claims_text i.header i.claims
            ((segments_iff (split_dot token) i.header_text i.claims_text).1
              (i.signature, i.cut, i.filled))
            i.head i.body).1
          (
            (check_algorithm_iff config i.header).1 (k.signed, k.allowed),
            (check_kid_iff config i.header.kid).1 (k.kid, k.has_kid, k.known),
            (check_names_iff config i.claims).1 (k.issuer, k.audience),
            (check_times_iff i.claims ((now w).0 / 1000)).1 k.timely,
          ),
  )

-- The signature is never looked at: two tokens of three segments that differ in nothing but a
-- signature that is not empty get the same answer.
pub signature_unchecked :
    (config : AuthConfig) (codec : TokenCodec) (token forged : String) (w : World)
    (header claims signature other : String)
    → split_dot token ≡ header ∷ claims ∷ signature ∷ []
    → split_dot forged ≡ header ∷ claims ∷ other ∷ []
    → signature ≢ ""
    → other ≢ ""
    → validate_bearer_token config codec forged w ≡ validate_bearer_token config codec token w
unfolding validate_bearer_token
signature_unchecked config codec token forged w header claims signature other s t m n =
    rw ((segments_iff (split_dot token) header claims).1 (signature, s, m), validate_bearer_token)
      (rw ((segments_iff (split_dot forged) header claims).1 (other, t, n), validate_bearer_token)
        refl)
