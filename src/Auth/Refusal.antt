-- ===== src/Auth/Refusal.antt =====
-- The refusals of `validate_bearer_token`.
use aira_graphdb.Base.{
  ℕ, ◌/◌, String, ◌≡◌, refl, Option, none, some, List, [], ◌∷◌, string_eq, arith, inl, inr,
  Option-cases,
}
use aira_graphdb.Errors.{ErrorCode, GraphDbError, Result, ok, err, with_detail}
use aira_graphdb.Io.{Bytes, World, Action, now, lift, ◌>>=◌, ◌>>◌}
use aira_graphdb.Auth.{
  AuthConfig, TokenCodec, JwtHeader, JwtClaims, validate_bearer_token, segments, split_dot,
  decode_segment, check_algorithm, check_kid, check_names, check_times, check_now,
}

-- A refusal with the code `AUTH_FAILED`.
abbrev Refuses {ℓ} : {A : Type ℓ} → Result A → Type ℓ
Refuses r = (e : GraphDbError) → r ≡ err e → e.code ≡ ErrorCode.auth_failed

bind-Refuses {ℓ κ} :
    {A : Type ℓ} {B : Type κ} (r : Result A) (f : A → Action B) (w : World)
    → Refuses r
    → ((a : A) (w' : World) → Refuses (f a w').0)
    → Refuses ((lift r >>= f) w).0
bind-Refuses (ok a) f w first rest = rest a w
bind-Refuses (err e) f w first rest = λ e' h. ground (arith, first e refl)

segments-Refuses : (parts : List String) → Refuses (segments parts)
unfolding segments with_detail
segments-Refuses [] = λ e h. ground arith
segments-Refuses (a ∷ []) = λ e h. ground arith
segments-Refuses (a ∷ b ∷ []) = λ e h. ground arith
segments-Refuses (a ∷ b ∷ s ∷ []) = λ e h. ground arith
segments-Refuses (a ∷ b ∷ s ∷ t ∷ ts) = λ e h. ground arith

decode_segment-Refuses {ℓ} :
    {A : Type ℓ} (codec : TokenCodec) (from_json : Bytes → Option A) (segment : String)
    → Refuses (decode_segment codec from_json segment)
unfolding decode_segment with_detail
decode_segment-Refuses codec from_json segment e h =
    elim (Option-cases (codec.base64_decode segment)) [
      | inl none' ↦ ground arith
      | inr (bytes, found) ↦ elim (Option-cases (from_json bytes)) [
        | inl none' ↦ ground arith
        | inr (a, read) ↦ ground arith
      ]
    ]

check_kid-Refuses : (config : AuthConfig) (kid : Option String) → Refuses (check_kid config kid)
unfolding check_kid with_detail
check_kid-Refuses config none e h = ground arith
check_kid-Refuses config (some kid) e h = ground arith

check_times-Refuses : (claims : JwtClaims) (time : ℕ) → Refuses (check_times claims time)
unfolding check_times with_detail
check_times-Refuses claims time e h = ground arith

check_algorithm-Refuses :
    (config : AuthConfig) (header : JwtHeader) → Refuses (check_algorithm config header)
unfolding check_algorithm with_detail
check_algorithm-Refuses config header e h = ground arith

check_names-Refuses :
    (config : AuthConfig) (claims : JwtClaims) → Refuses (check_names config claims)
unfolding check_names with_detail
check_names-Refuses config claims e h = ground arith

-- The checks behind the reading of the token.
abbrev checked : AuthConfig → JwtHeader → JwtClaims → Action (Unit {0})
checked config header claims = do
  lift (check_algorithm config header)
  lift (check_kid config header.kid)
  lift (check_names config claims)
  check_now claims

checked-Refuses :
    (config : AuthConfig) (header : JwtHeader) (claims : JwtClaims) (w : World)
    → Refuses (checked config header claims w).0
checked-Refuses config header claims w =
    let named : Action (Unit {0}) = lift (check_names config claims) >> check_now claims in
    let known : Action (Unit {0}) = lift (check_kid config header.kid) >> named in
    bind-Refuses (check_algorithm config header) (λ _. known) w
      (check_algorithm-Refuses config header)
      (λ _ w.
        bind-Refuses (check_kid config header.kid) (λ _. named) w
          (check_kid-Refuses config header.kid)
          (λ _ w.
            bind-Refuses (check_names config claims) (λ _. check_now claims) w
              (check_names-Refuses config claims)
              (λ _ w. check_times-Refuses claims ((now w).0 / 1000))))

-- Every refusal of a token says `AUTH_FAILED`.
refusal_code :
    (config : AuthConfig) (codec : TokenCodec) (token : String) (w : World) (e : GraphDbError)
    → (validate_bearer_token config codec token w).0 ≡ err e
    → e.code ≡ ErrorCode.auth_failed
unfolding validate_bearer_token
refusal_code config codec token w =
    let body : (String × String) → JwtHeader → Action (Unit {0}) = λ p header.
      lift (decode_segment codec codec.claims_from_json p.1) >>= checked config header in
    let head : (String × String) → Action (Unit {0}) =
      λ p. lift (decode_segment codec codec.header_from_json p.0) >>= body p in
    bind-Refuses (segments (split_dot token)) head w (segments-Refuses (split_dot token)) (λ p w.
      bind-Refuses (decode_segment codec codec.header_from_json p.0) (body p) w
        (decode_segment-Refuses codec codec.header_from_json p.0)
        (λ header w.
          bind-Refuses (decode_segment codec codec.claims_from_json p.1) (checked config header) w
            (decode_segment-Refuses codec codec.claims_from_json p.1)
            (λ claims w. checked-Refuses config header claims w)))
