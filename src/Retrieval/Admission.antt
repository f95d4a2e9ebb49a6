-- ===== src/Retrieval/Admission.antt =====
-- What the admission of a request promises to the operation that runs it.
use aira_graphdb.Base.{ℕ, ◌≤◌, ◌≡◌, string_eq, false, not, ◌||◌, refl, ap, arith, ltb, nat_eq}
use mathlib.Core.Path.{subst}
use aira_graphdb.HashMap
use aira_graphdb.Retrieval.Caps
use aira_graphdb.Retrieval.Pointer.{Outcome, gives}
use aira_graphdb.Retrieval.Values.{Floats}
use aira_graphdb.Retrieval.Budget.{for_request}
use aira_graphdb.Retrieval.Bounds.{IsWithin, for_request-IsWithin}
use aira_graphdb.Retrieval.Usage.{IsUsageOf}
use aira_graphdb.Retrieval.Counted.{usage_of-IsUsageOf}
use aira_graphdb.Retrieval.Deadline.{least, max_operation_deadline_ms}
use aira_graphdb.Retrieval.Admit.{
  ProducerContract, BoundedRequest, ReaderState, idle, recovery_pending, busy, RequestAdmission,
  from_checked, refuse_if, is_idle, no_normalizer, validate_semantic_request, admit_request,
}
use aira_graphdb.Retrieval.Exchange.{
  bind_gives, gives_injective, refuse_if_gives, from_checked_gives, IsRequest,
  validate_semantic_request_iff,
}

idle_lem : (state : ReaderState) → not (is_idle state) ≡ false → state ≡ idle
idle_lem idle h = refl
idle_lem recovery_pending h = absurd cc
idle_lem busy h = absurd cc

module _ (f : Floats) (contract : Outcome ProducerContract) (references : ℕ) where
  -- What the admission of a request promises.
  pub record IsAdmitted (request : BoundedRequest) (committed : ℕ) (state : ReaderState)
      (admission : RequestAdmission) : Type 0 where
    pub same_generation : request.expected_generation ≡ committed
    pub generation_safe : committed ≤ Caps.max_safe_generation
    pub reader_idle : state ≡ idle
    pub is_request :
        IsRequest f contract references request.method request.params
          (no_normalizer f contract references)
    pub usage_stated : IsUsageOf request.method request.params admission.resource_usage
    pub usage_within : IsWithin admission.resource_usage
    pub remainder_owned : admission.native_remainder_ms ≤ request.remaining_budget_ms
    pub remainder_capped : admission.native_remainder_ms ≤ max_operation_deadline_ms

  -- A bounded request that is admitted asks for the committed generation, which JSON holds exactly,
  -- while the reader is idle. Its parameters conform to the schema of its method in the pinned
  -- contract, and every assertion of the contract on them evaluates to true. Its usage counts what
  -- the parameters state: for a search the slots, the greatest dimension of a query vector, the
  -- greatest limit and the sum of the limits; for an expansion of facts its seeds and its limit;
  -- for a page rank its seeds, its iterations, the limits of passages and of entities, and their
  -- sum; all else is 0 at admission. No number of it is above its cap. Its time is at most what the
  -- owner left and at most a minute.
  pub admit_request-IsAdmitted :
      (request : BoundedRequest) (committed : ℕ) (state : ReaderState)
      (admission : RequestAdmission)
      → admit_request f contract references request committed state ≡ gives admission
      → IsAdmitted request committed state admission
  unfolding admit_request validate_semantic_request
  admit_request-IsAdmitted request committed state admission h =
      let (_, (safe, h1)) =
        bind_gives
          (refuse_if
            (ltb Caps.max_safe_generation request.expected_generation
              || ltb Caps.max_safe_generation committed)
            _)
          _ admission h in
      let (_, (same, h2)) =
        bind_gives (refuse_if (not (nat_eq request.expected_generation committed)) _) _ admission
          h1 in
      let (_, (ready, h3)) = bind_gives (refuse_if (not (is_idle state)) _) _ admission h2 in
      let (c, (pinned, h4)) = bind_gives contract _ admission h3 in
      let (_, (known, h5)) =
        bind_gives (refuse_if (not (HashMap.contains_key request.method c.operations)) _) _
          admission h4 in
      let (_, (validated, h6)) =
        bind_gives (validate_semantic_request f contract references request.method request.params) _
          admission h5 in
      let (usage, (used, h7)) =
        bind_gives (from_checked (for_request request.method request.params)) _ admission h6 in
      let is_safe =
        refuse_if_gives
          (ltb Caps.max_safe_generation request.expected_generation
            || ltb Caps.max_safe_generation committed)
          _ _ safe in
      let is_same = refuse_if_gives (not (nat_eq request.expected_generation committed)) _ _ same in
      let usage_kept : usage ≡ admission.resource_usage =
        ap (λ a. a.resource_usage) (gives_injective h7) in
      let remainder : least request.remaining_budget_ms max_operation_deadline_ms
          ≡ admission.native_remainder_ms =
        ap (λ a. a.native_remainder_ms) (gives_injective h7) in
      let within =
        for_request-IsWithin request.method request.params usage
          (from_checked_gives _ usage used) in
      record {
        same_generation = ground (arith, is_same);
        generation_safe = ground (arith, is_safe);
        reader_idle = idle_lem state (refuse_if_gives _ _ _ ready);
        is_request =
            (validate_semantic_request_iff f contract references request.method request.params
                (no_normalizer f contract references)).0
              validated;
        usage_stated =
            subst (IsUsageOf request.method request.params) usage_kept
              (usage_of-IsUsageOf request.method request.params usage within.0);
        usage_within = subst IsWithin usage_kept within.1;
        remainder_owned = ground (arith, remainder);
        remainder_capped = ground (arith, remainder);
      }
