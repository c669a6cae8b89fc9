-- ===== src/Gmc/Retries.antt =====
-- The retries of `do`, internal/gmc/client.go: what is sent, what is waited and what comes back.
use shopify_gmc.Base.{
  ℕ, zero, suc, ◌+◌, ◌≤◌, ◌<◌, ◌*◌, ◌^◌, ◌≡◌, refl, sym, ap, ◌∙◌, String, Bool, true, false, not,
  Option, none, some, [], ◌==◌, string_eq, nat_eq, if◌then◌else◌, ◌||◌, leb, All, arith, Bool-cases,
  length, ◌⊎◌, inl, inr,
}
use shopify_gmc.Base.Int.{ℤ, pos, negsuc}
use shopify_gmc.Gmc.{
  decoded, unauthorized, rate_limited, bad_status, transport, Reply, broken, replied, Result,
  Client, Step, settled, again, Run, step_of, wait_of, backoff, retry_wait, capped, duration, hour,
  last_run, resume, attempts_from, request, max_retries_of,
}

-- A failure of the network, 429, and a status from 500 on are tried again.
pub is_retryable : Reply → Bool
is_retryable broken = true
is_retryable (replied status retry_after body) = status == 429 || leb 500 status

capped-le : (d : ℕ) → capped d ≤ hour
capped-le d = ground arith

module _ {ℓ} {A : Type ℓ} (c : Client A) where
  backoff-le : (attempt : ℕ) → backoff c attempt ≤ hour
  backoff-le attempt =
      capped-le (duration (2 ^ attempt * (30 * 10 ^ 9) + c.milliseconds attempt * 10 ^ 6))

  retry_wait-le : (attempt : ℕ) (o : Option ℤ) → retry_wait c attempt o ≤ hour
  retry_wait-le attempt none = backoff-le attempt
  retry_wait-le attempt (some (negsuc n)) = backoff-le attempt
  retry_wait-le attempt (some (pos zero)) = backoff-le attempt
  retry_wait-le attempt (some (pos (suc n))) = capped-le (duration (suc n * 10 ^ 9))

  wait_of-le : (attempt : ℕ) (retry_after : String) → wait_of c attempt retry_after ≤ hour
  unfolding wait_of
  wait_of-le attempt retry_after = elim (Bool-cases (retry_after == "")) [
    | inl absent ↦ rw absent (backoff-le attempt)
    | inr given ↦ rw given (retry_wait-le attempt (c.atoi retry_after))
  ]

  -- What a reply leaves `do` with when no attempt follows it.
  abbrev pub result_of : Step A → Result A
  result_of (settled r) = r
  result_of (again r retry_after) = r

  -- What a reply means to the caller, whether it is tried again or not.
  pub verdict : Reply → Result A
  verdict broken = transport
  verdict (replied status retry_after body) =
      if status == 200 || status == 201 || status == 204
      then decoded (c.decode body)
      else if status == 401 || status == 403
      then unauthorized
      else if status == 429
      then rate_limited
      else bad_status status

  result_of-step_of : (reply : Reply) → result_of (step_of c reply) ≡ verdict reply
  unfolding step_of verdict
  result_of-step_of broken = refl
  result_of-step_of (replied status retry_after body) = ground arith

  repeats : Step A → Bool
  repeats (settled r) = false
  repeats (again r retry_after) = true

  repeats-step_of : (reply : Reply) → repeats (step_of c reply) ≡ is_retryable reply
  unfolding step_of is_retryable repeats
  repeats-step_of broken = refl
  repeats-step_of (replied status retry_after body) = ground arith

  -- The requests numbered from `attempt` on, `left` more than one of them at most.
  pub record IsRun (left attempt : ℕ) (run : Run A) : Type ℓ where
    pub sent : 1 ≤ run.requests
    pub bounded : run.requests ≤ suc left
    pub earlier :
        (j : ℕ) → attempt ≤ j → suc j < attempt + run.requests → is_retryable (c.answer j) ≡ true
    pub last : (j : ℕ) → suc j ≡ attempt + run.requests → run.result ≡ verdict (c.answer j)
    pub gives_up :
        (j : ℕ)
        → suc j ≡ attempt + run.requests
        → is_retryable (c.answer j) ≡ true
        → run.requests ≡ suc left
    pub waited : suc (length run.waits) ≡ run.requests
    pub short : All (λ w. w ≤ hour) run.waits

  only : {attempt j : ℕ} → suc j ≡ attempt + 1 → j ≡ attempt
  only e = omega (arith, e)

  le_cases : {i j : ℕ} → i ≤ j → (i ≡ j) ⊎ (suc i ≤ j)
  le_cases h = ground (arith, h)

  once :
      (left attempt : ℕ) (result : Result A)
      → result ≡ verdict (c.answer attempt)
      → (is_retryable (c.answer attempt) ≡ true → left ≡ 0)
      → IsRun left attempt (record { result = result; requests = 1; waits = [] })
  once left attempt result same settles = record {
    sent = omega arith;
    bounded = omega arith;
    earlier = λ j low high. ground (arith, low, high);
    last = λ j here. rw (only here) same;
    gives_up = λ j here tried. ap suc (sym (settles (rw (only here) at tried)));
    waited = refl;
    short = tt;
  }

  module _ (attempt : ℕ) where
    settled_once :
        (r : Result A)
        → step_of c (c.answer attempt) ≡ settled r
        → is_retryable (c.answer attempt) ≡ false
    unfolding repeats
    settled_once r is = sym (repeats-step_of (c.answer attempt)) ∙ ap repeats is

    again_once :
        (r : Result A) (retry_after : String)
        → step_of c (c.answer attempt) ≡ again r retry_after
        → is_retryable (c.answer attempt) ≡ true
    unfolding repeats
    again_once r retry_after is = sym (repeats-step_of (c.answer attempt)) ∙ ap repeats is

    last_verdict :
        (s : Step A) → step_of c (c.answer attempt) ≡ s → result_of s ≡ verdict (c.answer attempt)
    last_verdict s is = sym (ap result_of is) ∙ result_of-step_of (c.answer attempt)

    last-IsRun : (s : Step A) → step_of c (c.answer attempt) ≡ s → IsRun 0 attempt (last_run c s)
    last-IsRun (settled r) is = once 0 attempt r (last_verdict (settled r) is) (λ tried. refl)
    last-IsRun (again r retry_after) is =
        once 0 attempt r (last_verdict (again r retry_after) is) (λ tried. refl)

    resume-IsRun :
        (left : ℕ) (s : Step A) (rest : Run A)
        → step_of c (c.answer attempt) ≡ s
        → IsRun left (suc attempt) rest
        → IsRun (suc left) attempt (resume c attempt s rest)
    resume-IsRun left (settled r) rest is h =
        once (suc left) attempt r (last_verdict (settled r) is)
          (λ tried. cc (settled_once r is, tried))
    resume-IsRun left (again r retry_after) rest is h = record {
      sent = omega arith;
      bounded = omega (arith, h.bounded);
      earlier = λ j low high. elim (le_cases low) [
        | inl here ↦ rw (sym here) (again_once r retry_after is)
        | inr later ↦ h.earlier j later (omega (arith, high))
      ];
      last = λ j here. h.last j (omega arith);
      gives_up = λ j here tried. ap suc (h.gives_up j (omega arith) tried);
      waited = ap suc h.waited;
      short = (wait_of-le attempt retry_after, h.short);
    }

  attempts_from-IsRun : (left attempt : ℕ) → IsRun left attempt (attempts_from c left attempt)
  unfolding attempts_from
  attempts_from-IsRun zero attempt = last-IsRun attempt (step_of c (c.answer attempt)) refl
  attempts_from-IsRun (suc left) attempt =
      resume-IsRun attempt left (step_of c (c.answer attempt)) (attempts_from c left (suc attempt))
        refl (attempts_from-IsRun left (suc attempt))

  sent_when :
      (token : Bool) (unsent run : Run A) (left attempt : ℕ)
      → token ≡ true
      → IsRun left attempt run
      → IsRun left attempt (if not token then unsent else run)
  sent_when true unsent run left attempt given h = h
  sent_when false unsent run left attempt given h = cc given

  -- With a token, `do` sends a request again just as long as the reply is a failure of the network,
  -- 429 or a status from 500 on, and at most MaxRetries times more (4 where it is 0): every reply but
  -- the last is of that kind, the result is what the last reply means, and where that one is of
  -- the kind too, all attempts are used up. Between two requests it sleeps once, for an hour at most,
  -- whatever Retry-After says.
  pub request_lem :
      c.has_token ≡ true → IsRun (if c.max_retries == 0 then 4 else c.max_retries) 0 (request c)
  unfolding request
  request_lem token =
      sent_when c.has_token _ _ (max_retries_of c.max_retries) 0 token
        (attempts_from-IsRun (max_retries_of c.max_retries) 0)
