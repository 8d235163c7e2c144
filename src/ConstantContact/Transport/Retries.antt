-- ===== src/ConstantContact/Transport/Retries.antt =====
-- A request ends, is counted, and is not sent again where it may have taken effect.
use hail_system.Prelude.{
  ℕ, zero, suc, ◌+◌, ◌≤◌, ◌<◌, ◌≡◌, refl, ap, ◌⊎◌, String, true, ◌&&◌, Option, none, some, List, [],
  ◌∷◌, ◌++◌, All, length, leb, arith, if_cases, eq_iff,
}
use hail_system.Exec.{Result, ok, raised}
use hail_system.ConstantContact.Budget.{record_call}
use hail_system.ConstantContact.Transport.{
  Body, blank, garbled, json, Reply, answered, http_error, unreachable, broken, Fail, api, no_token,
  uncaught, Request, Outside, Wire, max_retries, is_idempotent, error_key, Next, done, again,
  is_retried, is_expected, read_body, status_of, step, after_step, attempt_once, request_loop,
  request,
}

-- An answer after which a request may be sent again: it was turned away for its rate, or sending it twice is
-- the same as once.
abbrev pub IsSafe : {D : Type 0} → String → Reply D → Type 0
IsSafe method (answered status body) = ⊥
IsSafe method (http_error status key) =
    ((status ≡ 429) × (error_key key ≡ "throttled")) ⊎ (is_idempotent method ≡ true)
IsSafe method unreachable = is_idempotent method ≡ true
IsSafe method (broken name) = ⊥

-- What the loop makes of an attempt, against its reply.
abbrev pub Fits : {P D : Type 0} → Request P → ℕ → Reply D → Next (ℕ × Option D) → Type 0
Fits req attempt reply (done (ok (status, doc))) =
    (is_expected status req.expect ≡ true) × (status_of reply ≡ some status)
Fits req attempt reply (done (raised (api e))) = status_of reply ≡ e.status
Fits req attempt reply (done (raised (no_token message))) = ⊥
Fits req attempt reply (done (raised (uncaught name))) = reply ≡ broken name
Fits req attempt reply (again wait) = IsSafe req.method reply × (attempt ≤ max_retries)

retried-IsSafe :
    (method : String) (status : ℕ) (key : Option String)
    → is_retried method status (error_key key) ≡ true
    → ((status ≡ 429) × (error_key key ≡ "throttled")) ⊎ (is_idempotent method ≡ true)
retried-IsSafe method status key h = ground (arith, h, eq_iff (error_key key) "throttled")

module _ {P D : Type 0} (req : Request P) (attempt : ℕ) where
  read_body-Fits :
      (status : ℕ) (body : Body D)
      → is_expected status req.expect ≡ true
      → Fits req attempt (answered status body) (read_body status body)
  unfolding read_body
  read_body-Fits status blank h = (h, refl)
  read_body-Fits status garbled h = refl
  read_body-Fits status (json doc) h = (h, refl)

  step-Fits : (reply : Reply D) → Fits req attempt reply (step req attempt reply)
  unfolding step error_key
  step-Fits (answered status body) =
      if_cases (Fits req attempt (answered status body)) (is_expected status req.expect)
        (λ h. read_body-Fits status body h) (λ _. refl)
  step-Fits (http_error status key) =
      if_cases (Fits req attempt (http_error status key)) (is_expected status req.expect)
        (λ h. (h, refl))
        (λ _.
          if_cases (Fits req attempt (http_error status key))
            (is_retried req.method status (error_key key) && leb attempt max_retries)
            (λ h. (retried-IsSafe req.method status key (ground (arith, h)), ground (arith, h)))
            (λ _. refl))
  step-Fits unreachable =
      if_cases (Fits req attempt unreachable) (is_idempotent req.method && leb attempt max_retries)
        (λ h. (ground (arith, h), ground (arith, h))) (λ _. refl)
  step-Fits (broken name) = refl

-- The replies of one request, the newest first, and its result.
abbrev pub IsOutcome :
    {P D : Type 0} → Request P → Result Fail (ℕ × Option D) → List (Reply D) → Type 0
IsOutcome req (ok (status, doc)) (reply ∷ older) =
    (is_expected status req.expect ≡ true)
    × (status_of reply ≡ some status)
    × All (IsSafe req.method) older
IsOutcome req (raised (api e)) (reply ∷ older) =
    (status_of reply ≡ e.status) × All (IsSafe req.method) older
IsOutcome req (raised (no_token message)) replies = All (IsSafe req.method) replies
IsOutcome req (raised (uncaught name)) (reply ∷ older) =
    (reply ≡ broken name) × All (IsSafe req.method) older
IsOutcome req _ [] = ⊥

abbrev pub Ended :
    {W P D : Type 0}
    → Request P
    → Wire W D
    → Option (Result Fail (ℕ × Option D) × Wire W D)
    → Type 0
Ended req s none = ⊥
Ended {D = D} req s (some (r, s')) =
    (new : List (Reply D)) × (s'.replies ≡ new ++ s.replies)
    × (length new ≤ max_retries + 1)
    × (length s'.calls ≡ length s.calls + length new)
    × IsOutcome req r new

module _ {W P D : Type 0} (out : Outside W P D) (req : Request P) (s₀ : Wire W D) where
  -- The loop after the attempts that `older` answered.
  record Going (older : List (Reply D)) (attempt : ℕ) (s : Wire W D) : Type 0 where
    replies : s.replies ≡ older ++ s₀.replies
    attempts : length older ≡ attempt
    calls : length s.calls ≡ length s₀.calls + attempt
    safe : All (IsSafe req.method) older

  after_step-Ended :
      (go : Wire W D → Option (Result Fail (ℕ × Option D) × Wire W D)) (reply : Reply D)
      (older : List (Reply D)) (attempt : ℕ) (s : Wire W D) (n : Next (ℕ × Option D))
      → Fits req (suc attempt) reply n
      → s.replies ≡ reply ∷ (older ++ s₀.replies)
      → length older ≡ attempt
      → attempt ≤ max_retries
      → length s.calls ≡ length s₀.calls + suc attempt
      → All (IsSafe req.method) older
      → (suc attempt ≤ max_retries → Going (reply ∷ older) (suc attempt) s → Ended req s₀ (go s))
      → Ended req s₀ (after_step out req go s n)
  unfolding after_step
  after_step-Ended go reply older attempt s (done (ok (status, doc))) (x, y) e l m c h ih =
      (reply ∷ older, e, omega arith, omega arith, (x, y, h))
  after_step-Ended go reply older attempt s (done (raised (api x))) f e l m c h ih =
      (reply ∷ older, e, omega arith, omega arith, (f, h))
  after_step-Ended go reply older attempt s (done (raised (no_token message))) f e l m c h ih =
      absurd f
  after_step-Ended go reply older attempt s (done (raised (uncaught name))) f e l m c h ih =
      (reply ∷ older, e, omega arith, omega arith, (f, h))
  after_step-Ended go reply older attempt s (again wait) (f, k) e l m c h ih =
      ih k (record { replies = e; attempts = omega arith; calls = c; safe = (f, h) })

  attempt_once-Ended :
      (go : Wire W D → Option (Result Fail (ℕ × Option D) × Wire W D)) (older : List (Reply D))
      (attempt : ℕ) (s : Wire W D) (token : Option String × W)
      → Going older attempt s
      → attempt ≤ max_retries
      → ((older' : List (Reply D)) (s' : Wire W D)
          → suc attempt ≤ max_retries
          → Going older' (suc attempt) s'
          → Ended req s₀ (go s'))
      → Ended req s₀ (attempt_once out req go (suc attempt) s token)
  unfolding attempt_once after_step step read_body error_key record_call
  attempt_once-Ended go older attempt s (some message, w) h m ih =
      (older, h.replies, omega (arith, h.attempts), omega (arith, h.calls, h.attempts), h.safe)
  attempt_once-Ended go older attempt s (none, w) h m ih =
      after_step-Ended go (out.send req w).0 older attempt _
        (step req (suc attempt) (out.send req w).0) (step-Fits req (suc attempt) (out.send req w).0)
        (ap (λ (rs : List (Reply D)). (out.send req w).0 ∷ rs) h.replies) h.attempts m
        (omega (arith, h.calls)) h.safe (λ k g. ih ((out.send req w).0 ∷ older) _ k g)

  request_loop-Ended :
      (fuel : ℕ) (older : List (Reply D)) (attempt : ℕ) (s : Wire W D)
      → Going older attempt s
      → attempt ≤ max_retries
      → max_retries < fuel + attempt
      → Ended req s₀ (request_loop out req fuel attempt s)
  unfolding request_loop
  request_loop-Ended zero older attempt s h m enough = absurd (omega arith)
  request_loop-Ended (suc fuel) older attempt s h m enough =
      attempt_once-Ended _ older attempt s (out.token s.world) h m
        (λ older' s' k g. request_loop-Ended fuel older' (suc attempt) s' g k (omega arith))

-- A request ends within four attempts, each of them counted in cc_api_calls. Every answer but the last was one
-- after which sending again is safe: for a POST only a 429 "throttled", so a POST whose outcome is not known is
-- never sent twice. A returned status is expected and is the last answer's; an ApiError carries the last
-- answer's status, or none where there was no answer. An exception that is not caught is raised at once, by the last
-- attempt.
pub request-Ended :
    {W P D : Type 0} (out : Outside W P D) (req : Request P) (s : Wire W D)
    → Ended req s (request out req (max_retries + 1) s)
unfolding request
request-Ended out req s =
    request_loop-Ended out req s (max_retries + 1) [] 0 s
      (record { replies = refl; attempts = refl; calls = omega arith; safe = tt }) (omega arith)
      (omega arith)
