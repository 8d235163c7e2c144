-- ===== src/ConstantContact/Transport.antt =====
-- `request` of constantcontact/api.py: one request with its retries. `W` is the state of the outside world, `P`
-- what a request carries besides its method and path, `D` a parsed answer. `record_call` drops the query of a path,
-- so that the path is passed to it whole.
pub mod Retries
use Prim.Native.Char.{code}
use Prim.Native.String
use hail_system.Prelude.{
  ℕ, zero, suc, ◌-◌, ◌+◌, ◌^◌, String, Bool, true, false, ◌&&◌, ◌||◌, Option, none, some, List, [],
  ◌∷◌, any, leb, ◌==◌, str_eq, if◌then◌else◌,
}
use hail_system.Text.{◌⊕◌, is_upper_letter, is_lower_letter, is_digit, all_chars, size, decimal}
use hail_system.Exec.{Result, ok, raised}
use hail_system.ConstantContact.Errors.{ApiError}
use hail_system.ConstantContact.Budget.{ApiCall, record_call}

pub data Body (D : Type 0) : Type 0 where
  blank garbled : Body D
  json : D → Body D

-- What one attempt comes to. An error answer carries its "error_key", where that is a text.
pub data Reply (D : Type 0) : Type 0 where
  answered : ℕ → Body D → Reply D
  http_error : ℕ → Option String → Reply D
  unreachable : Reply D
  -- an exception that `request` does not catch, such as http.client's of a body cut short, by its class
  broken : String → Reply D

-- `no_token` is the OAuthError of `_token`, with its message; `uncaught` is any other exception, with its class.
pub data Fail : Type 0 where
  api : ApiError → Fail
  no_token : String → Fail
  uncaught : String → Fail

pub record Request (P : Type 0) : Type 0 where
  pub method : String
  pub path : String
  pub payload : P
  pub expect : List ℕ

pub record Outside (W P D : Type 0) : Type 0 where
  pub now : W → ℕ
  -- `oauth.get_access_token`; the text is an OAuthError's message
  pub token : W → Option String × W
  pub send : Request P → W → Reply D × W

-- The world, the rows of cc_api_calls, and the replies so far, the newest first.
pub record Wire (W D : Type 0) : Type 0 where
  pub world : W
  pub calls : List ApiCall
  pub replies : List (Reply D)

abbrev pub max_retries : ℕ
max_retries = 3

abbrev pub is_idempotent : String → Bool
is_idempotent method = str_eq method "GET" || str_eq method "PUT" || str_eq method "DELETE"

abbrev pub is_retry_status : ℕ → Bool
is_retry_status status = status == 500 || status == 502 || status == 503 || status == 504

-- [A-Za-z0-9_.-]{1,60}
unfoldable pub is_key : String → Bool
unfolding size
is_key s =
    all_chars
      (λ c.
        is_upper_letter c
        || is_lower_letter c
        || is_digit c
        || code c == 95
        || code c == 46
        || code c == 45)
      s
    && leb 1 (size s)
    && leb (size s) 60

-- `_error_key`
unfoldable pub error_key : Option String → String
error_key none = "unknown"
error_key (some s) = if is_key s then s else "unknown"

abbrev pub is_expected : ℕ → List ℕ → Bool
is_expected status expect = any (λ s. s == status) expect

-- After an attempt: out of the loop, or round after a sleep.
pub data Next (A : Type 0) : Type 0 where
  done : Result Fail A → Next A
  again : ℕ → Next A

abbrev pub fail_with : {A : Type 0} → String → Option ℕ → Option String → Next A
fail_with message status key =
    done (raised (api (record { message = message; status = status; key = key })))

-- The test for another attempt.
abbrev pub is_retried : String → ℕ → String → Bool
is_retried method status key =
    (status == 429 && str_eq key "throttled") || (is_retry_status status && is_idempotent method)

module _ {D : Type 0} where
  unfoldable pub read_body : ℕ → Body D → Next (ℕ × Option D)
  read_body status blank = done (ok (status, none))
  read_body status (json doc) = done (ok (status, some doc))
  read_body status garbled =
      fail_with "Constant Contact's answer could not be read." (some status) none

  abbrev pub status_of : Reply D → Option ℕ
  status_of (answered status body) = some status
  status_of (http_error status key) = some status
  status_of unreachable = none
  status_of (broken name) = none

module _ {P D : Type 0} where
  -- The body of the loop after the attempt.
  unfoldable pub step : Request P → ℕ → Reply D → Next (ℕ × Option D)
  unfolding read_body error_key decimal
  step req attempt (http_error status key) =
      if is_expected status req.expect
      then done (ok (status, none))
      else if is_retried req.method status (error_key key) && leb attempt max_retries
      then again (2 ^ (attempt - 1))
      else fail_with
          ("Constant Contact refused the request (" ⊕ decimal status ⊕ ", " ⊕ error_key key ⊕ ").")
          (some status) (some (error_key key))
  step req attempt unreachable =
      if is_idempotent req.method && leb attempt max_retries
      then again (2 ^ (attempt - 1))
      else fail_with "Couldn't reach Constant Contact." none none
  step req attempt (answered status body) =
      if is_expected status req.expect
      then read_body status body
      else fail_with ("Constant Contact answered unexpectedly (" ⊕ decimal status ⊕ ").")
          (some status) none
  step req attempt (broken name) = done (raised (uncaught name))

module _ {W P D : Type 0} (out : Outside W P D) (req : Request P) where
  -- Where the loop goes after an attempt; `go` is the next round.
  unfoldable pub after_step :
      (Wire W D → Option (Result Fail (ℕ × Option D) × Wire W D))
      → Wire W D
      → Next (ℕ × Option D)
      → Option (Result Fail (ℕ × Option D) × Wire W D)
  after_step go s (done r) = some (r, s)
  after_step go s (again wait) = go s

  -- One attempt, counted before it is made.
  unfoldable pub attempt_once :
      (Wire W D → Option (Result Fail (ℕ × Option D) × Wire W D))
      → ℕ
      → Wire W D
      → Option String × W
      → Option (Result Fail (ℕ × Option D) × Wire W D)
  unfolding after_step step record_call
  attempt_once go attempt s (some message, w) =
      some (raised (no_token message), record s { world = w })
  attempt_once go attempt s (none, w) =
      let (reply, w') = out.send req w in
      after_step go
        (record {
          world = w';
          calls = record_call req.method req.path (out.now w) s.calls;
          replies = reply ∷ s.replies;
        })
        (step req attempt reply)

  -- `while True`, on fuel
  unfoldable pub request_loop : ℕ → ℕ → Wire W D → Option (Result Fail (ℕ × Option D) × Wire W D)
  unfolding attempt_once
  request_loop zero attempt s = none
  request_loop (suc fuel) attempt s =
      attempt_once (request_loop fuel (suc attempt)) (suc attempt) s (out.token s.world)

  -- `request`
  unfoldable pub request : ℕ → Wire W D → Option (Result Fail (ℕ × Option D) × Wire W D)
  unfolding request_loop
  request fuel s = request_loop fuel 0 s
