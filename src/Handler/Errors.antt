-- ===== src/Handler/Errors.antt =====
-- internal/handler/errors.go and the Result of handler.go: how the queue classifies the error of an
-- action. The chain of wrapped errors is given by what errors.Is and errors.As find in it.
use general_webhook.Base.{
  ℕ, String, Bool, false, Option, none, some, ◌||◌, not, leb, ◌==◌, ltb, ℤ, pos, negsuc, ◌/◌, ◌*◌,
  ◌-◌, str_eq, if◌then◌else◌, min, ◌≤◌, arith, Bool-cases, Option-cases, inl, inr,
}

pub record HttpError : Type 0 where
  pub status : ℕ
  pub body : String
  pub retry_after : ℕ

-- `marked` and `canceled`: ErrNonRetryable and context.Canceled stand in the chain themselves.
pub record ActionError : Type 0 where
  pub http : Option HttpError
  pub marked : Bool
  pub canceled : Bool
  pub message : String

pub record Outcome : Type 0 where
  pub target : String
  pub detail : String
  pub error : Option ActionError

unfoldable pub retryable : HttpError → Bool
retryable e = e.status == 408 || (e.status == 429 || leb 500 e.status)

-- errors.Is asks HTTPError.Is of the HTTPError in the chain, and errors.As finds the same one.
unfoldable pub is_non_retryable : ActionError → Bool
unfolding retryable
is_non_retryable e = e.marked || elim e.http [ none ↦ false | some h ↦ not (retryable h) ]

-- A RetryAfter that is not positive is the same as none.
unfoldable pub retry_after : ActionError → ℕ
retry_after e = elim e.http [ none ↦ 0 | some h ↦ h.retry_after ]

-- time.Duration(1<<63 - 1)
abbrev pub max_duration : ℕ
max_duration = 9_223_372_036_854_775_807

-- The seconds of a Retry-After header, of which more than a Duration can hold are the longest one.
unfoldable pub seconds_after : ℤ → ℕ
seconds_after (pos n) =
    if ltb (max_duration / 1_000_000_000) n then max_duration else n * 1_000_000_000
seconds_after (negsuc n) = 0

-- ParseRetryAfter, where `parse_int` is strconv.ParseInt in base 10 and 64 bits, and `parse_time`
-- http.ParseTime as a time in nanoseconds. time.Time.Sub stops at the longest Duration.
unfoldable pub parse_retry_after :
    (String → String) → (String → Option ℤ) → (String → Option ℕ) → String → ℕ → ℕ
unfolding seconds_after
parse_retry_after trim_space parse_int parse_time raw now =
    let text = trim_space raw in
    if str_eq text "" then 0 else elim (parse_int text) [
      | some n ↦ seconds_after n
      | none ↦ elim (parse_time text) [ none ↦ 0 | some t ↦ min (t - now) max_duration ]
    ]

seconds_after-fits : (n : ℤ) → seconds_after n ≤ max_duration
unfolding seconds_after
seconds_after-fits (pos n) = ground arith
seconds_after-fits (negsuc n) = omega arith

-- Whatever the header says, its delay is one that 64 bits hold: the seconds do not overflow.
pub parse_retry_after-fits :
    (trim_space : String → String) (parse_int : String → Option ℤ) (parse_time : String → Option ℕ)
    (raw : String) (now : ℕ)
    → parse_retry_after trim_space parse_int parse_time raw now ≤ max_duration
unfolding parse_retry_after
parse_retry_after-fits trim_space parse_int parse_time raw now =
    elim (Bool-cases (str_eq (trim_space raw) "")) [
      | inl p ↦ rw p (omega arith)
      | inr p ↦ elim (Option-cases (parse_int (trim_space raw))) [
        | inr (n, e) ↦ rw (p, e) (seconds_after-fits n)
        | inl e ↦ elim (Option-cases (parse_time (trim_space raw))) [
          | inl f ↦ rw (p, e, f) (omega arith)
          | inr (t, f) ↦ rw (p, e, f) (omega arith)
        ]
      ]
    ]
