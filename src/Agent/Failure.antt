-- ===== src/Agent/Failure.antt =====
-- nan/agent/failure.py: which failures of the model call are tried again. An exception is what the
-- code reads of it, and the exceptions it was raised from.
use nan_itself.Base.{
  ℕ, zero, suc, ◌+◌, String, ◌≡◌, refl, Bool, true, false, ◌||◌, Option, none, some, List, [], ◌∷◌,
  arith, leb, if◌then◌else◌, ◌==◌, contains, string_eq, nat_eq,
}

pub data FailureKind : Type 0 where
  retryable fatal cancelled : FailureKind

-- `type(exc).__name__`, `str(exc)`, the two `isinstance` tests, and an integer `status_code`, if it has one.
-- A negative status is no more than zero to the tests.
pub record Raised : Type 0 where
  pub name : String
  pub message : String
  pub is_cancelled : Bool
  pub is_timeout_or_connection : Bool
  pub status : Option ℕ

-- An exception, with its `__cause__`, its `__context__`, both or neither.
pub data Exception : Type 0 where
  plain : Raised → Exception
  caused : Raised → (cause : Exception) → Exception
  during : Raised → (context : Exception) → Exception
  caused_during : Raised → (cause context : Exception) → Exception

abbrev pub head : Exception → Raised
head (plain r) = r
head (caused r c) = r
head (during r c) = r
head (caused_during r c d) = r

abbrev pub retryable_names : List String
retryable_names =
    "APIConnectionError" ∷ "APITimeoutError" ∷ "RateLimitError" ∷ "InternalServerError"
    ∷ "ConnectError" ∷ "ConnectTimeout" ∷ "ReadError" ∷ "ReadTimeout" ∷ "WriteError"
    ∷ "WriteTimeout" ∷ "PoolTimeout" ∷ "RemoteProtocolError" ∷ "ProtocolError" ∷ "TransportError"
    ∷ "TimeoutException" ∷ []

abbrev pub max_cause_depth : ℕ
max_cause_depth = 4

-- What one exception says by itself, before its cause is asked: the tests of `_retryable` in
-- their order, down to the depth test.
abbrev by_name : Raised → Option Bool
by_name r = if contains retryable_names r.name then some true else none

abbrev by_status : Option ℕ → Raised → Option Bool
by_status none r = by_name r
by_status (some s) r =
    if s == 429 || leb 500 s then some true else if leb 400 s then some false else by_name r

unfoldable pub verdict : Raised → Option Bool
verdict r = if r.is_timeout_or_connection then some true else by_status r.status r

-- The end of `_retryable`: the verdict, or that of the cause unless the depth is reached.
abbrev or_cause : Option Bool → (depth : ℕ) → Bool → Bool
or_cause (some b) depth rest = b
or_cause none depth rest = if leb max_cause_depth depth then false else rest

unfoldable pub is_retryable : Exception → (depth : ℕ) → Bool
is_retryable (plain r) depth = or_cause (verdict r) depth false
is_retryable (caused r c) depth = or_cause (verdict r) depth (is_retryable c (suc depth))
is_retryable (during r c) depth = or_cause (verdict r) depth (is_retryable c (suc depth))
is_retryable (caused_during r c d) depth = or_cause (verdict r) depth (is_retryable c (suc depth))

unfoldable pub classify : Exception → FailureKind
classify e =
    if (head e).is_cancelled then cancelled else if is_retryable e 0 then retryable else fatal

-- The exceptions that are asked: each one's cause, or its context where it has no cause.
abbrev pub chain : Exception → List Raised
chain (plain r) = r ∷ []
chain (caused r c) = r ∷ chain c
chain (during r c) = r ∷ chain c
chain (caused_during r c d) = r ∷ chain c

-- The first verdict among the first `n` exceptions of a chain.
pub first_verdict : (n : ℕ) → List Raised → Bool
first_verdict zero rs = false
first_verdict (suc n) [] = false
first_verdict (suc n) (r ∷ rs) = elim (verdict r) [ some b ↦ b | none ↦ first_verdict n rs ]

is_retryable-eq-first_verdict :
    (e : Exception) (n depth : ℕ)
    → depth + n ≡ 4
    → is_retryable e depth ≡ first_verdict (suc n) (chain e)
unfolding is_retryable first_verdict
is_retryable-eq-first_verdict (plain r) zero depth h = ground arith
is_retryable-eq-first_verdict (plain r) (suc n) depth h = ground arith
is_retryable-eq-first_verdict (caused r c) zero depth h = ground arith
is_retryable-eq-first_verdict (caused r c) (suc n) depth h =
    ground (arith, is_retryable-eq-first_verdict c n (suc depth) (omega arith))
is_retryable-eq-first_verdict (during r c) zero depth h = ground arith
is_retryable-eq-first_verdict (during r c) (suc n) depth h =
    ground (arith, is_retryable-eq-first_verdict c n (suc depth) (omega arith))
is_retryable-eq-first_verdict (caused_during r c d) zero depth h = ground arith
is_retryable-eq-first_verdict (caused_during r c d) (suc n) depth h =
    ground (arith, is_retryable-eq-first_verdict c n (suc depth) (omega arith))

-- A failure is classified by the first of its five outermost exceptions that says anything: a
-- cancellation is never tried again, and any other failure is tried again exactly when that
-- exception says so. Nothing behind the fifth exception of the chain is read.
pub classify_lem :
    (e : Exception)
    → classify e ≡ (
        if (head e).is_cancelled
        then cancelled
        else if first_verdict 5 (chain e)
        then retryable
        else fatal)
unfolding classify
classify_lem e = rw (is_retryable-eq-first_verdict e 4 0 refl)

-- `Unrecoverable(reason)`
abbrev pub unrecoverable : (reason : String) → Raised
unrecoverable reason = record {
  name = "Unrecoverable";
  message = reason;
  is_cancelled = false;
  is_timeout_or_connection = false;
  status = none;
}
