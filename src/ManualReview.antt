-- ===== src/ManualReview.antt =====
-- trading/phases/manual_review/requests.py: the requests that pin a ticker. The readings of `now` and the ids of
-- `uuid4` stand in `Source`; times are whole microseconds. A call returns the state with its request or its error.
pub mod Active
mod Tests
use Prim.Native.String.{◌++◌ as concat}
use equity_research_agent.Prelude.{
  ℕ, ◌+◌, String, ◌==◌, Bool, true, false, not, ◌&&◌, ◌||◌, List, [], ◌∷◌, Option, none, some,
  if◌then◌else◌, ltb, eqb, text_le, keep, contains, or_else, get_last?, Dict, lookup, insert,
}
use equity_research_agent.Prelude.Text.{strip, normalize_ticker}
use equity_research_agent.Prelude.Sorting.{sorted}
use equity_research_agent.Prelude.Dicts.{values}

-- `ManualTickerRequest`
pub record ManualTickerRequest : Type 0 where
  pub request_id : String
  pub ticker : String
  pub reason : String
  pub mode : String
  pub status : String
  pub created_at : ℕ
  pub dismissed_at : Option ℕ
  pub cancelled_at : Option ℕ
  pub last_evaluated_at : Option ℕ
  pub latest_result_status : Option String
  pub latest_signal_snapshot_id : Option String

-- `ManualTickerRequestService`: its dictionary, and how often the clock and `uuid4` were read
pub record RequestService : Type 0 where
  pub requests : Dict ManualTickerRequest
  pub readings : ℕ
  pub fresh : ℕ

abbrev pub initial : RequestService
initial = record { requests = []; readings = 0; fresh = 0 }

pub record Source : Type 0 where
  pub now : ℕ → ℕ
  pub uuid4 : ℕ → String

-- a request, or the text of the error that is raised
pub data Result : Type 0 where
  done : ManualTickerRequest → Result
  value_error : String → Result
  key_error : String → Result

abbrev pub request_modes : List String
request_modes = "review_only" ∷ "paper_trade_eligible" ∷ []

abbrev pub active_status : String
active_status = "active"

-- the test of `_active_request_for_ticker`
abbrev pub is_active_for : String → ManualTickerRequest → Bool
is_active_for ticker r = r.status == active_status && r.ticker == ticker

-- `(created_at, text)` as a key to sort by
abbrev pub key_le : ℕ → String → ℕ → String → Bool
key_le a s b t = ltb a b || eqb a b && text_le s t

-- `_active_request_for_ticker`
unfoldable pub active_request_for_ticker : String → RequestService → Option ManualTickerRequest
active_request_for_ticker ticker s = get_last? (
    sorted (λ a b. key_le a.created_at a.request_id b.created_at b.request_id)
      (keep (is_active_for ticker) (values s.requests)))

-- `load_active`
unfoldable pub load_active : RequestService → List ManualTickerRequest
load_active s =
    sorted (λ a b. key_le a.created_at a.ticker b.created_at b.ticker)
      (keep (λ r. r.status == active_status) (values s.requests))

module _ (source : Source) where
  abbrev pub reading : RequestService → ℕ
  reading s = source.now s.readings

  -- `self._requests[k] = request`, after a reading of the clock
  abbrev pub put : String → ManualTickerRequest → RequestService → RequestService
  put k r s = record s { requests = insert k r s.requests; readings = s.readings + 1 }

  -- the cancellation of the active request in `create`
  unfoldable pub cancel_existing : Option ManualTickerRequest → RequestService → RequestService
  cancel_existing none s = s
  cancel_existing (some existing) s =
      put existing.request_id
        (record existing { status = "cancelled"; cancelled_at = some (reading s) }) s

  abbrev pub new_request : String → String → String → RequestService → ManualTickerRequest
  new_request ticker reason mode s = record {
    request_id = source.uuid4 s.fresh;
    ticker = ticker;
    reason = reason;
    mode = mode;
    status = active_status;
    created_at = reading s;
    dismissed_at = none;
    cancelled_at = none;
    last_evaluated_at = none;
    latest_result_status = none;
    latest_signal_snapshot_id = none;
  }

  -- the part of `create` after its checks
  unfoldable pub add_request : String → String → String → RequestService → Result × RequestService
  add_request ticker reason mode s =
      let cleared = cancel_existing (active_request_for_ticker ticker s) s in
      let request = new_request ticker reason mode cleared in
      (done request, record (put request.request_id request cleared) { fresh = cleared.fresh + 1 })

  -- `create`
  unfoldable pub create : String → Option String → String → RequestService → Result × RequestService
  create ticker reason mode s =
      let normalized_ticker = normalize_ticker ticker in
      let normalized_reason = strip (or_else reason "") in
      if normalized_ticker == ""
      then (value_error "manual_request_ticker_required", s)
      else if normalized_reason == ""
      then (value_error "manual_request_reason_required", s)
      else if not (contains request_modes mode)
      then (value_error (concat "unsupported_manual_request_mode:" mode), s)
      else add_request normalized_ticker normalized_reason mode s

  -- `_require` and what follows it
  unfoldable pub update :
      String
      → Option ManualTickerRequest
      → (ManualTickerRequest → ManualTickerRequest)
      → RequestService
      → Result × RequestService
  update request_id none change s = (key_error (concat "manual_request_not_found:" request_id), s)
  update request_id (some r) change s = (done (change r), put request_id (change r) s)

  -- `dismiss`
  unfoldable pub dismiss : String → RequestService → Result × RequestService
  dismiss request_id s =
      update request_id (lookup request_id s.requests)
        (λ r. record r { status = "dismissed"; dismissed_at = some (reading s) }) s

  -- `cancel`
  unfoldable pub cancel : String → RequestService → Result × RequestService
  cancel request_id s =
      update request_id (lookup request_id s.requests)
        (λ r. record r { status = "cancelled"; cancelled_at = some (reading s) }) s

  -- `record_evaluation`
  unfoldable pub record_evaluation :
      String → String → Option String → RequestService → Result × RequestService
  record_evaluation request_id result_status signal_snapshot_id s =
      update request_id (lookup request_id s.requests)
        (λ r. record r {
          last_evaluated_at = some (reading s);
          latest_result_status = some result_status;
          latest_signal_snapshot_id = signal_snapshot_id;
        })
        s
