-- ===== src/Api/Admin/Search.antt =====
-- The audit search of src/api/handlers/admin.ts. `query` is `URLSearchParams.get`, `none` for null.
pub mod Params
pub mod Paging
pub mod Recovered
pub mod OnChain
pub mod Logged
use zuul_proxy.Prelude.{
  ℕ, String, Bool, true, false, ◌&&◌, ◌||◌, not, List, [], ◌∷◌, Option, none, some, map, length,
  ◌==◌, starts_with, if◌then◌else◌,
}
use zuul_proxy.Prelude.Number.{Number, ℤ, pos, nan, int, nat, gt, lt}
use zuul_proxy.Prelude.Text.{concat, strip}
use zuul_proxy.Prelude.ParseInt.{parse_int_decimal}
use zuul_proxy.Types.{PermissionAction, Result, ok, err}
use zuul_proxy.Errors.{ZuulError, new_service_error, minus}
use zuul_proxy.Audit.Payload.{AuditPayload}
use zuul_proxy.Audit.Encryption.{Bytes, Crypto, decrypt}

pub record AuditSearchParams : Type 0 where
  pub agent : Option String
  pub start_time : Option Number
  pub end_time : Option Number
  pub offset : Number
  pub limit : Number
  pub decrypt : Bool

abbrev number_or : Number → Option String → Number
number_or default none = default
number_or default (some s) = parse_int_decimal s

abbrev pub optional_number : Option String → Option Number
optional_number none = none
optional_number (some s) = some (parse_int_decimal s)

abbrev pub is_true : Option String → Bool
is_true none = false
is_true (some s) = s == "true"

-- The parameters as they are read, before the checks.
unfoldable pub read_params : (String → Option String) → AuditSearchParams
unfolding parse_int_decimal
read_params query = record {
  agent = query "agent";
  start_time = optional_number (query "startTime");
  end_time = optional_number (query "endTime");
  offset = number_or (nat 0) (query "offset");
  limit = number_or (nat 50) (query "limit");
  decrypt = is_true (query "decrypt");
}

-- `t !== undefined && t < 0`
abbrev is_negative : Option Number → Bool
is_negative none = false
is_negative (some t) = lt t (nat 0)

-- `startTime !== undefined && endTime !== undefined && startTime > endTime`
abbrev is_reversed : Option Number → Option Number → Bool
is_reversed none e = false
is_reversed (some s) none = false
is_reversed (some s) (some e) = gt s e

-- The three checks; an error is its message.
unfoldable pub check_params : AuditSearchParams → Result String AuditSearchParams
check_params p =
    if lt p.offset (nat 0) || (lt p.limit (nat 1) || gt p.limit (nat 100))
    then err "offset >= 0 and 1 <= limit <= 100"
    else if is_negative p.start_time || is_negative p.end_time
    then err "Timestamps must be non-negative"
    else if is_reversed p.start_time p.end_time
    then err "startTime must be <= endTime"
    else ok p

unfoldable pub parse_audit_search_params :
    (String → Option String) → Result String AuditSearchParams
unfolding check_params read_params
parse_audit_search_params query = check_params (read_params query)

-- The two contract calls: an agent or a time range, then the offset and the limit.
pub data Query : Type 0 where
  by_agent : String → ℤ → ℤ → Query
  by_time : ℤ → ℤ → ℤ → ℤ → Query

-- `e.encryptedPayload`: a falsy value, a text, or a buffer.
pub data StoredPayload : Type 0 where
  absent : StoredPayload
  text : String → StoredPayload
  bytes : Bytes → StoredPayload

pub record ChainEntry : Type 0 where
  pub agent : String
  pub timestamp : ℕ
  pub payload_hash : String
  pub encrypted_payload : StoredPayload

-- What a contract call gives: entries, an error result, or a throw, as it also is when the value
-- has no `map`.
pub data Answer : Type 0 where
  entries : List ChainEntry → Answer
  refused : Answer
  broken : Answer

-- An entry of the result. `payload` is absent, null (`some none`) or the decrypted payload, from
-- which `tool`, `action`, `status` and `errorType` are copied.
pub record SearchEntry : Type 0 where
  pub agent : String
  pub timestamp : ℕ
  pub payload_hash : String
  pub encrypted_payload : Option String
  pub payload : Option (Option AuditPayload)

pub record AuditSearchResult : Type 0 where
  pub query : AuditSearchParams
  pub count : ℕ
  pub entries : List SearchEntry

abbrev service_error : String → ℕ → ℕ → String → ZuulError
service_error message code status error_type =
    new_service_error message (minus code) status error_type []

unavailable : ZuulError
unfolding new_service_error
unavailable = service_error "Blockchain read failed" 32022 503 "service/unavailable"

pub internal : ZuulError
unfolding new_service_error
internal = service_error "Internal error during audit search" 32603 500 "service/internal_error"

pub no_filter : ZuulError
unfolding new_service_error
no_filter =
    service_error "At least one filter required: agent or time range" 32600 400 "request/invalid"

module _ (c : Crypto) (key : Bytes) where
  -- The base64 text that the encryption service is given.
  unfoldable pub to_base64 : String → String
  to_base64 s = elim (strip "0x" s) [ none ↦ s | some rest ↦ c.base64 (c.from_hex rest) ]

  abbrev decrypted : Result ZuulError AuditPayload → Option AuditPayload
  decrypted (ok p) = some p
  decrypted (err e) = none

  -- The fields that the encrypted payload gives: `encryptedPayload` and `payload`.
  unfoldable pub payload_fields :
      Bool → StoredPayload → Option String × Option (Option AuditPayload)
  unfolding to_base64
  payload_fields reveal absent = (none, none)
  payload_fields true (text s) =
      if s == "" then (none, none) else (none, some (decrypted (decrypt c key (to_base64 s))))
  payload_fields false (text s) = if s == "" then (none, none) else (some s, none)
  payload_fields true (bytes b) = (none, some (decrypted (decrypt c key (c.base64 b))))
  payload_fields false (bytes b) = (some (concat "0x" (c.hex b)), none)

  unfoldable pub search_entry : Bool → ChainEntry → SearchEntry
  search_entry reveal e =
      let (hex, payload) = payload_fields reveal e.encrypted_payload in
      record {
        agent = e.agent;
        timestamp = e.timestamp;
        payload_hash = e.payload_hash;
        encrypted_payload = hex;
        payload = payload;
      }

  -- From the answer of the contract call on.
  unfoldable pub after_call : AuditSearchParams → Answer → Result ZuulError AuditSearchResult
  unfolding unavailable internal
  after_call p broken = err internal
  after_call p refused = err unavailable
  after_call p (entries l) =
      ok (record { query = p; count = length l; entries = map (search_entry p.decrypt) l })

  -- `BigInt(t)`, which throws on NaN.
  unfoldable pub time_call :
      (Query → Answer) → AuditSearchParams → Number → Number → Result ZuulError AuditSearchResult
  unfolding internal
  time_call call p (int s) (int e) = after_call p (call (by_time s e (pos 0) (pos 100)))
  time_call call p _ _ = err internal

  abbrev pub time_search :
      (Query → Answer)
      → AuditSearchParams
      → Option Number
      → Option Number
      → Result ZuulError AuditSearchResult
  time_search call p (some s) (some e) = time_call call p s e
  time_search call p _ _ = err no_filter

  -- The branches of the search on the agent; an empty text is no filter.
  abbrev pub search_by :
      (Query → Answer) → AuditSearchParams → Option String → Result ZuulError AuditSearchResult
  search_by call p none = time_search call p p.start_time p.end_time
  search_by call p (some agent) =
      if agent == ""
      then time_search call p p.start_time p.end_time
      else after_call p (call (by_agent agent (pos 0) (pos 100)))

  -- `performAuditSearch`
  unfoldable pub perform_audit_search :
      (Query → Answer) → AuditSearchParams → Result ZuulError AuditSearchResult
  unfolding time_call no_filter after_call
  perform_audit_search call p = search_by call p p.agent
