-- ===== src/Scripts/SearchAudit.antt =====
-- scripts/search-audit.ts: the command line of the audit search. `Args` is what node's `parseArgs`
-- gives; `get_time` is `new Date(s).getTime()` in milliseconds, `none` for NaN. `URLSearchParams`
-- keeps the names and values that were appended, in their order.
pub mod Query
pub mod Accepted
use zuul_proxy.Prelude.{
  ℕ, suc, ◌/◌, String, Bool, true, false, ◌&&◌, ◌||◌, not, List, [], ◌∷◌, ◌++◌, Option, none, some,
  map, eqb, ◌==◌, if◌then◌else◌,
}
use zuul_proxy.Prelude.Dict.{Dict}
use zuul_proxy.Prelude.Number.{ℤ, pos, negsuc, Number, nan, int, nat, lt, gt}
use zuul_proxy.Prelude.ParseInt.{parse_int_decimal}
use zuul_proxy.Prelude.Text.{concat, show}
use zuul_proxy.Types.{Result, ok, err}
use zuul_proxy.Audit.Payload.{AuditPayload}
use zuul_proxy.Api.Admin.Search.{AuditSearchResult, SearchEntry}

pub record Args : Type 0 where
  pub agent : Option String
  pub from : Option String
  pub to : Option String
  pub decrypt : Bool
  pub limit : String
  pub proxy_url : String
  pub help : Bool

pub record SearchOptions : Type 0 where
  pub agent : Option String
  pub start_time : Option ℤ
  pub end_time : Option ℤ
  pub decrypt : Bool
  pub limit : ℤ
  pub proxy_url : String

-- `Math.floor(n / 1000)`
abbrev pub to_seconds : ℤ → ℤ
to_seconds (pos n) = pos (n / 1000)
to_seconds (negsuc n) = negsuc (n / 1000)

-- `parseDate`; an `err` is its throw.
unfoldable pub parse_date : (String → Option ℤ) → String → Result String ℤ
parse_date get_time date_str = elim (get_time date_str) [
  | none ↦ err (
      concat "Invalid date format: "
        (concat date_str ". Use ISO format (YYYY-MM-DD or YYYY-MM-DDTHH:mm:ss)"))
  | some t ↦ ok (to_seconds t)
]

-- `String(n)`
abbrev pub show_ℤ : ℤ → String
show_ℤ (pos n) = show n
show_ℤ (negsuc n) = concat "-" (show (suc n))

-- A parameter that is appended only where its value is there.
abbrev pub when_text : String → Option String → Dict String
when_text name none = []
when_text name (some s) = (name, s) ∷ []

abbrev pub shown : Option ℤ → Option String
shown none = none
shown (some t) = some (show_ℤ t)

abbrev pub when_time : String → Option ℤ → Dict String
when_time name t = when_text name (shown t)

abbrev pub when_true : String → Bool → Dict String
when_true name false = []
when_true name true = (name, "true") ∷ []

-- `buildQueryString`, as the parameters in it. The agent of the options is never empty.
unfoldable pub build_query_string : SearchOptions → Dict String
build_query_string o =
    when_text "agent" o.agent
    ++ (when_time "startTime" o.start_time
        ++ (when_time "endTime" o.end_time
            ++ (when_true "decrypt" o.decrypt ++ ("limit", show_ℤ o.limit) ∷ [])))

-- How the script goes on: it prints its help, exits with the code 1 and a message, or searches.
pub data Plan : Type 0 where
  usage : Plan
  exit : String → Plan
  search : SearchOptions → Plan

-- `values.s ? String(values.s) : undefined`
abbrev pub filled : Option String → Option String
filled none = none
filled (some s) = if s == "" then none else some s

abbrev pub is_there : Option String → Bool
is_there none = false
is_there (some s) = true

-- `isNaN(limit) || limit < 1 || limit > 100`, or else the limit.
abbrev pub limit_of : Number → Option ℤ
limit_of nan = none
limit_of (int n) = if lt (int n) (nat 1) || gt (int n) (nat 100) then none else some n

-- `startTime` and `endTime`, after the dates were read.
abbrev pub start_of : Option (ℤ × ℤ) → Option ℤ
start_of none = none
start_of (some (s, e)) = some s

abbrev pub end_of : Option (ℤ × ℤ) → Option ℤ
end_of none = none
end_of (some (s, e)) = some e

module _ (get_time : String → Option ℤ) where
  -- The dates: both or none of them.
  unfoldable pub time_range : Option String → Option String → Result String (Option (ℤ × ℤ))
  unfolding parse_date
  time_range none none = ok none
  time_range (some from) none = err "Both --from and --to are required together"
  time_range none (some to) = err "Both --from and --to are required together"
  time_range (some from) (some to) = elim (parse_date get_time from) [
    | err message ↦ err message
    | ok start ↦ elim (parse_date get_time to) [
      | err message ↦ err message
      | ok end_time ↦
          if gt (int start) (int end_time)
          then err "--from must be before --to"
          else ok (some (start, end_time))
    ]
  ]

  -- From the limit on.
  unfoldable pub with_limit : Args → Plan
  unfolding time_range
  with_limit args = elim (limit_of (parse_int_decimal args.limit)) [
    | none ↦ exit (concat "limit must be between 1 and 100 (got: " (concat args.limit ")"))
    | some limit ↦ elim (time_range (filled args.from) (filled args.to)) [
      | err message ↦ exit message
      | ok range ↦ search (record {
        agent = filled args.agent;
        start_time = start_of range;
        end_time = end_of range;
        decrypt = args.decrypt;
        limit = limit;
        proxy_url = args.proxy_url;
      })
    ]
  ]

  -- `main`, up to the request.
  unfoldable pub main : Args → Plan
  unfolding with_limit
  main args =
      if args.help
      then usage
      else if is_there (filled args.agent)
          || (is_there (filled args.from) || is_there (filled args.to))
      then with_limit args
      else exit "At least one filter required (--agent or --from/--to)"

-- The part of the URL before the parameters.
abbrev pub search_url : SearchOptions → String
search_url o = concat o.proxy_url "/admin/audit/search?"

-- What is printed of an entry: the payload, the encrypted text, or neither.
pub data Printed : Type 0 where
  payload : AuditPayload → Printed
  encrypted : String → Printed
  bare : Printed

abbrev pub printed_text : Option String → Printed
printed_text none = bare
printed_text (some s) = if s == "" then bare else encrypted s

-- `options.decrypt && entry.payload`
abbrev pub printed_payload : Bool → Option (Option AuditPayload) → Option String → Printed
printed_payload true (some (some p)) text = payload p
printed_payload _ _ text = printed_text text

unfoldable pub print_entry : Bool → SearchEntry → Printed
print_entry decrypt e = printed_payload decrypt e.payload e.encrypted_payload

-- After the answer: an exit, nothing for a count of zero, or the entries.
unfoldable pub print_result : Bool → AuditSearchResult → List Printed
unfolding print_entry
print_result decrypt r = if eqb r.count 0 then [] else map (print_entry decrypt) r.entries
