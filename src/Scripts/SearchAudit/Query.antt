-- ===== src/Scripts/SearchAudit/Query.antt =====
-- What the proxy reads from the parameters that scripts/search-audit.ts sends
-- (src/api/handlers/admin.ts).
use zuul_proxy.Prelude.{
  ℕ, String, ◌≡◌, refl, ap, Bool, true, false, [], ◌∷◌, ◌++◌, Option, none, some, ◌==◌,
  if◌then◌else◌, arith,
}
use zuul_proxy.Prelude.Dict.{Dict, get}
use zuul_proxy.Prelude.Number.{ℤ, pos, negsuc, Number, int, nat}
use zuul_proxy.Prelude.ParseInt.Decimal.{parse_int_decimal-show}
use zuul_proxy.Api.Admin.Search.{AuditSearchParams, optional_number, is_true, read_params}
use zuul_proxy.Scripts.SearchAudit.{
  SearchOptions, show_ℤ, when_text, when_true, shown, build_query_string,
}

-- A text of JavaScript's `URLSearchParams.get`, over parameters in their order.
or_else : Option String → Option String → Option String
or_else none b = b
or_else (some a) b = some a

get-append : (k : String) (a b : Dict String) → get k (a ++ b) ≡ or_else (get k a) (get k b)
unfolding get or_else
get-append k [] b = refl
get-append k ((j, v) ∷ a) b = ground (arith, get-append k a b)

get-when_text :
    (k name : String) (o : Option String)
    → get k (when_text name o) ≡ (if name == k then o else none)
unfolding get
get-when_text k name none = ground arith
get-when_text k name (some s) = refl

get-when_true :
    (k name : String) (b : Bool)
    → get k (when_true name b) ≡ (if name == k then (if b then some "true" else none) else none)
unfolding get
get-when_true k name true = refl
get-when_true k name false = ground arith

abbrev pub number_of : Option ℤ → Option Number
number_of none = none
number_of (some t) = some (int t)

-- What the options mean to the proxy.
abbrev pub params : SearchOptions → AuditSearchParams
params o = record {
  agent = o.agent;
  start_time = number_of o.start_time;
  end_time = number_of o.end_time;
  offset = nat 0;
  limit = int o.limit;
  decrypt = o.decrypt;
}

-- Not before 1970, where it is there.
abbrev pub IsSince1970 : Option ℤ → Type 0
IsSince1970 none = Unit
IsSince1970 (some (pos n)) = Unit
IsSince1970 (some (negsuc n)) = ⊥

or_else-none : (o : Option String) → or_else o none ≡ o
unfolding or_else
or_else-none none = refl
or_else-none (some s) = refl

abbrev true_text : Bool → Option String
true_text b = if b then some "true" else none

module _ (o : SearchOptions) where
  abbrev pub query : String → Option String
  query k = get k (build_query_string o)

  query_agent : query "agent" ≡ o.agent
  unfolding build_query_string get or_else
  query_agent = simp (get-append, get-when_text, get-when_true) (or_else-none o.agent)

  query_start : query "startTime" ≡ shown o.start_time
  unfolding build_query_string get or_else
  query_start = simp (get-append, get-when_text, get-when_true) (or_else-none (shown o.start_time))

  query_end : query "endTime" ≡ shown o.end_time
  unfolding build_query_string get or_else
  query_end = simp (get-append, get-when_text, get-when_true) (or_else-none (shown o.end_time))

  query_decrypt : query "decrypt" ≡ true_text o.decrypt
  unfolding build_query_string get or_else
  query_decrypt =
      simp (get-append, get-when_text, get-when_true) (or_else-none (true_text o.decrypt))

  query_limit : query "limit" ≡ some (show_ℤ o.limit)
  unfolding build_query_string get or_else
  query_limit = simp (get-append, get-when_text, get-when_true) refl

  query_offset : query "offset" ≡ none
  unfolding build_query_string get or_else
  query_offset = simp (get-append, get-when_text, get-when_true) refl

number_of-shown : (t : Option ℤ) → IsSince1970 t → optional_number (shown t) ≡ number_of t
number_of-shown none h = refl
number_of-shown (some (pos n)) h = ap some (parse_int_decimal-show n)
number_of-shown (some (negsuc n)) h = absurd h

is_true-true_text : (b : Bool) → is_true (true_text b) ≡ b
is_true-true_text true = refl
is_true-true_text false = refl

pub read_params-query :
    (o : SearchOptions) (n : ℕ)
    → IsSince1970 o.start_time
    → IsSince1970 o.end_time
    → o.limit ≡ pos n
    → read_params (query o) ≡ params o
unfolding read_params
read_params-query o n start_ok end_ok limit =
    rw
      (
        query_agent o,
        query_start o,
        query_end o,
        query_decrypt o,
        query_limit o,
        query_offset o,
        number_of-shown o.start_time start_ok,
        number_of-shown o.end_time end_ok,
        is_true-true_text o.decrypt,
        limit,
        parse_int_decimal-show n,
      )
      refl
