-- ===== src/Api/Admin/Search/Paging.antt =====
-- The audit search reads one fixed page (src/api/handlers/admin.ts).
use zuul_proxy.Prelude.{String, ◌≡◌, refl, Option, none, some, ◌==◌, Bool-cases, inl, inr}
use zuul_proxy.Prelude.Number.{Number, nan, int, pos}
use zuul_proxy.Types.{Result, ok, err}
use zuul_proxy.Errors.{ZuulError}
use zuul_proxy.Audit.Encryption.{Bytes, Crypto}
use zuul_proxy.Api.Admin.Search.{
  AuditSearchParams, Query, by_agent, by_time, Answer, entries, refused, broken, AuditSearchResult,
  after_call, time_call, time_search, search_by, perform_audit_search,
}

-- The result with another query echoed.
abbrev pub with_query :
    AuditSearchParams → Result ZuulError AuditSearchResult → Result ZuulError AuditSearchResult
with_query q (ok r) = ok (record r { query = q })
with_query q (err e) = err e

module _ (c : Crypto) (key : Bytes) (call : Query → Answer) (p : AuditSearchParams)
    (offset limit : Number) where
  abbrev paged : AuditSearchParams
  paged = record p { offset = offset; limit = limit }

  after_call-with_query :
      (a : Answer) → after_call c key paged a ≡ with_query paged (after_call c key p a)
  unfolding after_call
  after_call-with_query (entries l) = refl
  after_call-with_query refused = refl
  after_call-with_query broken = refl

  time_search-with_query :
      (s e : Option Number)
      → time_search c key call paged s e ≡ with_query paged (time_search c key call p s e)
  unfolding time_call
  time_search-with_query none e = refl
  time_search-with_query (some s) none = refl
  time_search-with_query (some nan) (some e) = refl
  time_search-with_query (some (int s)) (some nan) = refl
  time_search-with_query (some (int s)) (some (int e)) =
      after_call-with_query (call (by_time s e (pos 0) (pos 100)))

  search_by-with_query :
      (o : Option String)
      → search_by c key call paged o ≡ with_query paged (search_by c key call p o)
  search_by-with_query none = time_search-with_query p.start_time p.end_time
  search_by-with_query (some agent) = elim (Bool-cases (agent == "")) [
    | inl blank ↦ rw (blank) (time_search-with_query p.start_time p.end_time)
    | inr filled ↦ rw (filled) (after_call-with_query (call (by_agent agent (pos 0) (pos 100))))
  ]

  -- The offset and the limit of a search change nothing but the echo of the query in its result:
  -- not the contract call, not the entries and their count, not the errors.
  pub perform_audit_search-with_query :
      perform_audit_search c key call paged ≡ with_query paged (perform_audit_search c key call p)
  unfolding perform_audit_search
  perform_audit_search-with_query = search_by-with_query p.agent
