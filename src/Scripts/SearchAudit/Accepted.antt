-- ===== src/Scripts/SearchAudit/Accepted.antt =====
-- The proxy accepts what scripts/search-audit.ts sends (src/api/handlers/admin.ts).
use zuul_proxy.Prelude.{
  ℕ, ◌≤◌, String, ◌≡◌, refl, false, ◌||◌, ◌⊎◌, inl, inr, Option, none, some, arith, Bool-cases,
  Option-cases,
}
use zuul_proxy.Prelude.Number.{ℤ, pos, negsuc, Number, nan, int, gt}
use zuul_proxy.Prelude.ParseInt.{parse_int_decimal}
use zuul_proxy.Types.{ok, Result-cases}
use zuul_proxy.Api.Admin.Search.{parse_audit_search_params}
use zuul_proxy.Api.Admin.Search.Params.{IsValid, IsTime, InOrder, parse_audit_search_params_iff}
use zuul_proxy.Scripts.SearchAudit.{
  Args, SearchOptions, search, filled, is_there, limit_of, time_range, parse_date, with_limit, main,
  start_of, end_of,
}
use zuul_proxy.Scripts.SearchAudit.Query.{params, query, number_of, IsSince1970, read_params-query}

-- The options as the script passes them on: a limit in its range, and both dates in order or none.
pub record IsPlanned (o : SearchOptions) : Type 0 where
  pub n : ℕ
  pub limit : o.limit ≡ pos n
  pub least : 1 ≤ n
  pub most : n ≤ 100
  pub order :
      ((o.start_time ≡ none) × (o.end_time ≡ none))
      ⊎ ((s : ℤ) × (e : ℤ) × (o.start_time ≡ some s)
          × (o.end_time ≡ some e)
          × (gt (int s) (int e) ≡ false))

limit_of-some :
    (m : Number) (l : ℤ) → limit_of m ≡ some l → (n : ℕ) × (l ≡ pos n) × (1 ≤ n) × (n ≤ 100)
limit_of-some nan l e = cc
limit_of-some (int (pos n)) l e = (n, ground arith, ground arith, ground arith)
limit_of-some (int (negsuc n)) l e = absurd (ground arith)

module _ (get_time : String → Option ℤ) where
  -- The two times of a range, in order.
  InRange : Option (ℤ × ℤ) → Type 0
  InRange none = Unit
  InRange (some (s, e)) = gt (int s) (int e) ≡ false

  time_range-InRange :
      (from to : Option String) (range : Option (ℤ × ℤ))
      → time_range get_time from to ≡ ok range
      → InRange range
  unfolding time_range InRange
  time_range-InRange none none range e = let same : none ≡ range = cc in rw (← same) tt
  time_range-InRange none (some to) range e = cc
  time_range-InRange (some from) none range e = cc
  time_range-InRange (some from) (some to) range e =
      elim (Result-cases (parse_date get_time from)) [
        | inr (m, bad) ↦ absurd (cc (rw (bad, time_range) at e))
        | inl (s, first) ↦ elim (Result-cases (parse_date get_time to)) [
          | inr (m, bad) ↦ absurd (cc (rw (first, bad, time_range) at e))
          | inl (t, last) ↦ elim (Bool-cases (gt (int s) (int t))) [
            | inl reversed ↦ absurd (cc (rw (first, last, reversed, time_range) at e))
            | inr ordered ↦
                let same : some (s, t) ≡ range = cc (rw (first, last, ordered, time_range) at e) in
                rw (← same) ordered
          ]
        ]
      ]

  order_of :
      (range : Option (ℤ × ℤ))
      → InRange range
      → ((start_of range ≡ none) × (end_of range ≡ none))
        ⊎ ((s : ℤ) × (e : ℤ) × (start_of range ≡ some s)
            × (end_of range ≡ some e)
            × (gt (int s) (int e) ≡ false))
  unfolding InRange
  order_of none h = inl (refl, refl)
  order_of (some (s, e)) h = inr (s, e, refl, refl, h)

  with_limit-IsPlanned :
      (args : Args) (o : SearchOptions) → with_limit get_time args ≡ search o → IsPlanned o
  unfolding with_limit
  with_limit-IsPlanned args o e = elim (Option-cases (limit_of (parse_int_decimal args.limit))) [
    | inl bad ↦ absurd (cc (rw (bad, with_limit) at e))
    | inr (l, good) ↦
        elim (Result-cases (time_range get_time (filled args.from) (filled args.to))) [
          | inr (m, bad) ↦ absurd (cc (rw (good, bad, with_limit) at e))
          | inl (range, read) ↦
              let (n, same, least, most) = limit_of-some (parse_int_decimal args.limit) l good in
              let ordered =
                order_of range
                  (time_range-InRange (filled args.from) (filled args.to) range read) in
              let options : SearchOptions = record {
                agent = filled args.agent;
                start_time = start_of range;
                end_time = end_of range;
                decrypt = args.decrypt;
                limit = l;
                proxy_url = args.proxy_url;
              } in
              let planned : IsPlanned options = record {
                n = n;
                limit = same;
                least = least;
                most = most;
                order = ordered;
              } in
              let passed : options ≡ o = cc (rw (good, read, with_limit) at e) in
              rw (← passed) planned
        ]
  ]

main-IsPlanned :
    (get_time : String → Option ℤ) (args : Args) (o : SearchOptions)
    → main get_time args ≡ search o
    → IsPlanned o
unfolding main
main-IsPlanned get_time args o e = elim (Bool-cases args.help) [
  | inl asked ↦ absurd (cc (rw (asked, main) at e))
  | inr going ↦
      let some_filter =
        is_there (filled args.agent)
        || (is_there (filled args.from) || is_there (filled args.to)) in
      elim (Bool-cases some_filter) [
        | inr none_given ↦ absurd (cc (rw (going, none_given, main) at e))
        | inl given ↦ with_limit-IsPlanned get_time args o (rw (going, given, main) at e)
      ]
]

IsTime-number_of : (t : Option ℤ) → IsSince1970 t → IsTime (number_of t)
IsTime-number_of none h = tt
IsTime-number_of (some (pos n)) h = tt
IsTime-number_of (some (negsuc n)) h = absurd h

in_order :
    (s e : ℤ) → gt (int s) (int e) ≡ false → InOrder (number_of (some s)) (number_of (some e))
in_order (pos n) (pos m) h = ground arith
in_order (pos n) (negsuc m) h = tt
in_order (negsuc n) e h = tt

IsPlanned-IsValid :
    (o : SearchOptions)
    → IsPlanned o
    → IsSince1970 o.start_time
    → IsSince1970 o.end_time
    → IsValid (params o)
IsPlanned-IsValid o h start_ok end_ok = record {
  offset = tt;
  limit = rw (h.limit) (h.least, h.most);
  start_time = IsTime-number_of o.start_time start_ok;
  end_time = IsTime-number_of o.end_time end_ok;
  order = elim h.order [
    | inl (unset, rest) ↦ rw (unset) tt
    | inr (s, e, first, last, ordered) ↦ rw (first, last) (in_order s e ordered)
  ];
}

-- What the script sends for a search is accepted by the proxy, and read as it was meant: the agent,
-- the two dates in seconds, the limit and the wish to decrypt are those of the options, and the
-- offset is zero; no date is before 1970.
pub parse_audit_search_params-main :
    (get_time : String → Option ℤ) (args : Args) (o : SearchOptions)
    → main get_time args ≡ search o
    → IsSince1970 o.start_time
    → IsSince1970 o.end_time
    → parse_audit_search_params (query o) ≡ ok (params o)
unfolding main
parse_audit_search_params-main get_time args o e start_ok end_ok =
    let h = main-IsPlanned get_time args o e in
    (parse_audit_search_params_iff (query o) (params o)).1
      (read_params-query o h.n start_ok end_ok h.limit, IsPlanned-IsValid o h start_ok end_ok)
