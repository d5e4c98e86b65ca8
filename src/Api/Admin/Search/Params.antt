-- ===== src/Api/Admin/Search/Params.antt =====
-- Which parameters of an audit search are accepted (src/api/handlers/admin.ts).
use zuul_proxy.Prelude.{
  String, ◌≤◌, ◌≡◌, refl, ap, ◌∙◌, ◌↔◌, Bool, false, ◌||◌, Option, none, some, arith,
}
use zuul_proxy.Prelude.Number.{Number, nan, int, pos, negsuc, nat, lt, gt}
use zuul_proxy.Types.{ok}
use zuul_proxy.Api.Admin.Search.{
  AuditSearchParams, is_negative, is_reversed, read_params, check_params, parse_audit_search_params,
}

-- Not negative, or NaN.
abbrev pub IsNatural : Number → Type 0
IsNatural nan = Unit
IsNatural (int (pos n)) = Unit
IsNatural (int (negsuc n)) = ⊥

-- From 1 to 100, or NaN.
abbrev pub IsLimit : Number → Type 0
IsLimit nan = Unit
IsLimit (int (pos n)) = (1 ≤ n) × (n ≤ 100)
IsLimit (int (negsuc n)) = ⊥

-- Absent, or not negative, or NaN.
abbrev pub IsTime : Option Number → Type 0
IsTime none = Unit
IsTime (some t) = IsNatural t

-- In order, where both are there and neither is NaN.
abbrev pub InOrder : Option Number → Option Number → Type 0
InOrder (some (int (pos s))) (some (int (pos e))) = s ≤ e
InOrder _ _ = Unit

pub record IsValid (p : AuditSearchParams) : Type 0 where
  pub offset : IsNatural p.offset
  pub limit : IsLimit p.limit
  pub start_time : IsTime p.start_time
  pub end_time : IsTime p.end_time
  pub order : InOrder p.start_time p.end_time

IsNatural-iff : (n : Number) → (lt n (nat 0) ≡ false) ↔ IsNatural n
IsNatural-iff nan = (λ _. tt, λ _. refl)
IsNatural-iff (int (pos n)) = ground arith
IsNatural-iff (int (negsuc n)) = ground arith

IsLimit-iff : (n : Number) → ((lt n (nat 1) || gt n (nat 100)) ≡ false) ↔ IsLimit n
IsLimit-iff nan = (λ _. tt, λ _. refl)
IsLimit-iff (int (pos n)) = ground arith
IsLimit-iff (int (negsuc n)) = ground arith

IsTime-iff : (t : Option Number) → (is_negative t ≡ false) ↔ IsTime t
IsTime-iff none = (λ _. tt, λ _. refl)
IsTime-iff (some t) = IsNatural-iff t

order_iff : (s e : Option Number) → IsTime s → IsTime e → (is_reversed s e ≡ false) ↔ InOrder s e
order_iff none e hs he = (λ _. tt, λ _. refl)
order_iff (some nan) none hs he = (λ _. tt, λ _. refl)
order_iff (some (int (pos n))) none hs he = (λ _. tt, λ _. refl)
order_iff (some nan) (some e) hs he = (λ _. tt, λ _. refl)
order_iff (some (int (pos n))) (some nan) hs he = (λ _. tt, λ _. refl)
order_iff (some (int (pos n))) (some (int (pos m))) hs he = ground arith
order_iff (some (int (pos n))) (some (int (negsuc m))) hs he = absurd he
order_iff (some (int (negsuc n))) e hs he = absurd hs

or_false : (a b : Bool) → (a || b) ≡ false → (a ≡ false) × (b ≡ false)
or_false a b h = ground arith

module _ (p : AuditSearchParams) where
  abbrev bad_page : Bool
  bad_page = lt p.offset (nat 0) || (lt p.limit (nat 1) || gt p.limit (nat 100))

  abbrev bad_time : Bool
  bad_time = is_negative p.start_time || is_negative p.end_time

  check_params-IsValid : (q : AuditSearchParams) → check_params p ≡ ok q → (p ≡ q) × IsValid p
  unfolding check_params
  check_params-IsValid q h =
      let page : bad_page ≡ false = ground arith in
      let time : bad_time ≡ false = ground arith in
      let order : is_reversed p.start_time p.end_time ≡ false = ground arith in
      let same : p ≡ q = cc (rw (page, time, order) at h) in
      let (offset, limit) = or_false _ _ page in
      let (start_time, end_time) = or_false _ _ time in
      let start_ok = (IsTime-iff p.start_time).0 start_time in
      let end_ok = (IsTime-iff p.end_time).0 end_time in
      (
        same,
        record {
          offset = (IsNatural-iff p.offset).0 offset;
          limit = (IsLimit-iff p.limit).0 limit;
          start_time = start_ok;
          end_time = end_ok;
          order = (order_iff p.start_time p.end_time start_ok end_ok).0 order;
        },
      )

  IsValid-check_params : IsValid p → check_params p ≡ ok p
  unfolding check_params
  IsValid-check_params v =
      rw
        (
          (IsNatural-iff p.offset).1 v.offset,
          (IsLimit-iff p.limit).1 v.limit,
          (IsTime-iff p.start_time).1 v.start_time,
          (IsTime-iff p.end_time).1 v.end_time,
          (order_iff p.start_time p.end_time v.start_time v.end_time).1 v.order,
        )
        refl

-- A query is accepted exactly if its numbers, as they are read, are in range: the offset and the
-- times not negative, the limit from 1 to 100, the start time not after the end time. A number that
-- cannot be read is NaN, and is in every range.
pub parse_audit_search_params_iff :
    (query : String → Option String) (p : AuditSearchParams)
    → (parse_audit_search_params query ≡ ok p) ↔ ((read_params query ≡ p) × IsValid p)
unfolding parse_audit_search_params
parse_audit_search_params_iff query p = (
  λ h. let (same, v) = check_params-IsValid (read_params query) p h in (same, rw (← same) v),
  λ (same, v). IsValid-check_params (read_params query) (rw same v) ∙ ap ok same,
)
