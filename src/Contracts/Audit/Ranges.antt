-- ===== src/Contracts/Audit/Ranges.antt =====
-- The entries of a time range in the audit log (contracts/Audit.sol).
use zuul_proxy.Prelude.{
  ℕ, zero, suc, ◌-◌, ◌≡◌, refl, ap, ◌∙◌, List, [], ◌∷◌, Option, some, none, length, take, drop, leb,
  arith, Bool-cases, inl, inr, ◌≤◌, if◌then◌else◌,
}
use zuul_proxy.Contracts.Audit.{
  AuditEntry, AuditContract, in_range, count_in, collect, page_size, get_entries_by_time_range,
}
use zuul_proxy.Contracts.Audit.Index.{take-page_size}

module _ (start end_time : ℕ) where
  -- The entries of the range, in the order of the log.
  abbrev pub within : List AuditEntry → List AuditEntry
  within [] = []
  within (e ∷ es) = let rest = within es in if in_range start end_time e then e ∷ rest else rest

  count_in-within : (es : List AuditEntry) → count_in start end_time es ≡ length (within es)
  unfolding count_in
  count_in-within [] = refl
  count_in-within (e ∷ es) = ground (arith, count_in-within es)

  collect-within :
      (offset left seen : ℕ) (es : List AuditEntry)
      → left ≤ length (within es) - (offset - seen)
      → collect start end_time offset left seen es ≡ take left (drop (offset - seen) (within es))
  unfolding collect
  collect-within offset zero seen [] h = refl
  collect-within offset (suc left) seen [] h = absurd (omega (arith, h))
  collect-within offset zero seen (e ∷ es) h = refl
  collect-within offset (suc left) seen (e ∷ es) h = elim (Bool-cases (in_range start end_time e)) [
    | inr out ↦
        let fits : suc left ≤ length (within es) - (offset - seen) = rw (out) at h in
        rw (out, collect) (collect-within offset (suc left) seen es fits)
    | inl here ↦ elim (Bool-cases (leb offset seen)) [
      | inl reached ↦
          let first : offset - seen ≡ 0 = ground arith in
          let next : offset - suc seen ≡ 0 = ground arith in
          let fits : left ≤ length (within es) - (offset - suc seen) =
            omega (arith, rw (here) at h, first, next) in
          let rest = collect-within offset left (suc seen) es fits in
          rw (here, reached, first, collect) (ap (◌∷◌ e) (rw (next) at rest))
      | inr before ↦
          let gap : offset - seen ≡ suc (offset - suc seen) = ground arith in
          let fits : suc left ≤ length (within es) - (offset - suc seen) =
            omega (arith, rw (here) at h, gap) in
          rw (here, before, gap, collect) (collect-within offset (suc left) (suc seen) es fits)
    ]
  ]

  -- A page of a range, with the limits that the contract sets.
  abbrev pub range_page : ℕ → ℕ → List AuditEntry → Option (List AuditEntry)
  range_page offset limit entries =
      if leb limit 100
      then (if leb start end_time then some (take limit (drop offset (within entries))) else none)
      else none

  -- The two passes give the page of the range, and leave no blank entry in the result: a page of
  -- the entries of the log with a timestamp from the start to the end, both included, in their
  -- order. A limit above 100, and a start after the end, are refused.
  pub get_entries_by_time_range-page :
      (offset limit : ℕ) (c : AuditContract)
      → get_entries_by_time_range start end_time offset limit c ≡ range_page offset limit c.entries
  unfolding get_entries_by_time_range
  get_entries_by_time_range-page offset limit c =
      let es = within c.entries in
      let fits : page_size (length es) offset limit ≤ length es - (offset - 0) = ground arith in
      let whole : offset - 0 ≡ offset = omega arith in
      let found =
        collect-within offset (page_size (length es) offset limit) 0 c.entries fits
        ∙ rw (whole) (take-page_size offset limit es) in
      rw (count_in-within c.entries, found) refl
