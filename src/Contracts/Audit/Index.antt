-- ===== src/Contracts/Audit/Index.antt =====
-- The index of the audit log by agent (contracts/Audit.sol).
use mathlib.Core.List.{append_assoc}
use zuul_proxy.Prelude.{
  ℕ, zero, suc, ◌+◌, ◌-◌, String, ◌≡◌, refl, sym, ap, ◌∙◌, List, [], ◌∷◌, ◌++◌, Option, none, some,
  length, length-append, take, drop, leb, ◌==◌, if◌then◌else◌, arith, Bool-cases, inl, inr, eq_iff,
  ◌≤◌, ◌<◌,
}
use zuul_proxy.Prelude.Dict.{get-set}
use zuul_proxy.Contracts.Audit.{
  AuditEntry, AuditContract, record_entry, indices_of, get_elem?, entries_from, push, page_size,
  get_entries_by_agent,
}

-- The entries of an agent, in the order of the log.
abbrev pub of_agent : String → List AuditEntry → List AuditEntry
of_agent agent [] = []
of_agent agent (e ∷ es) =
    let rest = of_agent agent es in if e.agent == agent then e ∷ rest else rest

-- Their places in the log, from the place `n` on.
abbrev positions : String → ℕ → List AuditEntry → List ℕ
positions agent n [] = []
positions agent n (e ∷ es) =
    let rest = positions agent (suc n) es in if e.agent == agent then n ∷ rest else rest

-- The index of every agent has the places of its entries.
abbrev pub IsIndexed : AuditContract → Type 0
IsIndexed c = (agent : String) → indices_of agent c ≡ positions agent 0 c.entries

positions-append :
    (agent : String) (n : ℕ) (es : List AuditEntry) (e : AuditEntry)
    → positions agent n (es ++ e ∷ []) ≡ (
        if e.agent == agent
        then positions agent n es ++ (n + length es) ∷ []
        else positions agent n es)
positions-append agent n [] e = ground arith
positions-append agent n (d ∷ es) e =
    let place : suc n + length es ≡ n + suc (length es) = omega arith in
    ground (arith, positions-append agent (suc n) es e, place)

pub record_entry-IsIndexed :
    (now : ℕ) (agent payload hash : String) (c : AuditContract)
    → IsIndexed c
    → IsIndexed (record_entry now agent payload hash c)
unfolding record_entry
record_entry-IsIndexed now agent payload hash c h a =
    let places = indices_of agent c ++ length c.entries ∷ [] in
    ground (
      arith,
      get-set agent a places c.entries_by_agent,
      positions-append a 0 c.entries (record {
        agent = agent;
        encrypted_payload = payload;
        payload_hash = hash;
        timestamp = now;
      }),
      eq_iff agent a,
      h a,
      h agent,
    )

module _ {A : Type 0} where
  elem_before : (xs : List A) (x : A) (ys : List A) → get_elem? (xs ++ x ∷ ys) (length xs) ≡ some x
  elem_before [] x ys = refl
  elem_before (y ∷ xs) x ys = elem_before xs x ys

  drop_at :
      (k : ℕ) (xs : List A)
      → k < length xs
      → (x : A) × (get_elem? xs k ≡ some x) × (drop k xs ≡ x ∷ drop (suc k) xs)
  drop_at k [] h = absurd (omega (arith, h))
  drop_at zero (x ∷ xs) h = (x, refl, refl)
  drop_at (suc k) (x ∷ xs) h = drop_at k xs (omega (arith, h))

  take_all : (n : ℕ) (xs : List A) → length xs ≤ n → take n xs ≡ xs
  take_all zero [] h = refl
  take_all (suc n) [] h = refl
  take_all zero (x ∷ xs) h = absurd (omega (arith, h))
  take_all (suc n) (x ∷ xs) h = ap (◌∷◌ x) (take_all n xs (omega (arith, h)))

  length-drop : (k : ℕ) (xs : List A) → length (drop k xs) ≡ length xs - k
  length-drop zero xs = omega arith
  length-drop (suc k) [] = omega arith
  length-drop (suc k) (x ∷ xs) = omega (arith, length-drop k xs)

  drop_all : (k : ℕ) (xs : List A) → length xs ≤ k → drop k xs ≡ []
  drop_all zero [] h = refl
  drop_all (suc k) [] h = refl
  drop_all zero (x ∷ xs) h = absurd (omega (arith, h))
  drop_all (suc k) (x ∷ xs) h = drop_all k xs (omega (arith, h))

  -- A page of the size that the contracts compute has what is there.
  pub take-page_size :
      (offset limit : ℕ) (xs : List A)
      → take (page_size (length xs) offset limit) (drop offset xs) ≡ take limit (drop offset xs)
  take-page_size offset limit xs =
      let size = length-drop offset xs in
      elim (Bool-cases (leb (length xs - offset) limit)) [
        | inl short ↦
            let all : page_size (length xs) offset limit ≡ length xs - offset = ground arith in
            rw (all) (
              take_all (length xs - offset) (drop offset xs) (omega (arith, size))
              ∙ sym (take_all limit (drop offset xs) (ground (arith, size))))
        | inr long ↦
            let full : page_size (length xs) offset limit ≡ limit = ground arith in rw (full) refl
      ]

module _ (entries : List AuditEntry) where
  -- The entries at some places.
  abbrev places : List ℕ → Option (List AuditEntry)
  places [] = some []
  places (i ∷ is) = push (get_elem? entries i) (places is)

  entries_from-places :
      (indices : List ℕ) (k count : ℕ)
      → count ≤ length indices - k
      → entries_from entries indices k count ≡ places (take count (drop k indices))
  unfolding entries_from
  entries_from-places indices k zero h = refl
  entries_from-places indices k (suc count) h =
      let (i, here, rest) = drop_at k indices (omega (arith, h)) in
      let later = entries_from-places indices (suc k) count (omega (arith, h)) in
      rw (here, rest, later) refl

  push-some :
      (o : Option AuditEntry) (r : Option (List AuditEntry)) (es : List AuditEntry)
      → push o r ≡ some es
      → (e : AuditEntry) × (rest : List AuditEntry) × (o ≡ some e)
        × (r ≡ some rest)
        × (e ∷ rest ≡ es)
  push-some none r es h = cc
  push-some (some e) none es h = cc
  push-some (some e) (some rest) es h = (e, rest, refl, refl, cc)

  places-drop :
      (k : ℕ) (is : List ℕ) (es : List AuditEntry)
      → places is ≡ some es
      → places (drop k is) ≡ some (drop k es)
  places-drop zero is es h = h
  places-drop (suc k) [] es h = let none_left : [] ≡ es = cc in rw (← none_left) refl
  places-drop (suc k) (i ∷ is) es h =
      let (e, rest, here, later, same) = push-some (get_elem? entries i) (places is) es h in
      rw (← same) (places-drop k is rest later)

  places-take :
      (k : ℕ) (is : List ℕ) (es : List AuditEntry)
      → places is ≡ some es
      → places (take k is) ≡ some (take k es)
  places-take zero is es h = refl
  places-take (suc k) [] es h = let none_left : [] ≡ es = cc in rw (← none_left) refl
  places-take (suc k) (i ∷ is) es h =
      let (e, rest, here, later, same) = push-some (get_elem? entries i) (places is) es h in
      rw (← same, here, places-take k is rest later) refl

  length-places : (is : List ℕ) (es : List AuditEntry) → places is ≡ some es → length is ≡ length es
  length-places [] es h = let none_left : [] ≡ es = cc in rw (← none_left) refl
  length-places (i ∷ is) es h =
      let (e, rest, here, later, same) = push-some (get_elem? entries i) (places is) es h in
      rw (← same) (ap suc (length-places is rest later))

-- The places of an agent's entries lead to them.
places-positions :
    (agent : String) (before es : List AuditEntry)
    → places (before ++ es) (positions agent (length before) es) ≡ some (of_agent agent es)
places-positions agent before [] = refl
places-positions agent before (e ∷ es) =
    let moved = places-positions agent (before ++ e ∷ []) es in
    let size : length (before ++ e ∷ []) ≡ suc (length before) =
      omega (arith, length-append before (e ∷ [])) in
    let rest : places (before ++ e ∷ es) (positions agent (suc (length before)) es)
        ≡ some (of_agent agent es) =
      rw (size, append_assoc) at moved in
    elim (Bool-cases (e.agent == agent)) [
      | inl its ↦ rw (its, elem_before before e es, rest) refl
      | inr others ↦ rw (others) rest
    ]

-- A page of an agent's entries, with the limit that the contract sets.
abbrev pub agent_page : String → ℕ → ℕ → List AuditEntry → Option (List AuditEntry)
agent_page agent offset limit entries =
    if leb limit 100 then some (take limit (drop offset (of_agent agent entries))) else none

pub get_entries_by_agent-page :
    (agent : String) (offset limit : ℕ) (c : AuditContract)
    → IsIndexed c
    → get_entries_by_agent agent offset limit c ≡ agent_page agent offset limit c.entries
unfolding get_entries_by_agent
get_entries_by_agent-page agent offset limit c indexed =
    let is = positions agent 0 c.entries in
    let es = of_agent agent c.entries in
    let all = places-positions agent [] c.entries in
    let count = page_size (length is) offset limit in
    let size = length-places c.entries is es all in
    let fits : count ≤ length is - offset = ground arith in
    let found : entries_from c.entries is offset count ≡ some (take limit (drop offset es)) =
      entries_from-places c.entries is offset count fits
      ∙ places-take c.entries count (drop offset is) (drop offset es)
          (places-drop c.entries offset is es all)
      ∙ ap some (rw (size) (take-page_size offset limit es)) in
    rw (indexed agent, found) refl
