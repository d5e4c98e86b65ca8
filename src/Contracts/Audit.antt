-- ===== src/Contracts/Audit.antt =====
-- contracts/Audit.sol: the log of audit entries. An address is the text that viem encodes and
-- decodes it as; a call that reverts, or reads past the end of an array, gives `none`.
pub mod Index
pub mod Ranges
pub mod History
use zuul_proxy.Prelude.{
  ℕ, zero, suc, ◌+◌, ◌-◌, String, Bool, true, false, ◌&&◌, List, [], ◌∷◌, ◌++◌, Option, none, some,
  length, ltb, leb, if◌then◌else◌,
}
use zuul_proxy.Prelude.Dict.{Dict, get, set}

pub record AuditEntry : Type 0 where
  pub agent : String
  pub encrypted_payload : String
  pub payload_hash : String
  pub timestamp : ℕ

pub record AuditContract : Type 0 where
  pub entries : List AuditEntry
  pub entries_by_agent : Dict (List ℕ)

unfoldable pub new_audit_contract : AuditContract
new_audit_contract = record { entries = []; entries_by_agent = [] }

abbrev pub or_empty : Option (List ℕ) → List ℕ
or_empty none = []
or_empty (some indices) = indices

-- `entriesByAgent[agent]`
abbrev pub indices_of : String → AuditContract → List ℕ
indices_of agent c = or_empty (get agent c.entries_by_agent)

-- `recordEntry`, in a block with the time `now`
unfoldable pub record_entry : ℕ → String → String → String → AuditContract → AuditContract
record_entry now agent encrypted_payload payload_hash c =
    let entry : AuditEntry = record {
      agent = agent;
      encrypted_payload = encrypted_payload;
      payload_hash = payload_hash;
      timestamp = now;
    } in
    record {
      entries = c.entries ++ entry ∷ [];
      entries_by_agent = set agent (indices_of agent c ++ length c.entries ∷ []) c.entries_by_agent;
    }

unfoldable pub get_entry_count : AuditContract → ℕ
get_entry_count c = length c.entries

unfoldable pub get_agent_entry_count : String → AuditContract → ℕ
get_agent_entry_count agent c = length (indices_of agent c)

-- `xs[i]`
abbrev pub get_elem? : {A : Type 0} → List A → ℕ → Option A
get_elem? [] i = none
get_elem? (x ∷ xs) zero = some x
get_elem? (x ∷ xs) (suc i) = get_elem? xs i

-- `getEntry`
unfoldable pub get_entry : ℕ → AuditContract → Option AuditEntry
get_entry index c = if ltb index (get_entry_count c) then get_elem? c.entries index else none

-- The number of results: what is there after the offset, and the limit at most.
abbrev pub page_size : ℕ → ℕ → ℕ → ℕ
page_size n offset limit =
    let available = if ltb offset n then n - offset else 0 in
    if ltb limit available then limit else available

-- `e ∷ rest`, where both are there
abbrev pub push : Option AuditEntry → Option (List AuditEntry) → Option (List AuditEntry)
push none rest = none
push (some e) none = none
push (some e) (some rest) = some (e ∷ rest)

-- `entries[indices[k]]`
abbrev pub entry_at : List AuditEntry → Option ℕ → Option AuditEntry
entry_at entries none = none
entry_at entries (some i) = get_elem? entries i

-- The loop of `getEntriesByAgent`, with `count` results to go from the index `k` on.
unfoldable pub entries_from : List AuditEntry → List ℕ → ℕ → ℕ → Option (List AuditEntry)
entries_from entries indices k zero = some []
entries_from entries indices k (suc count) =
    push (entry_at entries (get_elem? indices k)) (entries_from entries indices (suc k) count)

-- `getEntriesByAgent`
unfoldable pub get_entries_by_agent : String → ℕ → ℕ → AuditContract → Option (List AuditEntry)
unfolding entries_from
get_entries_by_agent agent offset limit c =
    if leb limit 100
    then (let indices = indices_of agent c in
        entries_from c.entries indices offset (page_size (length indices) offset limit))
    else none

abbrev pub in_range : ℕ → ℕ → AuditEntry → Bool
in_range start end_time e = leb start e.timestamp && leb e.timestamp end_time

-- The first pass of `getEntriesByTimeRange`.
unfoldable pub count_in : ℕ → ℕ → List AuditEntry → ℕ
count_in start end_time [] = 0
count_in start end_time (e ∷ es) =
    (if in_range start end_time e then 1 else 0) + count_in start end_time es

-- The entries that a new array holds.
abbrev pub blank : AuditEntry
blank = record {
  agent = "0x0000000000000000000000000000000000000000";
  encrypted_payload = "0x";
  payload_hash = "0x0000000000000000000000000000000000000000000000000000000000000000";
  timestamp = 0;
}

abbrev pub blanks : ℕ → List AuditEntry
blanks zero = []
blanks (suc n) = blank ∷ blanks n

-- The second pass: the rest of the result, with `left` places in it and `match_idx` matches seen.
unfoldable pub collect : ℕ → ℕ → ℕ → ℕ → ℕ → List AuditEntry → List AuditEntry
collect start end_time offset left match_idx [] = blanks left
collect start end_time offset zero match_idx (e ∷ es) = []
collect start end_time offset (suc left) match_idx (e ∷ es) = elim (in_range start end_time e) [
  | false ↦ collect start end_time offset (suc left) match_idx es
  | true ↦ elim (leb offset match_idx) [
    | true ↦ e ∷ collect start end_time offset left (suc match_idx) es
    | false ↦ collect start end_time offset (suc left) (suc match_idx) es
  ]
]

-- `getEntriesByTimeRange`
unfoldable pub get_entries_by_time_range : ℕ → ℕ → ℕ → ℕ → AuditContract → Option (List AuditEntry)
unfolding count_in collect
get_entries_by_time_range start end_time offset limit c =
    if leb limit 100
    then (if leb start end_time
        then some (
            collect start end_time offset
              (page_size (count_in start end_time c.entries) offset limit) 0 c.entries)
        else none)
    else none
