-- ===== src/Audit/Queue.antt =====
-- src/audit/store.ts: the queue of audit entries and its flush to the chain. `flush` awaits each
-- write, so its suspended run is part of the state: the entries it still has to write, the first of
-- them being written, and the attempts made for that one. A step is what runs between two awaits.
pub mod Conservation
pub mod Flushing
pub mod Drain
use zuul_proxy.Prelude.{
  ℕ, zero, suc, ◌+◌, ◌*◌, String, Bool, true, false, ◌||◌, List, [], ◌∷◌, ◌++◌, Option, none, some,
  ltb, length, if◌then◌else◌,
}
use zuul_proxy.Prelude.Dict.{Dict, get, set, delete, size}
use zuul_proxy.Types.{AuditEntry, Result, ok, err}

-- The fields of `AuditQueue`; `flush_timer` says whether the interval is set.
pub record AuditQueue : Type 0 where
  pub queue : List AuditEntry
  pub flush_timer : Bool
  pub is_shutting_down : Bool
  pub is_flushing : Bool
  pub failed_entries : Dict ℕ

-- The queue, the suspended flush, and what the contract writer has accepted so far.
pub record World : Type 0 where
  pub store : AuditQueue
  pub open store use *
  pub in_flight : List AuditEntry
  pub attempt : ℕ
  pub written : List AuditEntry

unfoldable pub new_audit_queue : World
new_audit_queue = record {
  store = record {
    queue = [];
    flush_timer = true;
    is_shutting_down = false;
    is_flushing = false;
    failed_entries = [];
  };
  in_flight = [];
  attempt = 0;
  written = [];
}

unfoldable pub enqueue : AuditEntry → World → World
enqueue e w = record w { store = record w.store { queue = w.queue ++ e ∷ [] } }

-- `this.queue.length === 0`
abbrev is_empty : List AuditEntry → Bool
is_empty [] = true
is_empty (e ∷ l) = false

-- `flush` up to its first await: with the guard, and the queue taken over.
unfoldable pub flush : World → World
flush w = if w.is_flushing || is_empty w.queue then w else record w {
  store = record w.store { queue = []; is_flushing = true };
  in_flight = w.queue;
  attempt = 0;
}

abbrev pub max_attempts : ℕ
max_attempts = 3

-- `this.failedEntries.get(id) || 0`
abbrev or_zero : Option ℕ → ℕ
or_zero none = 0
or_zero (some n) = n

-- After the writes of an entry: the next one, or the `finally` of `flush`.
unfoldable pub advance : AuditQueue → List AuditEntry → List AuditEntry → World
advance q [] written = record {
  store = record q { is_flushing = false };
  in_flight = [];
  attempt = 0;
  written = written;
}
advance q (e ∷ rest) written = record {
  store = q;
  in_flight = e ∷ rest;
  attempt = 0;
  written = written;
}

unfoldable pub note_failure : AuditEntry → AuditQueue → AuditQueue
note_failure e q = record q {
  failed_entries = set e.audit_id (or_zero (get e.audit_id q.failed_entries) + 1) q.failed_entries;
}

-- One round of the loop of `writeWithRetry`, from the answer of `logAudit` to the next await; a
-- throw is an error here too.
unfoldable pub settle : Result String String → List AuditEntry → World → World
settle r [] w = w
settle (ok tx) (e ∷ rest) w =
    advance (record w.store { failed_entries = delete e.audit_id w.failed_entries }) rest
      (w.written ++ e ∷ [])
settle (err m) (e ∷ rest) w =
    let q = note_failure e w.store in
    if ltb (w.attempt + 1) max_attempts
    then record w { store = q; attempt = w.attempt + 1 }
    else advance (record q { queue = q.queue ++ e ∷ [] }) rest w.written

unfoldable pub write_result : Result String String → World → World
write_result r w = settle r w.in_flight w

unfoldable pub get_metrics : World → ℕ × ℕ
get_metrics w = (length w.queue, size w.failed_entries)

-- `destroy`, which only tests call.
unfoldable pub destroy : World → World
destroy w = record w {
  store = record {
    queue = [];
    flush_timer = false;
    is_shutting_down = false;
    is_flushing = false;
    failed_entries = [];
  };
}

-- The rest of a flush, when nothing else runs meanwhile: `writer n` answers the n-th call from
-- here.
unfoldable pub run_flush : (ℕ → Result String String) → ℕ → World → World
run_flush writer zero w = w
run_flush writer (suc left) w = elim w.is_flushing [
  | true ↦ run_flush (λ n. writer (suc n)) left (write_result (writer 0) w)
  | false ↦ w
]

-- `drain`, with the rounds left: `writer k` answers the calls of the k-th flush, which makes at
-- most three for each entry. Where a flush is under way, that of the round returns at once.
unfoldable pub drain : (ℕ → ℕ → Result String String) → ℕ → World → World
drain writer zero w = w
drain writer (suc left) w = elim (is_empty w.queue) [
  | true ↦ w
  | false ↦
      let started = flush w in
      drain (λ k. writer (suc k)) left
        (if w.is_flushing then w else run_flush (writer 0) (3 * length started.in_flight) started)
]

abbrev pub max_drain : ℕ
max_drain = 10

-- `handleShutdown`
unfoldable pub handle_shutdown : (ℕ → ℕ → Result String String) → World → World
handle_shutdown writer w =
    if w.is_shutting_down
    then w
    else drain writer max_drain
        (record w { store = record w.store { is_shutting_down = true; flush_timer = false } })
