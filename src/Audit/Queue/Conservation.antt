-- ===== src/Audit/Queue/Conservation.antt =====
-- No audit entry is lost or written twice, whatever order the enqueues, flushes and answers come in
-- (src/audit/store.ts).
use zuul_proxy.Prelude.{
  ℕ, ◌+◌, ◌<◌, ◌∙◌, String, ◌≡◌, refl, ap, Bool, true, false, List, [], ◌∷◌, ◌++◌, ltb, arith,
  Bool-cases, inl, inr, ◌==◌, if◌then◌else◌,
}
use zuul_proxy.Prelude.Dict.{delete}
use zuul_proxy.Types.{AuditEntry, Result, ok, err}
use zuul_proxy.Audit.Queue.{
  AuditQueue, World, new_audit_queue, enqueue, flush, advance, note_failure, settle, write_result,
  max_attempts,
}

-- How many entries have an audit id.
abbrev pub occurrences : String → List AuditEntry → ℕ
occurrences id [] = 0
occurrences id (e ∷ l) = (if e.audit_id == id then 1 else 0) + occurrences id l

pub occurrences-append :
    (id : String) (l k : List AuditEntry)
    → occurrences id (l ++ k) ≡ occurrences id l + occurrences id k
occurrences-append id [] k = omega arith
occurrences-append id (e ∷ l) k = omega (arith, occurrences-append id l k)

-- The entries of an audit id in the queue, in the suspended flush and written.
abbrev pub total : String → World → ℕ
total id w = occurrences id w.queue + occurrences id w.in_flight + occurrences id w.written

-- A flush is under way exactly while it has entries to write.
abbrev pub IsIdle : Bool → List AuditEntry → Type 0
IsIdle true [] = ⊥
IsIdle true (e ∷ l) = Unit
IsIdle false [] = Unit
IsIdle false (e ∷ l) = ⊥

-- The steps of the queue, with a log of the entries that were enqueued.
pub data Step : World → List AuditEntry → World → List AuditEntry → Type 0 where
  put : (e : AuditEntry) (w : World) (log : List AuditEntry) → Step w log (enqueue e w) (e ∷ log)
  tick : (w : World) (log : List AuditEntry) → Step w log (flush w) log
  answer :
      (r : Result String String) (w : World) (log : List AuditEntry)
      → Step w log (write_result r w) log

pub data Reach : World → List AuditEntry → Type 0 where
  start : Reach new_audit_queue []
  next :
      {w w' : World} {log log' : List AuditEntry} → Reach w log → Step w log w' log' → Reach w' log'

pub record IsConserved (w : World) (log : List AuditEntry) : Type 0 where
  pub idle : IsIdle w.is_flushing w.in_flight
  pub bounded : w.attempt < max_attempts
  pub all : (id : String) → total id w ≡ occurrences id log

pub flush-IsConserved :
    (w : World) (log : List AuditEntry) → IsConserved w log → IsConserved (flush w) log
unfolding flush
flush-IsConserved w log h = record {
  idle = ground (arith, h.idle);
  bounded = ground (arith, h.bounded);
  all = λ id. ground (arith, h.all id);
}

advance-total :
    (id : String) (q : AuditQueue) (rest written : List AuditEntry)
    → total id (advance q rest written)
      ≡ occurrences id q.queue + occurrences id rest + occurrences id written
unfolding advance
advance-total id q [] written = refl
advance-total id q (e ∷ rest) written = refl

advance-IsIdle :
    (q : AuditQueue) (rest written : List AuditEntry)
    → q.is_flushing ≡ true
    → IsIdle (advance q rest written).is_flushing (advance q rest written).in_flight
unfolding advance
advance-IsIdle q [] written h = tt
advance-IsIdle q (e ∷ rest) written h = rw h tt

settle-total :
    (id : String) (r : Result String String) (l : List AuditEntry) (w : World)
    → l ≡ w.in_flight
    → total id (settle r l w) ≡ total id w
unfolding settle note_failure
settle-total id r [] w h = refl
settle-total id (ok tx) (e ∷ rest) w h =
    let q = record w.store { failed_entries = delete e.audit_id w.failed_entries } in
    omega (
      arith,
      advance-total id q rest (w.written ++ e ∷ []),
      occurrences-append id w.written (e ∷ []),
      ap (occurrences id) h,
    )
settle-total id (err m) (e ∷ rest) w h = elim (Bool-cases (ltb (w.attempt + 1) max_attempts)) [
  | inl again ↦ rw again refl
  | inr over ↦
      let q = note_failure e w.store in
      rw over (
        omega (
          arith,
          advance-total id (record q { queue = q.queue ++ e ∷ [] }) rest w.written,
          occurrences-append id w.queue (e ∷ []),
          ap (occurrences id) h,
        ))
]

flushing :
    {e : AuditEntry} {rest : List AuditEntry} (w : World)
    → e ∷ rest ≡ w.in_flight
    → IsIdle w.is_flushing w.in_flight
    → w.is_flushing ≡ true
flushing w h idle = ground arith

pub settle-IsIdle :
    (r : Result String String) (l : List AuditEntry) (w : World)
    → l ≡ w.in_flight
    → IsIdle w.is_flushing w.in_flight
    → IsIdle (settle r l w).is_flushing (settle r l w).in_flight
unfolding settle note_failure
settle-IsIdle r [] w h idle = idle
settle-IsIdle (ok tx) (e ∷ rest) w h idle =
    advance-IsIdle (record w.store { failed_entries = delete e.audit_id w.failed_entries }) rest _
      (flushing w h idle)
settle-IsIdle (err m) (e ∷ rest) w h idle = elim (Bool-cases (ltb (w.attempt + 1) max_attempts)) [
  | inl again ↦ rw again idle
  | inr over ↦
      let q = note_failure e w.store in
      rw over
        (advance-IsIdle (record q { queue = q.queue ++ e ∷ [] }) rest w.written (flushing w h idle))
]

pub advance-attempt :
    (q : AuditQueue) (rest written : List AuditEntry) → (advance q rest written).attempt ≡ 0
unfolding advance
advance-attempt q [] written = refl
advance-attempt q (e ∷ rest) written = refl

pub settle-attempt :
    (r : Result String String) (l : List AuditEntry) (w : World)
    → w.attempt < max_attempts
    → (settle r l w).attempt < max_attempts
unfolding settle
settle-attempt r [] w h = h
settle-attempt (ok tx) (e ∷ rest) w h = rw advance-attempt (omega arith)
settle-attempt (err m) (e ∷ rest) w h = ground (
  arith,
  advance-attempt
      (record (note_failure e w.store) { queue = (note_failure e w.store).queue ++ e ∷ [] }) rest
      w.written,
)

enqueue-IsConserved :
    (e : AuditEntry) (w : World) (log : List AuditEntry)
    → IsConserved w log
    → IsConserved (enqueue e w) (e ∷ log)
unfolding enqueue
enqueue-IsConserved e w log h = record {
  idle = h.idle;
  bounded = h.bounded;
  all = λ id. omega (arith, occurrences-append id w.queue (e ∷ []), h.all id);
}

Step-IsConserved :
    {w w' : World} {log log' : List AuditEntry}
    → Step w log w' log'
    → IsConserved w log
    → IsConserved w' log'
Step-IsConserved (put e w log) h = enqueue-IsConserved e w log h
Step-IsConserved (tick w log) h = flush-IsConserved w log h
Step-IsConserved (answer r w log) h =
    unfold write_result in
    record {
      idle = settle-IsIdle r w.in_flight w refl h.idle;
      bounded = settle-attempt r w.in_flight w h.bounded;
      all = λ id. settle-total id r w.in_flight w refl ∙ h.all id;
    }

-- Whatever the order of enqueues, flush ticks and answers of the contract writer, from a new queue:
-- for each audit id, the entries waiting, in the running flush and written are as many as were
-- enqueued; a flush runs exactly while it has entries; and no entry in it is past its third
-- attempt.
pub Reach-IsConserved : {w : World} {log : List AuditEntry} → Reach w log → IsConserved w log
unfolding new_audit_queue
Reach-IsConserved start = record { idle = tt; bounded = omega arith; all = λ id. refl }
Reach-IsConserved (next r st) = Step-IsConserved st (Reach-IsConserved r)
