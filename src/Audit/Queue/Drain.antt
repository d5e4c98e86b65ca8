-- ===== src/Audit/Queue/Drain.antt =====
-- Draining the queue on shutdown (src/audit/store.ts).
use mathlib.Core.List.{append_assoc, append-nil}
use zuul_proxy.Prelude.{
  ℕ, zero, suc, ◌*◌, ◌<◌, ◌≡◌, ◌∙◌, refl, sym, ap, String, true, false, List, [], ◌∷◌, ◌++◌, length,
  arith,
}
use zuul_proxy.Prelude.Dict.{delete}
use zuul_proxy.Types.{AuditEntry, Result, ok}
use zuul_proxy.Audit.Queue.{
  AuditQueue, World, flush, advance, settle, write_result, run_flush, drain,
}

-- The queue at rest, with all entries of a flush written behind those written before.
record IsWritten (q : AuditQueue) (l written : List AuditEntry) (w : World) : Type 0 where
  resting : w.is_flushing ≡ false
  flown : w.in_flight ≡ []
  waiting : w.queue ≡ q.queue
  order : w.written ≡ written ++ l

run_flush_resting :
    (writer : ℕ → Result String String) (fuel : ℕ) (w : World)
    → w.is_flushing ≡ false
    → run_flush writer fuel w ≡ w
unfolding run_flush
run_flush_resting writer zero w h = refl
run_flush_resting writer (suc fuel) w h = ground (arith, h)

run_flush_busy :
    (writer : ℕ → Result String String) (fuel : ℕ) (w : World)
    → w.is_flushing ≡ true
    → run_flush writer (suc fuel) w
      ≡ run_flush (λ n. writer (suc n)) fuel (write_result (writer 0) w)
unfolding run_flush
run_flush_busy writer fuel w h = ground (arith, h)

abbrev world : AuditQueue → List AuditEntry → ℕ → List AuditEntry → World
world q l attempt written = record {
  store = q;
  in_flight = l;
  attempt = attempt;
  written = written;
}

run_flush_accepting :
    (tx : ℕ → String) (fuel : ℕ) (e : AuditEntry) (rest : List AuditEntry) (q : AuditQueue)
    (attempt : ℕ) (written : List AuditEntry)
    → length rest < fuel
    → q.is_flushing ≡ true
    → IsWritten q
        (e ∷ rest)
        written
        (run_flush (λ n. ok (tx n)) fuel (world q (e ∷ rest) attempt written))
unfolding write_result settle advance
run_flush_accepting tx zero e rest q attempt written le busy = absurd (omega arith)
run_flush_accepting tx (suc fuel) e [] q attempt written le busy =
    let q' = record q {
      is_flushing = false;
      failed_entries = delete e.audit_id q.failed_entries;
    } in
    let ends =
      run_flush_busy (λ n. ok (tx n)) fuel (world q (e ∷ []) attempt written) busy
      ∙ run_flush_resting (λ n. ok (tx (suc n))) fuel (world q' [] 0 (written ++ e ∷ [])) refl in
    rw ends (record { resting = refl; flown = refl; waiting = refl; order = refl })
run_flush_accepting tx (suc fuel) e (f ∷ rest) q attempt written le busy =
    let q' = record q { failed_entries = delete e.audit_id q.failed_entries } in
    let h =
      run_flush_accepting (λ n. tx (suc n)) fuel f rest q' 0 (written ++ e ∷ []) (omega arith)
        busy in
    rw (run_flush_busy _ fuel (world q (e ∷ f ∷ rest) attempt written) busy) (record {
      resting = h.resting;
      flown = h.flown;
      waiting = h.waiting;
      order = h.order ∙ append_assoc written (e ∷ []) (f ∷ rest);
    })

drain_empty :
    (writer : ℕ → ℕ → Result String String) (left : ℕ) (w : World)
    → w.queue ≡ []
    → drain writer left w ≡ w
unfolding drain
drain_empty writer zero w h = refl
drain_empty writer (suc left) w h = ground (arith, h)

flush_waiting :
    (w : World) {e : AuditEntry} {l : List AuditEntry}
    → w.queue ≡ e ∷ l
    → w.is_flushing ≡ false
    → flush w ≡ world (record w.store { queue = []; is_flushing = true }) (e ∷ l) 0 w.written
unfolding flush
flush_waiting w h resting = ground (arith, h, resting)

drain_waiting :
    (writer : ℕ → ℕ → Result String String) (left : ℕ) (w : World) {e : AuditEntry}
    {l : List AuditEntry}
    → w.queue ≡ e ∷ l
    → w.is_flushing ≡ false
    → drain writer (suc left) w
      ≡ drain
          (λ k. writer (suc k))
          left
          (run_flush (writer 0) (3 * length (flush w).in_flight) (flush w))
unfolding drain
drain_waiting writer left w h resting = ground (arith, h, resting)

-- If the contract writer accepts every entry, a drain of a resting queue empties it, and the
-- entries are written once each, in the order in which they waited.
pub drain_accepting :
    (tx : ℕ → ℕ → String) (left : ℕ) (w : World)
    → w.is_flushing ≡ false
    → w.in_flight ≡ []
    → ((drain (λ k n. ok (tx k n)) (suc left) w).queue ≡ [])
      × ((drain (λ k n. ok (tx k n)) (suc left) w).written ≡ w.written ++ w.queue)
drain_accepting tx left w resting flown = waiting w.queue refl
  where
    waiting :
        (l : List AuditEntry)
        → w.queue ≡ l
        → ((drain (λ k n. ok (tx k n)) (suc left) w).queue ≡ [])
          × ((drain (λ k n. ok (tx k n)) (suc left) w).written ≡ w.written ++ w.queue)
    waiting [] h =
        let still = drain_empty (λ k n. ok (tx k n)) (suc left) w h in
        rw still (h, sym (rw h (append-nil w.written)))
    waiting (e ∷ l) h =
        let q = record w.store { queue = []; is_flushing = true } in
        let done =
          run_flush_accepting (tx 0) (3 * length (e ∷ l)) e l q 0 w.written (omega arith) refl in
        let ends =
          drain_waiting (λ k n. ok (tx k n)) left w h resting
          ∙ ap
              (λ v.
                drain (λ k n. ok (tx (suc k) n)) left
                  (run_flush (λ n. ok (tx 0 n)) (3 * length v.in_flight) v))
              (flush_waiting w h resting)
          ∙ drain_empty (λ k n. ok (tx (suc k) n)) left _ done.waiting in
        rw ends (done.waiting, done.order ∙ ap (◌++◌ w.written) (sym h))
