-- ===== src/Tests/Audit.antt =====
-- The audit queue on two entries.
use zuul_proxy.Prelude.{String, ◌≡◌, refl, false, ◌∷◌, [], List, ◌++◌, length, ◌*◌}
use zuul_proxy.Types.{AuditEntry, ok, err}
use zuul_proxy.Audit.Queue.{World, new_audit_queue, enqueue, flush, write_result, run_flush, drain}
use zuul_proxy.Audit.Queue.Conservation.{
  Reach, start, next, put, tick, answer, IsConserved, Reach-IsConserved,
}
use zuul_proxy.Audit.Queue.Flushing.{run_flush_total}
use zuul_proxy.Audit.Queue.Drain.{drain_accepting}

abbrev entry : String → AuditEntry
entry id = record {
  audit_id = id;
  agent = "0x1";
  timestamp = 1;
  encrypted_payload = "";
  payload_hash = "";
  agent_signature = "";
  proxy_signature = "0x";
}

abbrev two : World
two = enqueue (entry "b") (enqueue (entry "a") new_audit_queue)

abbrev log : List AuditEntry
log = entry "b" ∷ entry "a" ∷ []

flushed : Reach (flush two) log
flushed = next (next (next start (put _ _ _)) (put _ _ _)) (tick _ _)

Reach-IsConserved_example : IsConserved (write_result (err "down") (flush two)) log
Reach-IsConserved_example = Reach-IsConserved (next flushed (answer (err "down") (flush two) log))

run_flush_total_example :
    (run_flush (λ n. err "down") (3 * length (flush two).in_flight) (flush two)).is_flushing ≡ false
run_flush_total_example = run_flush_total (λ n. err "down") flushed

drain_accepting_example :
    ((drain (λ k n. ok "tx") 10 two).queue ≡ [])
    × ((drain (λ k n. ok "tx") 10 two).written ≡ two.written ++ two.queue)
unfolding enqueue new_audit_queue
drain_accepting_example = drain_accepting (λ k n. "tx") 9 two refl refl
