-- ===== src/Audit/Queue/Flushing.antt =====
-- A flush ends: three writes for each entry are enough, whatever the contract writer answers
-- (src/audit/store.ts).
use zuul_proxy.Prelude.{
  ℕ, zero, suc, ◌+◌, ◌-◌, ◌*◌, ◌≤◌, ◌<◌, ◌≡◌, refl, ap, String, Bool, true, false, List, [], ◌∷◌,
  ltb, length, arith, Bool-cases, inl, inr,
}
use zuul_proxy.Types.{AuditEntry, Result, ok, err}
use zuul_proxy.Audit.Queue.{
  AuditQueue, World, advance, settle, write_result, max_attempts, run_flush,
}
use zuul_proxy.Audit.Queue.Conservation.{
  IsIdle, Reach, Reach-IsConserved, settle-IsIdle, settle-attempt,
}

-- The writes that the suspended flush can still make.
abbrev budget : World → ℕ
budget w = 3 * length w.in_flight - w.attempt

in_flight-advance :
    (q : AuditQueue) (rest written : List AuditEntry) → (advance q rest written).in_flight ≡ rest
unfolding advance
in_flight-advance q [] written = refl
in_flight-advance q (e ∷ rest) written = refl

advance-budget :
    (q : AuditQueue) (rest written : List AuditEntry)
    → budget (advance q rest written) ≡ 3 * length rest
unfolding advance
advance-budget q [] written = omega arith
advance-budget q (e ∷ rest) written = omega arith

settle-budget :
    (r : Result String String) (l : List AuditEntry) (w : World)
    → l ≡ w.in_flight
    → 0 < length l
    → w.attempt < max_attempts
    → budget (settle r l w) < budget w
unfolding settle
settle-budget r [] w h some_left small = absurd (omega arith)
settle-budget (ok tx) (e ∷ rest) w h some_left small =
    rw advance-budget (omega (arith, ap length h))
settle-budget (err m) (e ∷ rest) w h some_left small =
    elim (Bool-cases (ltb (w.attempt + 1) max_attempts)) [
      | inl again ↦ rw again (omega (arith, ap length h))
      | inr over ↦
          let last : 3 ≤ w.attempt + 1 = ground arith in
          rw over (rw advance-budget (omega (arith, ap length h)))
    ]

IsIdle-length : (b : Bool) (l : List AuditEntry) → b ≡ true → IsIdle b l → 0 < length l
IsIdle-length true (e ∷ l) h idle = omega arith
IsIdle-length true [] h idle = absurd idle
IsIdle-length false l h idle = absurd (cc)

run_flush_ends :
    (writer : ℕ → Result String String) (fuel : ℕ) (w : World)
    → IsIdle w.is_flushing w.in_flight
    → w.attempt < max_attempts
    → budget w ≤ fuel
    → (run_flush writer fuel w).is_flushing ≡ false
unfolding run_flush write_result
run_flush_ends writer zero w idle small le = elim (Bool-cases w.is_flushing) [
  | inl busy ↦ absurd (omega (arith, IsIdle-length w.is_flushing w.in_flight busy idle))
  | inr done ↦ done
]
run_flush_ends writer (suc fuel) w idle small le =
    let r = writer 0 in
    elim (Bool-cases w.is_flushing) [
      | inl busy ↦
          let some_left = IsIdle-length w.is_flushing w.in_flight busy idle in
          let smaller = settle-budget r w.in_flight w refl some_left small in
          ground (
            arith,
            busy,
            run_flush_ends (λ n. writer (suc n)) fuel (write_result r w)
                (settle-IsIdle r w.in_flight w refl idle) (settle-attempt r w.in_flight w small)
                (omega (arith, smaller)),
          )
      | inr done ↦ ground (arith, done)
    ]

-- From any state that enqueues, flush ticks and answers can lead to, three answers of the contract
-- writer for each entry in the running flush are enough to end it, whatever they are.
pub run_flush_total :
    (writer : ℕ → Result String String) {w : World} {log : List AuditEntry}
    → Reach w log
    → (run_flush writer (3 * length w.in_flight) w).is_flushing ≡ false
run_flush_total writer {w} r =
    let h = Reach-IsConserved r in
    run_flush_ends writer (3 * length w.in_flight) w h.idle h.bounded (omega arith)
