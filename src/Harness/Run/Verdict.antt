-- ===== src/Harness/Run/Verdict.antt =====
-- What the exit code of `main` of chaos_harness.py says.
use nano_db.Common.{
  Option-cases, ℕ, zero, suc, ◌≡◌, ◌≢◌, refl, sym, ap, ◌↔◌, ◌∙◌, List, [], ◌∷◌, map, range, Bool,
  true, false, arith, nat_key, length, none, Bool-cases, inl, inr, take, All,
}
use nano_db.Common.Sets.{any}
use nano_db.Harness.{
  ManagedProcess, gone, kill, is_alive, build_processes, chaos_loop, num_coordinators,
}
use nano_db.Harness.Counters.{Reply, failure, response}
use nano_db.Harness.Validator.{Body, Violation}
use nano_db.Harness.Run.{
  is_ok, wait_for_coordinators_ready, wait_for_raft_leader, start_all, bring_up, final_read,
  exit_code, World, procs_of, run_chaos, run_started, main,
}

-- No process of the list is alive.
abbrev pub AllDown : List ManagedProcess → Type 0
AllDown ps = All (λ p. is_alive p ≡ false) ps

kill_down : (p : ManagedProcess) → is_alive (kill p) ≡ false
unfolding kill
kill_down p = elim (Bool-cases (is_alive p)) [
  | inl up ↦ rw up (gone_down p)
  | inr down ↦ rw down down
]
  where
    gone_down : (q : ManagedProcess) → is_alive (record q { proc = gone }) ≡ false
    gone_down q = ground (arith, is_alive)

kill-AllDown : (ps : List ManagedProcess) → AllDown (map kill ps)
kill-AllDown [] = tt
kill-AllDown (p ∷ ps) = (kill_down p, kill-AllDown ps)

final_read_lem :
    (attempts : ℕ) (replies : List (Reply Body))
    → (final_read attempts replies).0 ≡ any is_ok (take attempts replies)
unfolding final_read is_ok
final_read_lem zero replies = refl
final_read_lem (suc attempts) [] = refl
final_read_lem (suc attempts) (failure ∷ replies) = final_read_lem attempts replies
final_read_lem (suc attempts) (response status body ∷ replies) =
    ground (arith, final_read_lem attempts replies)

-- A run without objection: everything was built and started, the coordinators answered and
-- elected a leader, the validator has found nothing, and the final read-back was answered.
pub record IsPassed (w : World) (found : List Violation) : Type 0 where
  pub built : w.binaries ≡ true
  pub started : (start_all (w.started) (procs_of build_processes)).0 ≡ true
  pub ready : wait_for_coordinators_ready (w.ready) (range num_coordinators) ≡ true
  pub elected : wait_for_raft_leader (w.leads) (range num_coordinators) ≢ none
  pub nothing_found : found ≡ []
  pub reachable : any is_ok (take 10 (w.final_replies)) ≡ true

exit_code_iff : (n : ℕ) (fine : Bool) → (exit_code n fine ≡ 0) ↔ ((n ≡ 0) × (fine ≡ true))
unfolding exit_code
exit_code_iff n fine = ground arith

nil_of_length {ℓ} : {A : Type ℓ} (xs : List A) → length xs ≡ 0 → xs ≡ []
nil_of_length [] h = refl
nil_of_length (x ∷ xs) h = absurd (omega arith)

run_chaos_code :
    (w : World) (ps : List ManagedProcess)
    → ((run_chaos w ps).code ≡ 0)
      ↔ (((run_chaos w ps).watch.violations ≡ []) × (any is_ok (take 10 w.final_replies) ≡ true))
unfolding run_chaos
run_chaos_code w ps =
    let found = (run_chaos w ps).watch.violations in
    let both = exit_code_iff (length found) ((final_read 10 w.final_replies).0) in
    let read = final_read_lem 10 w.final_replies in
    (
      λ q. (nil_of_length found ((both.0 q).0), sym read ∙ (both.0 q).1),
      λ h. both.1 (ap length (h.0), read ∙ h.1),
    )

run_chaos_down : (w : World) (ps : List ManagedProcess) → AllDown ((run_chaos w ps).procs)
unfolding run_chaos
run_chaos_down w ps =
    kill-AllDown
      (bring_up w.brought_up (chaos_loop w.rounds (record { procs = ps; events = [] })).procs)

-- The run from the waits on.
run_started_lem :
    (w : World) (ps : List ManagedProcess)
    → AllDown ((run_started w ps).procs)
      × (((run_started w ps).code ≡ 0) ↔ (
          (wait_for_coordinators_ready w.ready (range num_coordinators) ≡ true)
          × (wait_for_raft_leader w.leads (range num_coordinators) ≢ none)
          × ((run_started w ps).watch.violations ≡ [])
          × (any is_ok (take 10 w.final_replies) ≡ true)))
unfolding run_started
run_started_lem w ps =
    elim (Bool-cases (wait_for_coordinators_ready w.ready (range num_coordinators))) [
      | inr late ↦ rw late (kill-AllDown ps, (λ q. absurd (omega arith), λ h. absurd (cc (h.0))))
      | inl ready ↦ elim (Option-cases (wait_for_raft_leader w.leads (range num_coordinators))) [
        | inl nobody ↦
            rw (ready, nobody)
              (kill-AllDown ps, (λ q. absurd (omega arith), λ h. absurd (h.1 refl)))
        | inr (n, leader) ↦
            let code = run_chaos_code w ps in
            rw (ready, leader)
              (
                run_chaos_down w ps,
                (λ q. (refl, λ e. absurd (cc), (code.0 q).0, (code.0 q).1), λ h. code.1 (h.2, h.3)),
              )
      ]
    ]

-- `main` exits with 0 exactly if the binaries are there, every process starts, the coordinators
-- become ready and elect a leader, the validator has found no violation and one of the ten final
-- reads is answered with 200; and if the processes could be started, then none is alive at the
-- end.
pub main_lem :
    (w : World)
    → (((main w).code ≡ 0) ↔ IsPassed w (main w).watch.violations)
      × ((start_all w.started (procs_of build_processes)).0 ≡ true → AllDown ((main w).procs))
unfolding main
main_lem w = elim (Bool-cases w.binaries) [
  | inr lost ↦ simp lost ((λ q. absurd (omega arith), λ h. absurd (cc (h.built, lost))), λ q. tt)
  | inl built ↦ elim (Bool-cases (start_all w.started (procs_of build_processes)).0) [
    | inr failed ↦
        simp (built, failed)
          ((λ q. absurd (omega arith), λ h. absurd (cc (h.started, failed))), λ q. absurd (cc))
    | inl fine ↦
        let h = run_started_lem w ((start_all w.started (procs_of build_processes)).1) in
        simp (built, fine)
          (
            (
              λ q.
                  let (a, b, c, d) = h.1.0 q in
                  record {
                    built = built;
                    started = fine;
                    ready = a;
                    elected = b;
                    nothing_found = c;
                    reachable = d;
                  },
              λ p. h.1.1 (p.ready, p.elected, p.nothing_found, p.reachable),
            ),
            λ q. h.0,
          )
  ]
]
