-- ===== src/Lifecycle/Unspoiled.antt =====
-- While a command is pending no payload is executed, and so memory is as the manager left it.
use bmboot.Base.{ℕ, ◌+◌, ◌%◌, ◌^◌, ◌≡◌, ◌≢◌, sym, ◌∙◌, ap, arith}
use bmboot.Bus.{Bus}
use bmboot.Ipc.{ManagerToExecutor}
use bmboot.Monitor.{Executor, in_payload}
use bmboot.Monitor.Frame.{on_some}
use bmboot.Monitor.Loop.{main_round}
use bmboot.Monitor.Vectors.Frames.{
  Taken, fiq_interrupt-Taken, irq_interrupt-Taken, serror_interrupt-Taken,
  synchronous_interrupt-Taken,
}
use bmboot.Lifecycle.{
  CoreStep, loops, calls, works, hears, halts, takes_fiq, takes_irq, takes_serror, traps, Reach,
  here, next,
}
use bmboot.Lifecycle.Round.{Pending, main_round_ind}
use bmboot.Lifecycle.Invariant.{Inv, call-Keeps, CoreStep-Inv}
use bmboot.Lifecycle.Frames.{Taken-AtRest, not_payload}

module _ {b : Bus} (m : ℕ → ℕ) where
  abbrev pub Unspoiled : Executor b → Type 0
  Unspoiled e = Pending e → (e.memory ≡ m) × ((a : ℕ) → e.control ≢ in_payload a)

  round-Unspoiled : (e : Executor b) → Inv e → Unspoiled e → Unspoiled (main_round e)
  round-Unspoiled e i u =
      main_round_ind e Unspoiled u (λ p q. absurd (q (due p))) (λ p q. ((u p).0, λ a at. cc))
        (λ p ok q. absurd (q (due p))) (λ p q. absurd (q (due p)))
    where
      due : Pending e → e.block.to_executor.cmd_seq ≡ (e.block.to_manager.cmd_ack + 1) % 2 ^ 32
      due p = ground (arith, i.command)

  Taken-Unspoiled : (e e' : Executor b) → Taken e e' → Unspoiled e → Unspoiled e'
  Taken-Unspoiled e e' t u p = (
    t.frame.memory
        ∙ (u (λ same.
            p (
              ap (λ (o : ManagerToExecutor). o.cmd_seq) t.frame.inbox ∙ same ∙ sym t.frame.ack))).0,
    λ a. not_payload e' a (Taken-AtRest e e' t),
  )

  CoreStep-Unspoiled : {e e' : Executor b} → CoreStep e e' → Inv e → Unspoiled e → Unspoiled e'
  CoreStep-Unspoiled (loops e at) i u = round-Unspoiled e i u
  CoreStep-Unspoiled (calls e e' a r r' at same) i u =
      let k = call-Keeps e e' r r' same i in
      λ p.
        absurd
          ((u (λ q. p (ap (λ (o : ManagerToExecutor). o.cmd_seq) k.inbox ∙ q ∙ sym k.ack))).1 a at)
  CoreStep-Unspoiled (works e a memory at) i u = λ p. absurd ((u p).1 a at)
  CoreStep-Unspoiled (hears e s) i u = u
  CoreStep-Unspoiled (halts e a at crashed) i u = λ p. absurd ((u p).1 a at)
  CoreStep-Unspoiled (takes_fiq e e' same) i u =
      Taken-Unspoiled e e' (on_some (Taken e) _ e' (fiq_interrupt-Taken e) same) u
  CoreStep-Unspoiled (takes_irq e) i u = Taken-Unspoiled e _ (irq_interrupt-Taken e) u
  CoreStep-Unspoiled (takes_serror e elr) i u = Taken-Unspoiled e _ (serror_interrupt-Taken e elr) u
  CoreStep-Unspoiled (traps e e' r r' esr elr fp other same) i u =
      Taken-Unspoiled e e' (synchronous_interrupt-Taken e e' r r' esr elr fp other same) u

  pub Reach-Unspoiled :
      {e e' : Executor b} → Reach CoreStep e e' → Inv e → Unspoiled e → Inv e' × Unspoiled e'
  Reach-Unspoiled here i u = (i, u)
  Reach-Unspoiled (next r s) i u =
      let (i', u') = Reach-Unspoiled r i u in (CoreStep-Inv s i', CoreStep-Unspoiled s i' u')
