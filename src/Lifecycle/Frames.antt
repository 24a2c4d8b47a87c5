-- ===== src/Lifecycle/Frames.antt =====
-- What the core's steps leave alone.
use bmboot.Base.{ℕ, ap, Bool-cases, ◌==◌, ◌≡◌, ◌≢◌, ◌⊎◌, inl, inr, refl, sym, subst, ◌∙◌, arith}
use bmboot.Bus.{Bus}
use bmboot.Monitor.{Executor, in_main, in_payload, halted}
use bmboot.Monitor.Frame.{on_some}
use bmboot.Monitor.Loop.{main_round}
use bmboot.Ipc.{noop, ManagerToExecutor}
use bmboot.Monitor.Loop.Laws.{main_round-noop, main_round_idle, main_round-ack}
use bmboot.Monitor.Vectors.Frames.{
  Taken, fiq_interrupt-Taken, irq_interrupt-Taken, serror_interrupt-Taken,
  synchronous_interrupt-Taken,
}
use bmboot.Lifecycle.{
  CoreStep, loops, calls, works, hears, halts, takes_fiq, takes_irq, takes_serror, traps, Reach,
  here, next,
}
use bmboot.Lifecycle.Invariant.{Inv, call-Keeps, CoreStep-Inv}

module _ {b : Bus} where
  pub Reach_trans :
      {R : Executor b → Executor b → Type 0} {e e1 e2 : Executor b}
      → Reach R e e1
      → Reach R e1 e2
      → Reach R e e2
  Reach_trans r here = r
  Reach_trans r (next s t) = next (Reach_trans r s) t

  CoreStep-inbox :
      {e e' : Executor b} → CoreStep e e' → Inv e → e'.block.to_executor ≡ e.block.to_executor
  CoreStep-inbox (loops e at) i = (main_round-ack e).1
  CoreStep-inbox (calls e e' a r r' at same) i = (call-Keeps e e' r r' same i).inbox
  CoreStep-inbox (works e a memory at) i = refl
  CoreStep-inbox (hears e s) i = refl
  CoreStep-inbox (halts e a at crashed) i = refl
  CoreStep-inbox (takes_fiq e e' same) i =
      (on_some (Taken e) _ e' (fiq_interrupt-Taken e) same).frame.inbox
  CoreStep-inbox (takes_irq e) i = (irq_interrupt-Taken e).frame.inbox
  CoreStep-inbox (takes_serror e elr) i = (serror_interrupt-Taken e elr).frame.inbox
  CoreStep-inbox (traps e e' r r' esr elr fp other same) i =
      (synchronous_interrupt-Taken e e' r r' esr elr fp other same).frame.inbox

  -- The core never stores to the manager's half.
  pub Reach-inbox :
      {e e' : Executor b}
      → Reach CoreStep e e'
      → Inv e
      → Inv e' × (e'.block.to_executor ≡ e.block.to_executor)
  Reach-inbox here i = (i, refl)
  Reach-inbox (next r s) i =
      let (i', same) = Reach-inbox r i in (CoreStep-Inv s i', CoreStep-inbox s i' ∙ same)

  -- Where the core is when it executes no payload and is about to start none.
  abbrev pub AtRest : Executor b → Type 0
  AtRest e = (e.control ≡ in_main) ⊎ (e.control ≡ halted)

  pub not_payload : (e : Executor b) (a : ℕ) → AtRest e → e.control ≢ in_payload a
  not_payload e a (inl up) at = cc
  not_payload e a (inr down) at = cc

  pub Taken-AtRest : (e e' : Executor b) → Taken e e' → AtRest e'
  Taken-AtRest e e' t = elim t.outcome [ inl up ↦ inl up.0 | inr down ↦ inr down.0 ]

  -- A core at rest, of which a property holds.
  pub record Resting (P : Executor b → Type 0) (e : Executor b) : Type 0 where
    pub inv : Inv e
    pub holds : P e
    pub at_rest : AtRest e

  -- A core at rest stays there, with a property of the block, if that is kept where the executor's
  -- half changes in its state alone, and by a round of the loop.
  module _ (P : Executor b → Type 0)
      (kept : (e e' : Executor b)
        → e'.block.to_executor ≡ e.block.to_executor
        → e'.block.to_manager.cmd_ack ≡ e.block.to_manager.cmd_ack
        → e'.memory ≡ e.memory
        → P e
        → P e')
      (round : (e : Executor b)
        → P e
        → P (main_round e) × ((main_round e).control ≡ e.control)) where
    Taken-Resting : {e e' : Executor b} → CoreStep e e' → Taken e e' → Resting P e → Resting P e'
    Taken-Resting {e} {e'} s t q = record {
      inv = CoreStep-Inv s q.inv;
      holds = kept e e' t.frame.inbox t.frame.ack t.frame.memory q.holds;
      at_rest = Taken-AtRest e e' t;
    }

    CoreStep-Resting : {e e' : Executor b} → CoreStep e e' → Resting P e → Resting P e'
    CoreStep-Resting (loops e at) q =
        let (p, same) = round e q.holds in
        record { inv = CoreStep-Inv (loops e at) q.inv; holds = p; at_rest = inl (same ∙ at) }
    CoreStep-Resting (calls e e' a r r' at same) q = absurd (not_payload e a q.at_rest at)
    CoreStep-Resting (works e a memory at) q = absurd (not_payload e a q.at_rest at)
    CoreStep-Resting (hears e s) q = record {
      inv = CoreStep-Inv (hears e s) q.inv;
      holds = kept e _ refl refl refl q.holds;
      at_rest = q.at_rest;
    }
    CoreStep-Resting (halts e a at crashed) q = absurd (not_payload e a q.at_rest at)
    CoreStep-Resting (takes_fiq e e' same) q =
        Taken-Resting (takes_fiq e e' same) (on_some (Taken e) _ e' (fiq_interrupt-Taken e) same) q
    CoreStep-Resting (takes_irq e) q = Taken-Resting (takes_irq e) (irq_interrupt-Taken e) q
    CoreStep-Resting (takes_serror e elr) q =
        Taken-Resting (takes_serror e elr) (serror_interrupt-Taken e elr) q
    CoreStep-Resting (traps e e' r r' esr elr fp other same) q =
        Taken-Resting (traps e e' r r' esr elr fp other same)
          (synchronous_interrupt-Taken e e' r r' esr elr fp other same) q

    pub Reach-Resting : {e e' : Executor b} → Reach CoreStep e e' → Resting P e → Resting P e'
    Reach-Resting here q = q
    Reach-Resting (next r s) q = CoreStep-Resting s (Reach-Resting r q)

  -- Nothing is pending, and memory is as given.
  abbrev pub Free : (ℕ → ℕ) → Executor b → Type 0
  Free m e = (e.block.to_manager.cmd_ack ≡ e.block.to_executor.cmd_seq) × (e.memory ≡ m)

  -- The command that may be pending starts nothing.
  abbrev pub Withdrawn : Executor b → Type 0
  Withdrawn e = e.block.to_executor.cmd ≡ noop

  pub Reach-Free :
      (m : ℕ → ℕ) {e e' : Executor b}
      → Reach CoreStep e e'
      → Resting (Free m) e
      → Resting (Free m) e'
  Reach-Free m r q =
      Reach-Resting (Free m)
        (λ e e' inbox ack memory p.
          (ack ∙ p.0 ∙ sym (ap (λ (o : ManagerToExecutor). o.cmd_seq) inbox), memory ∙ p.1))
        (λ e p.
          let idle = main_round_idle e (inl (sym p.0)) in
          (subst (Free m) (sym idle) p, ap (λ (k : Executor b). k.control) idle))
        r q

  pub Withdrawn-round :
      (e : Executor b)
      → Withdrawn e
      → Withdrawn (main_round e) × ((main_round e).control ≡ e.control)
  Withdrawn-round e p =
      let noop_still : (main_round e).block.to_executor.cmd ≡ noop =
        ap (λ (o : ManagerToExecutor). o.cmd) (main_round-ack e).1 ∙ p in
      elim (Bool-cases (e.block.to_executor.cmd_seq == e.block.to_manager.cmd_ack)) [
        | inl same ↦ (
          noop_still,
          ap (λ (k : Executor b). k.control) (main_round_idle e (inl (ground arith))),
        )
        | inr differ ↦
            (noop_still, ap (λ (k : Executor b). k.control) (main_round-noop e (ground arith) p))
      ]

  pub Reach-Withdrawn :
      {e e' : Executor b} → Reach CoreStep e e' → Resting Withdrawn e → Resting Withdrawn e'
  Reach-Withdrawn r q =
      Reach-Resting Withdrawn
        (λ e e' inbox ack memory p. ap (λ (o : ManagerToExecutor). o.cmd) inbox ∙ p) Withdrawn-round
        r q

  -- A round of the loop acknowledges a command that was withdrawn.
  pub Withdrawn-settles :
      (e : Executor b)
      → Inv e
      → Withdrawn e
      → (main_round e).block.to_manager.cmd_ack ≡ (main_round e).block.to_executor.cmd_seq
  Withdrawn-settles e i p =
      elim (Bool-cases (e.block.to_executor.cmd_seq == e.block.to_manager.cmd_ack)) [
        | inl same ↦ subst Settled (sym (main_round_idle e (inl (ground arith)))) (ground arith)
        | inr differ ↦
            subst Settled (sym (main_round-noop e (ground arith) p)) (ground (arith, i.command))
      ]
    where
      Settled : Executor b → Type 0
      Settled k = k.block.to_manager.cmd_ack ≡ k.block.to_executor.cmd_seq
