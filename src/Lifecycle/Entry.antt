-- ===== src/Lifecycle/Entry.antt =====
-- A core executes no payload but one whose image the monitor has checked.
use bmboot.Base.{ℕ, ◌≡◌, ◌≢◌, ◌⊎◌, inl, inr, sym, subst, ◌∙◌}
use bmboot.Bus.{Bus}
use bmboot.Ipc.{Regs}
use bmboot.Smc.States.{Called, as_before, told_running, told_crashed, unknown, handle_smc-Called}
use bmboot.Monitor.{Executor, in_main, in_payload}
use bmboot.Monitor.Frame.{on_some}
use bmboot.Monitor.Validate.{IsPayload, validate_payload_lem}
use bmboot.Monitor.Loop.{main_round}
use bmboot.Monitor.Vectors.Frames.{
  Taken, fiq_interrupt-Taken, irq_interrupt-Taken, serror_interrupt-Taken,
  synchronous_interrupt-Taken,
}
use bmboot.Manager.{Host}
use bmboot.Lifecycle.{
  CoreStep, loops, calls, works, hears, halts, takes_fiq, takes_irq, takes_serror, traps, Step,
  runs, Reach, here, next, Booted,
}
use bmboot.Lifecycle.Round.{Pending, main_round_ind}
use bmboot.Lifecycle.Invariant.{Inv, Step-Inv, Booted-first, Booted-Restarted}

module _ {b : Bus} where
  -- The core is in the loop, was told the address by a command that is pending, and finds a payload
  -- there of the size and with the checksum that it was told.
  pub record Accepts (e : Executor b) (a : ℕ) : Type 0 where
    pub in_loop : e.control ≡ in_main
    pub pending : Pending e
    pub entry : e.block.to_executor.payload_entry_address ≡ a
    pub checked :
        IsPayload e.memory a e.block.to_executor.payload_size e.block.to_executor.payload_crc

  abbrev Enters : Executor b → Executor b → Type 0
  Enters e e' = (a : ℕ) → e'.control ≡ in_payload a → (e.control ≡ in_payload a) ⊎ Accepts e a

  Taken-Enters : (e e' : Executor b) → Taken e e' → Enters e e'
  Taken-Enters e e' t a at = elim t.outcome [ inl up ↦ cc | inr down ↦ cc ]

  round-Enters : (e : Executor b) → e.control ≡ in_main → Enters e (main_round e)
  round-Enters e main =
      main_round_ind e (Enters e) (λ a at. inl at) (λ _ a at. inl at) (λ _ a at. cc)
        (λ p ok a at.
          let told : e.block.to_executor.payload_entry_address ≡ a = cc in
          inr (record {
            in_loop = main;
            pending = p;
            entry = told;
            checked =
                subst (λ k. IsPayload e.memory k size crc) told
                  ((validate_payload_lem e.memory e.block.to_executor.payload_entry_address size
                      crc).0.0
                    ok);
          }))
        (λ _ a at. inl at)
    where
      size : ℕ
      size = e.block.to_executor.payload_size

      crc : ℕ
      crc = e.block.to_executor.payload_crc

  Called-Enters : (e e' : Executor b) → Called e e' → Enters e e'
  Called-Enters e e' (as_before c s) a at = inl (sym c ∙ at)
  Called-Enters e e' (told_running c s) a at = inl (sym c ∙ at)
  Called-Enters e e' (told_crashed c s) a at = inl (sym c ∙ at)
  Called-Enters e e' (unknown c s) a at = cc

  pub CoreStep-Enters : {e e' : Executor b} → CoreStep e e' → Inv e → Enters e e'
  CoreStep-Enters (loops e at) i = round-Enters e at
  CoreStep-Enters (calls e e' a r r' at same) i = Called-Enters e e' (
      on_some (λ (p : Executor b × Regs). Called e p.0) _ (e', r') (handle_smc-Called e r i.stdout)
        same)
  CoreStep-Enters (works e a memory at) i = λ a' at'. inl at'
  CoreStep-Enters (hears e s) i = λ a' at'. inl at'
  CoreStep-Enters (halts e a at crashed) i = λ a' at'. cc
  CoreStep-Enters (takes_fiq e e' same) i =
      Taken-Enters e e' (on_some (Taken e) _ e' (fiq_interrupt-Taken e) same)
  CoreStep-Enters (takes_irq e) i = Taken-Enters e _ (irq_interrupt-Taken e)
  CoreStep-Enters (takes_serror e elr) i = Taken-Enters e _ (serror_interrupt-Taken e elr)
  CoreStep-Enters (traps e e' r r' esr elr fp other same) i =
      Taken-Enters e e' (synchronous_interrupt-Taken e e' r r' esr elr fp other same)

  Step-Enters : {e e' : Executor b} → Step e e' → Inv e → Enters e e'
  Step-Enters (runs s) i = CoreStep-Enters s i
  Step-Enters _ i = λ a at. inl at

  -- The payload that is executed was accepted on the way.
  abbrev pub Entered : (Executor b → Executor b → Type 0) → Executor b → ℕ → Type 0
  Entered R e a = (s : Executor b) × Reach R e s × Accepts s a

  -- Where a step enters no payload but an accepted one, so do any number of them.
  pub Reach-Enters :
      (R : Executor b → Executor b → Type 0) (e e' : Executor b)
      → ((t u : Executor b) → R t u → Inv t → Inv u × Enters t u)
      → Inv e
      → ((a : ℕ) → e.control ≢ in_payload a)
      → Reach R e e'
      → Inv e' × ((a : ℕ) → e'.control ≡ in_payload a → Entered R e a)
  Reach-Enters R e _ step i outside here = (i, λ a at. absurd (outside a at))
  Reach-Enters R e e' step i outside (next {t} r s) =
      let (i', before) = Reach-Enters R e t step i outside r in
      let (i'', entering) = step t e' s i' in
      (i'', λ a at. elim (entering a at) [ inl was ↦ before a was | inr ok ↦ (t, r, ok) ])

  -- Whatever steps the core and the manager take, and in whatever order, from the boot of the monitor
  -- on, where the manager sends a command only when none is pending: a core that executes a payload at
  -- an address was at some moment before in the monitor's loop, with a command for that address
  -- pending, and memory held there an image of the size and with the checksum that it was told, with
  -- the right magic number and a known ABI version.
  pub Booted-Entered :
      (h : Host b) (e e' : Executor b) (a : ℕ)
      → Booted h e
      → Reach Step e e'
      → e'.control ≡ in_payload a
      → (s : Executor b) × Reach Step e s × Accepts s a
  Booted-Entered h e e' a boot r at =
      (Reach-Enters Step e e' (λ t u s i. (Step-Inv s i, Step-Enters s i)) (Booted-first h e boot)
          (λ a' at'. cc (Booted-Restarted h e boot).1.0) r).1
        a at
