-- ===== src/Monitor/Vectors/Frames.antt =====
-- What the exceptions to EL3 leave of the shared block: either the monitor starts afresh, or it has
-- crashed for good.
use bmboot.Base.{
  ℕ, ◌+◌, ◌/◌, ◌%◌, ◌^◌, ◌≡◌, ◌≢◌, ◌⊎◌, inl, inr, refl, arith, false, not, if◌then◌else◌, ◌==◌,
  Option, none, some, List, if_ind, bit_and,
}
use bmboot.Bus.{Bus}
use bmboot.Ipc.{Regs, FpRegs}
use bmboot.Zynqmp.{
  IpiChannel, get_ipi_base_address, get_ipi_peer_mask, get_interrupt_id_for_ipi,
  get_ipi_channel_for_cpu, ipi_src_bmboot_manager,
}
use bmboot.Types.{state_code, monitor_ready, crashed_monitor}
use bmboot.Monitor.{Executor, monitor, in_main, halted, literal, set_to_manager}
use bmboot.Monitor.Frame.{Frame, OnSome, on_some, OnSome-map, Frame-of, Frame-trans}
use bmboot.Monitor.Setup.{ready, ipi_setup, enable_cpu_interrupts, setup_interrupts, start_main}
use bmboot.Monitor.Vectors.{
  ec_smc, fiq_text, irq_text, crash_on_interrupt, set_device, acknowledge_ipi, kill, handle_fiq,
  fiq_interrupt, irq_interrupt, synchronous_interrupt, serror_interrupt,
}

module _ {b : Bus} where
  -- The monitor is ready and in its loop.
  abbrev pub Restarted : Executor b → Type 0
  Restarted e = (e.control ≡ in_main) × (e.block.to_manager.state ≡ state_code monitor_ready)

  -- The core has stopped for good, and says so.
  abbrev pub Stopped : Executor b → Type 0
  Stopped e = (e.control ≡ halted) × (e.block.to_manager.state ≡ state_code crashed_monitor)

  -- The core's start leaves it in its loop and ready.
  pub start_main-Restarted :
      (e : Executor b) → OnSome (λ e'. Frame e e' × Restarted e') (start_main e)
  unfolding start_main setup_interrupts ipi_setup enable_cpu_interrupts
  start_main-Restarted e = go (get_ipi_channel_for_cpu e.cpu_index)
    where
      from : Executor b
      from = enable_cpu_interrupts (record e { cntfrq = e.block.to_executor.cntfrq })

      set_up : Option IpiChannel → Option (Executor b)
      set_up none = none
      set_up (some mine) = some (record from { irq = ipi_setup from.irq mine e.cpu_index })

      readied : Option (Executor b) → Option (Executor b)
      readied none = none
      readied (some e') = some (ready e')

      go : (o : Option IpiChannel) → OnSome (λ e'. Frame e e' × Restarted e') (readied (set_up o))
      go none = tt
      go (some mine) = (Frame-of e _ refl refl refl refl refl, (refl, refl))

  -- The result of an exception: a new start, or the end.
  pub record Taken (e e' : Executor b) : Type 0 where
    pub frame : Frame e e'
    pub outcome : Restarted e' ⊎ Stopped e'

  crash_on_interrupt-Taken :
      (e e0 : Executor b) (xs : List ℕ) (iar : ℕ)
      → Frame e e0
      → Taken e (crash_on_interrupt e0 xs iar)
  unfolding bmboot.Monitor.report_crash
  crash_on_interrupt-Taken e e0 xs iar f = record {
    frame = Frame-trans e e0 _ f (Frame-of e0 _ refl refl refl refl refl);
    outcome = inr (refl, refl);
  }

  pub irq_interrupt-Taken : (e : Executor b) → Taken e (irq_interrupt e)
  unfolding irq_interrupt
  irq_interrupt-Taken e =
      let (iar, s) = b.read_iar e.irq.device in
      crash_on_interrupt-Taken e (set_device e s) irq_text iar
        (Frame-of e _ refl refl refl refl refl)

  pub serror_interrupt-Taken : (e : Executor b) (elr : ℕ) → Taken e (serror_interrupt e elr)
  unfolding serror_interrupt bmboot.Monitor.report_crash
  serror_interrupt-Taken e elr = record {
    frame = Frame-of e _ refl refl refl refl refl;
    outcome = inr (refl, refl);
  }

  pub synchronous_interrupt-Taken :
      (e e' : Executor b) (r r' : Regs) (esr elr : ℕ) (fp : FpRegs)
      → (esr / 2 ^ 26 % 64) ≢ ec_smc
      → synchronous_interrupt e r esr elr fp ≡ some (e', r')
      → Taken e e'
  unfolding synchronous_interrupt bmboot.Monitor.report_crash
  synchronous_interrupt-Taken e e' r r' esr elr fp other same =
      on_some (λ (p : Executor b × Regs). Taken e p.0) (synchronous_interrupt e r esr elr fp)
        (e', r')
        (rw (not_call, if◌then◌else◌)
          (record { frame = Frame-of e _ refl refl refl refl refl; outcome = inr (refl, refl) }))
        same
    where
      not_call : (esr / 2 ^ 26 % 64 == ec_smc) ≡ false
      not_call = ground arith

  restarted : (e e0 : Executor b) → Frame e e0 → OnSome (Taken e) (start_main e0)
  restarted e e0 f =
      OnSome-map (λ e'. Frame e0 e' × Restarted e') (Taken e) (start_main e0)
        (λ e' p. record { frame = Frame-trans e e0 e' f p.0; outcome = inl p.1 })
        (start_main-Restarted e0)

  handle_fiq-Taken :
      (e e0 : Executor b) (mine : IpiChannel) (iar : ℕ)
      → Frame e e0
      → OnSome (Taken e) (handle_fiq e0 mine iar)
  unfolding handle_fiq kill bmboot.Monitor.report_crash
  handle_fiq-Taken e e0 mine iar f =
      if_ind (OnSome (Taken e)) (bit_and iar 0x3FF == get_interrupt_id_for_ipi mine)
        (λ _.
          if_ind (OnSome (Taken e))
            (not (
              bit_and (b.read32 e0.irq.device (get_ipi_base_address mine + 0x10))
                (get_ipi_peer_mask ipi_src_bmboot_manager)
              == 0))
            (λ _. restarted e _ (Frame-trans e e0 _ f (Frame-of e0 _ refl refl refl refl refl)))
            (λ _. crash_on_interrupt-Taken e (acknowledge_ipi e0 mine iar) fiq_text iar acked))
        (λ _. crash_on_interrupt-Taken e e0 fiq_text iar f)
    where
      acked : Frame e (acknowledge_ipi e0 mine iar)
      acked = Frame-trans e e0 _ f (Frame-of e0 _ refl refl refl refl refl)

  pub fiq_interrupt-Taken : (e : Executor b) → OnSome (Taken e) (fiq_interrupt e)
  unfolding fiq_interrupt
  fiq_interrupt-Taken e = go (get_ipi_channel_for_cpu e.cpu_index)
    where
      entered : Executor b
      entered = set_device e (b.read_iar e.irq.device).1

      go :
          (o : Option IpiChannel)
          → OnSome (Taken e) (elim o as (λ _. Option (Executor b)) [
            | none ↦ none
            | some mine ↦ handle_fiq entered mine (b.read_iar e.irq.device).0
          ])
      go none = tt
      go (some mine) =
          handle_fiq-Taken e entered mine (b.read_iar e.irq.device).0
            (Frame-of e entered refl refl refl refl refl)
