-- ===== src/Lifecycle/Terminate.antt =====
-- `Domain::terminatePayload` of src/manager/domain.cpp together with the core it is about.
use bmboot.Base.{ℕ, ◌≡◌, ◌⊎◌, inl, sym, subst, ◌∙◌, ap, Option}
use bmboot.Bus.{Bus}
use bmboot.Ipc.{IpcBlock, ManagerToExecutor, noop}
use bmboot.Types.{monitor_ready}
use bmboot.Monitor.{Executor, in_main, halted}
use bmboot.Manager.{Cpu, World, Host, done}
use bmboot.Monitor.Loop.{main_round}
use bmboot.Manager.State.{get_state}
use bmboot.Manager.Boot.{withdraw_command, terminate_payload}
use bmboot.Manager.Boot.Laws.{terminate_payload-Ready}
use bmboot.Manager.Boot.Passes.{terminate_payload_ind}
use bmboot.Lifecycle.{CoreStep, Reach, withdraws}
use bmboot.Lifecycle.Invariant.{Inv, Step-Inv}
use bmboot.Lifecycle.Frames.{Reach-inbox, Resting, Withdrawn, Reach-Withdrawn, Withdrawn-settles}
use bmboot.Lifecycle.Drives.{Drives, ready_in_main}

module _ {b : Bus} (h : Host b) (d : Cpu) (core : World b → Executor b)
    (drives : Drives h core) where
  -- The command is withdrawn.
  abbrev pub Gone : World b → Type 0
  Gone v = Inv (core v) × Withdrawn (core v)

  pub Reach-Gone : (v v' : World b) → Reach CoreStep (core v) (core v') → Gone v → Gone v'
  Reach-Gone v v' r (i, p) =
      let (i', same) = Reach-inbox r i in (i', ap (λ (o : ManagerToExecutor). o.cmd) same ∙ p)

  pub withdraw_command-Gone :
      (w : World b) (o : Option ℕ)
      → Inv (core w)
      → Gone (withdraw_command h (record w { devmem = o }))
  withdraw_command-Gone w o i =
      let v = record w { devmem = o } in
      let same : core (withdraw_command h v)
          ≡ record (core v) { block = (withdraw_command h v).ipc } =
        drives.put v _ in
      let i' = Step-Inv (withdraws (core v)) (subst Inv (sym (drives.opens w o)) i) in
      (
        subst Inv (sym same) (
            subst
              (λ (k : IpcBlock). Inv (record (core v) {
                block = record k { to_executor = record k.to_executor { cmd = noop } };
              }))
              (drives.block v) i'),
        ap (λ (e : Executor b). e.block.to_executor.cmd) same,
      )

  -- The core and the block satisfy the invariant, and the core takes any of its steps while time
  -- passes and on a store to a device. If `terminatePayload` succeeds then the domain is ready and the
  -- core in the monitor's loop; and as long as the manager sends no command, the core stays there or has
  -- stopped for good, and executes no payload, even if a command was pending before. The next round
  -- of the loop leaves no command pending, so that a payload can be started again.
  pub terminate_payload-rests :
      (w : World b)
      → Inv (core w)
      → (terminate_payload h d w).0 ≡ done
      → let v = (terminate_payload h d w).1 in
        (get_state h d v ≡ monitor_ready)
        × ((core v).control ≡ in_main)
        × ((e : Executor b)
            → Reach CoreStep (core v) e
            → (e.control ≡ in_main) ⊎ (e.control ≡ halted))
        × (let k = (main_round (core v)).block in k.to_manager.cmd_ack ≡ k.to_executor.cmd_seq)
  terminate_payload-rests w i success =
      let v = (terminate_payload h d w).1 in
      let ready = terminate_payload-Ready h d w success in
      let (i', gone) =
        terminate_payload_ind h d Gone (λ n u. Reach-Gone u (h.elapse n u) (drives.elapse n u))
          (λ u a x.
            Reach-Gone u (record u { device = b.write32 u.device a x }) (drives.device u a x))
          w (λ o. withdraw_command-Gone w o i) success in
      let at = ready_in_main h d core drives v ready i' in
      let resting : Resting Withdrawn (core v) = record {
        inv = i';
        holds = gone;
        at_rest = inl at;
      } in
      (ready, at, λ e r. (Reach-Withdrawn r resting).at_rest, Withdrawn-settles (core v) i' gone)
