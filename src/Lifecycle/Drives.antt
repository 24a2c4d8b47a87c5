-- ===== src/Lifecycle/Drives.antt =====
-- The core as a part of the world that the manager of src/manager/domain.cpp acts on.
use bmboot.Base.{ℕ, ◌≡◌, refl, subst, ◌∙◌, ap, arith, Option}
use bmboot.Bus.{Bus}
use bmboot.Ipc.{IpcBlock}
use bmboot.Types.{monitor_ready, running_payload}
use bmboot.Monitor.{Executor, Control, in_main, in_dummy, in_payload, halted}
use bmboot.Manager.{Cpu, World, Host, DomainGeneralState}
use bmboot.Manager.State.{get_state, state_given}
use bmboot.Lifecycle.{CoreStep, Reach}
use bmboot.Lifecycle.Invariant.{Inv, Shape}

given-ready : (g : DomainGeneralState) (raw : ℕ) → state_given g raw ≡ monitor_ready → raw ≡ 1
given-ready g raw h = ground arith

given-running : (g : DomainGeneralState) (raw : ℕ) → state_given g raw ≡ running_payload → raw ≡ 3
given-running g raw h = ground arith

Shape-ready : (c : Control) → Shape c 1 → c ≡ in_main
Shape-ready in_main h = refl
Shape-ready c h = ground arith

Shape-running : (c : Control) → Shape c 3 → (a : ℕ) × (c ≡ in_payload a)
Shape-running (in_payload a) h = (a, refl)
Shape-running in_main h = absurd (omega arith)
Shape-running in_dummy h = absurd (omega arith)
Shape-running halted h = absurd (ground arith)

-- The core is part of the world, which the manager shares with it: they have the block and memory in
-- common; and the core takes its steps while time passes, and when the manager stores to a device, such
-- as the one that raises its interrupt.
pub record Drives {b : Bus} (h : Host b) (core : World b → Executor b) : Type 0 where
  pub block : (w : World b) → (core w).block ≡ w.ipc
  pub put :
      (w : World b) (k : IpcBlock) → core (record w { ipc = k }) ≡ record (core w) { block = k }
  pub store :
      (w : World b) (m : ℕ → ℕ) → core (record w { memory = m }) ≡ record (core w) { memory = m }
  pub opens : (w : World b) (o : Option ℕ) → core (record w { devmem = o }) ≡ core w
  pub elapse : (n : ℕ) (w : World b) → Reach CoreStep (core w) (core (h.elapse n w))
  pub device :
      (w : World b) (a v : ℕ)
      → Reach CoreStep (core w) (core (record w { device = b.write32 w.device a v }))

module _ {b : Bus} (h : Host b) (d : Cpu) (core : World b → Executor b)
    (drives : Drives h core) where
  pub same_memory : (w : World b) → (core w).memory ≡ w.memory
  same_memory w = ap (λ (e : Executor b). e.memory) (drives.store w w.memory)

  -- A domain that is ready is in the monitor's loop.
  pub ready_in_main :
      (v : World b) → get_state h d v ≡ monitor_ready → Inv (core v) → (core v).control ≡ in_main
  ready_in_main v seen i =
      let raw : (core v).block.to_manager.state ≡ 1 =
        ap (λ (k : IpcBlock). k.to_manager.state) (drives.block v)
        ∙ given-ready (v.general d) v.ipc.to_manager.state seen in
      Shape-ready (core v).control (subst (Shape (core v).control) raw i.shape)

  -- A domain whose payload is running executes one.
  pub running-entered :
      (v : World b)
      → get_state h d v ≡ running_payload
      → Inv (core v)
      → (x : ℕ) × ((core v).control ≡ in_payload x)
  running-entered v seen i =
      let raw : (core v).block.to_manager.state ≡ 3 =
        ap (λ (k : IpcBlock). k.to_manager.state) (drives.block v)
        ∙ given-running (v.general d) v.ipc.to_manager.state seen in
      Shape-running (core v).control (subst (Shape (core v).control) raw i.shape)
