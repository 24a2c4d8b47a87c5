-- ===== src/Lifecycle/Start.antt =====
-- `Domain::startPayloadAt` of src/manager/domain.cpp together with the core it is about.
use bmboot.Base.{ℕ, ◌≡◌, ◌⊎◌, inl, inr, sym, subst, ◌∙◌, ap}
use bmboot.Bus.{Bus}
use bmboot.Ipc.{IpcBlock, ManagerToExecutor}
use bmboot.Types.{monitor_ready}
use bmboot.Monitor.{Executor, in_payload}
use bmboot.Monitor.Validate.{IsPayload}
use bmboot.Manager.{Cpu, World, Host, done}
use bmboot.Manager.State.{get_state}
use bmboot.Manager.Start.{StartArguments, send, start_payload_at}
use bmboot.Manager.Start.Laws.{Runs, start_payload_at-Runs}
use bmboot.Manager.Start.Polls.{start_payload_at_ind}
use bmboot.Lifecycle.Unspoiled.{Reach-Unspoiled}
use bmboot.Lifecycle.Drives.{Drives, same_memory, ready_in_main, running-entered}
use bmboot.Lifecycle.{CoreStep, Reach, here, sends}
use bmboot.Lifecycle.Invariant.{Inv, CoreStep-Inv, Step-Inv}
use bmboot.Lifecycle.Frames.{Reach_trans, Reach-inbox, Resting, Free, not_payload, Reach-Free}
use bmboot.Lifecycle.Entry.{Accepts, CoreStep-Enters, Reach-Enters}

module _ {b : Bus} (h : Host b) (d : Cpu) (core : World b → Executor b) (drives : Drives h core)
    (w : World b) (a : StartArguments) where
  -- The core when the command has just been sent.
  abbrev told : Executor b
  told = let w1 = h.elapse 0 w in record (core w1) { block = send w1.ipc a }

  -- Every moment of the start comes before the command or after it.
  start_payload_at-Reach :
      let r = start_payload_at h d w a in
      Reach CoreStep (core w) (core r.1) ⊎ Reach CoreStep told (core r.1)
  start_payload_at-Reach =
      start_payload_at_ind h d
        (λ v. Reach CoreStep (core w) (core v) ⊎ Reach CoreStep told (core v)) a
        (λ n v k. elim k [
          | inl before ↦ inl (Reach_trans before (drives.elapse n v))
          | inr after ↦ inr (Reach_trans after (drives.elapse n v))
        ])
        w (inl here)
        (λ ready free k. inr (subst (Reach CoreStep told) (sym (drives.put (h.elapse 0 w) _)) here))

  module _ (i : Inv (core w)) (ready : get_state h d w ≡ monitor_ready)
      (free : w.ipc.to_manager.cmd_ack ≡ w.ipc.to_executor.cmd_seq) where
    quiet : Resting (Free w.memory) (core w)
    quiet = record {
      inv = i;
      holds = (
        subst (λ (k : IpcBlock). k.to_manager.cmd_ack ≡ k.to_executor.cmd_seq)
            (sym (drives.block w)) free,
        same_memory h d core drives w,
      );
      at_rest = inl (ready_in_main h d core drives w ready i);
    }

    quiet_then : Resting (Free w.memory) (core (h.elapse 0 w))
    quiet_then = Reach-Free w.memory (drives.elapse 0 w) quiet

    told-Inv : Inv told
    told-Inv =
        let w1 = h.elapse 0 w in
        subst (λ k. Inv (record (core w1) { block = send k a })) (drives.block w1)
          (Step-Inv (sends (core w1) a quiet_then.holds.0) quiet_then.inv)

    -- What the core accepts after the command is what the command is about, and what lay in memory.
    accepted-told :
        (s : Executor b) (x : ℕ)
        → Reach CoreStep told s
        → Accepts s x
        → (x ≡ a.entry_address) × IsPayload w.memory a.entry_address a.payload_size a.payload_crc32
    accepted-told s x r ok =
        let inbox = (Reach-inbox r told-Inv).1 in
        let entry : x ≡ a.entry_address =
          sym ok.entry ∙ ap (λ (o : ManagerToExecutor). o.payload_entry_address) inbox in
        let memory : s.memory ≡ w.memory =
          ((Reach-Unspoiled w.memory r told-Inv (λ p.
              (quiet_then.holds.1, λ y. not_payload (core (h.elapse 0 w)) y quiet_then.at_rest))).1
            ok.pending).0 in
        (
          entry,
          subst (λ m. IsPayload m a.entry_address a.payload_size a.payload_crc32) memory
              (subst (λ y. IsPayload s.memory y a.payload_size a.payload_crc32) entry
                (subst
                  (λ (o : ManagerToExecutor). IsPayload s.memory x o.payload_size o.payload_crc)
                  inbox ok.checked)),
        )

    -- The core and the block satisfy the invariant, the domain is ready with no command pending, and
    -- the core takes any of its steps while time passes. If `startPayloadAt` succeeds then the core
    -- executes the payload at the entry address; and when the start began memory held at that address
    -- an image of the given size with the given checksum, the right magic number and a known ABI
    -- version.
    pub start_payload_at-entered :
        (start_payload_at h d w a).0 ≡ done
        → ((core (start_payload_at h d w a).1).control ≡ in_payload a.entry_address)
          × IsPayload w.memory a.entry_address a.payload_size a.payload_crc32
    unfolding Runs
    start_payload_at-entered success =
        let v = (start_payload_at h d w a).1 in
        let seen = start_payload_at-Runs h d w a success in
        elim start_payload_at-Reach [
          | inl before ↦
              let q = Reach-Free w.memory before quiet in
              let (x, at) = running-entered h d core drives v seen q.inv in
              absurd (not_payload (core v) x q.at_rest at)
          | inr after ↦
              let (i', entering) =
                Reach-Enters CoreStep told (core v)
                  (λ t u s k. (CoreStep-Inv s k, CoreStep-Enters s k)) told-Inv
                  (λ y. not_payload (core (h.elapse 0 w)) y quiet_then.at_rest) after in
              let (x, at) = running-entered h d core drives v seen i' in
              let (s, r, ok) = entering x at in
              let (entry, checked) = accepted-told s x r ok in (at ∙ ap in_payload entry, checked)
        ]
