-- ===== src/Lifecycle/Invariant.antt =====
-- What holds of a core and the memory it shares with the manager, however their steps interleave.
use bmboot.Base.{ℕ, ◌^◌, ◌<◌, ◌≤◌, ◌≡◌, ◌⊎◌, inl, inr, refl, ap, sym, subst, ◌∙◌, arith, some}
use bmboot.Bus.{Bus}
use bmboot.Ipc.{Regs, next_seq, IpcBlock, ManagerToExecutor}
use bmboot.Types.{state_code, monitor_ready, starting_payload, crashed_payload, crashed_monitor}
use bmboot.Stdout.Refine.{getchar-moves}
use bmboot.Monitor.Setup.{start_main}
use bmboot.Stdout.Contents.{IsValid, IsValid-of}
use bmboot.Smc.{handle_smc}
use bmboot.Smc.Laws.{Keeps, Serves, served, handle_smc-Serves}
use bmboot.Smc.States.{Called, as_before, told_running, told_crashed, unknown, handle_smc-Called}
use bmboot.Monitor.{Executor, Control, in_main, in_dummy, in_payload, halted}
use bmboot.Monitor.Frame.{Frame, on_some}
use bmboot.Monitor.Loop.{main_round}
use bmboot.Monitor.Vectors.Frames.{
  Taken, Restarted, Stopped, fiq_interrupt-Taken, irq_interrupt-Taken, serror_interrupt-Taken,
  synchronous_interrupt-Taken, start_main-Restarted,
}
use bmboot.Manager.{Host}
use bmboot.Lifecycle.{
  CoreStep, loops, calls, works, hears, halts, takes_fiq, takes_irq, takes_serror, traps, Step,
  runs, sends, withdraws, reads, stores, Reach, here, next, Booted,
}
use bmboot.Lifecycle.Round.{Pending, main_round_ind}

-- The states that the manager may see while the core is at some place.
abbrev pub Shape : Control → ℕ → Type 0
Shape in_main s = s ≡ state_code monitor_ready
Shape in_dummy s = s ≡ state_code starting_payload
Shape (in_payload a) s = (state_code starting_payload ≤ s) × (s ≤ state_code crashed_payload)
Shape halted s = (s ≡ state_code crashed_payload) ⊎ (s ≡ state_code crashed_monitor)

-- The state that is reported tells where the core is; at most one command waits; and the positions of
-- the output are in range.
pub record Inv {b : Bus} (e : Executor b) : Type 0 where
  pub shape : Shape e.control e.block.to_manager.state
  pub command :
      (e.block.to_executor.cmd_seq ≡ e.block.to_manager.cmd_ack)
      ⊎ (e.block.to_executor.cmd_seq ≡ next_seq e.block.to_manager.cmd_ack)
  pub ack_in : e.block.to_manager.cmd_ack < 2 ^ 32
  pub stdout : IsValid e.block

Shape-le : (c : Control) (s : ℕ) → Shape c s → s ≤ 7
Shape-le in_main s h = omega arith
Shape-le in_dummy s h = omega arith
Shape-le (in_payload a) s h = omega arith
Shape-le halted s h = ground arith

module _ {b : Bus} where
  Taken-Inv : (e e' : Executor b) → Taken e e' → Inv e → Inv e'
  Taken-Inv e e' t i = record {
    shape = shaped t.outcome;
    command = ground (arith, t.frame, i.command);
    ack_in = omega (arith, t.frame, i);
    stdout = t.frame.stdout i.stdout;
  }
    where
      shaped : Restarted e' ⊎ Stopped e' → Shape e'.control e'.block.to_manager.state
      shaped (inl (at, is)) = subst (λ c. Shape c e'.block.to_manager.state) (sym at) is
      shaped (inr (at, is)) = subst (λ c. Shape c e'.block.to_manager.state) (sym at) (inr is)

  main_round-Inv : (e : Executor b) → e.control ≡ in_main → Inv e → Inv (main_round e)
  main_round-Inv e at i =
      main_round_ind e Inv i
        (λ pending. record {
          shape = i.shape;
          command = inl (due pending);
          ack_in = omega arith;
          stdout = IsValid-of e.block _ refl refl refl i.stdout;
        })
        (λ pending. record {
          shape = refl;
          command = i.command;
          ack_in = i.ack_in;
          stdout = IsValid-of e.block _ refl refl refl i.stdout;
        })
        (λ pending ok. record {
          shape = (omega arith, omega arith);
          command = inl (due pending);
          ack_in = omega arith;
          stdout = IsValid-of e.block _ refl refl refl i.stdout;
        })
        (λ pending. record {
          shape = subst (λ c. Shape c (state_code monitor_ready)) (sym at) refl;
          command = inl (due pending);
          ack_in = omega arith;
          stdout = IsValid-of e.block _ refl refl refl i.stdout;
        })
    where
      due : Pending e → e.block.to_executor.cmd_seq ≡ next_seq e.block.to_manager.cmd_ack
      due pending = ground (arith, i.command)

  pub call-Keeps :
      (e e' : Executor b) (r r' : Regs) → handle_smc e r ≡ some (e', r') → Inv e → Keeps e e'
  call-Keeps e e' r r' same i = kept_of (
      subst (Serves e r) same
        (handle_smc-Serves e r i.stdout (Shape-le e.control e.block.to_manager.state i.shape)))
    where
      kept_of : Serves e r (some (e', r')) → Keeps e e'
      kept_of (served _ _ k q) = k

  call-Inv :
      (e e' : Executor b) (a : ℕ) (r r' : Regs)
      → e.control ≡ in_payload a
      → handle_smc e r ≡ some (e', r')
      → Inv e
      → Inv e'
  call-Inv e e' a r r' at same i = record {
    shape = shaped (
        on_some (λ (p : Executor b × Regs). Called e p.0) _ (e', r')
          (handle_smc-Called e r i.stdout) same);
    command = ground (arith, i.command, keeps);
    ack_in = omega (arith, keeps, i);
    stdout = keeps.stdout;
  }
    where
      going : Shape (in_payload a) e.block.to_manager.state
      going = subst (λ c. Shape c e.block.to_manager.state) at i.shape

      keeps : Keeps e e'
      keeps = call-Keeps e e' r r' same i

      shaped : Called e e' → Shape e'.control e'.block.to_manager.state
      shaped (as_before c s) =
          subst (λ c. Shape c e'.block.to_manager.state) (sym (c ∙ at))
            (omega (arith, s, going), omega (arith, s, going))
      shaped (told_running c s) =
          subst (λ c. Shape c e'.block.to_manager.state) (sym (c ∙ at))
            (omega (arith, s), omega (arith, s))
      shaped (told_crashed c s) =
          subst (λ c. Shape c e'.block.to_manager.state) (sym (c ∙ at))
            (omega (arith, s), omega (arith, s))
      shaped (unknown c s) = subst (λ c. Shape c e'.block.to_manager.state) (sym c) (inr s)

  -- Nothing matters but the block and where the core is.
  same_block : (e e' : Executor b) → Inv e → e'.block ≡ e.block → e'.control ≡ e.control → Inv e'
  same_block e e' i same at = record {
    shape =
        subst (λ c. Shape c e'.block.to_manager.state) (sym at)
          (subst (λ (k : IpcBlock). Shape e.control k.to_manager.state) (sym same) i.shape);
    command = ground (arith, i.command, same);
    ack_in = subst (λ (k : IpcBlock). k.to_manager.cmd_ack < 2 ^ 32) (sym same) i.ack_in;
    stdout = subst IsValid (sym same) i.stdout;
  }

  pub CoreStep-Inv : {e e' : Executor b} → CoreStep e e' → Inv e → Inv e'
  CoreStep-Inv (loops e at) i = main_round-Inv e at i
  CoreStep-Inv (calls e e' a r r' at same) i = call-Inv e e' a r r' at same i
  CoreStep-Inv (works e a memory at) i = same_block e _ i refl refl
  CoreStep-Inv (hears e s) i = same_block e _ i refl refl
  CoreStep-Inv (halts e a at crashed) i = record {
    shape = inl crashed;
    command = i.command;
    ack_in = i.ack_in;
    stdout = i.stdout;
  }
  CoreStep-Inv (takes_fiq e e' same) i =
      Taken-Inv e e' (on_some (Taken e) _ e' (fiq_interrupt-Taken e) same) i
  CoreStep-Inv (takes_irq e) i = Taken-Inv e _ (irq_interrupt-Taken e) i
  CoreStep-Inv (takes_serror e elr) i = Taken-Inv e _ (serror_interrupt-Taken e elr) i
  CoreStep-Inv (traps e e' r r' esr elr fp other same) i =
      Taken-Inv e e' (synchronous_interrupt-Taken e e' r r' esr elr fp other same) i

  pub Step-Inv : {e e' : Executor b} → Step e e' → Inv e → Inv e'
  Step-Inv (runs s) i = CoreStep-Inv s i
  Step-Inv (sends e a free) i = record {
    shape = i.shape;
    command = inr (omega (arith, free));
    ack_in = i.ack_in;
    stdout = record {
      storage = i.stdout.storage;
      wrpos_in = i.stdout.wrpos_in;
      rdpos_in = i.stdout.wrpos_in;
    };
  }
  Step-Inv (withdraws e) i = record {
    shape = i.shape;
    command = i.command;
    ack_in = i.ack_in;
    stdout = IsValid-of e.block _ refl refl refl i.stdout;
  }
  Step-Inv (stores e memory) i = same_block e _ i refl refl
  Step-Inv (reads e) i =
      let (r, low, same) = getchar-moves e.block i.stdout in
      subst (λ k. Inv (record e { block = k })) (sym same)
        (record {
          shape = i.shape;
          command = i.command;
          ack_in = i.ack_in;
          stdout = record {
            storage = i.stdout.storage;
            wrpos_in = i.stdout.wrpos_in;
            rdpos_in = low;
          };
        })

  Reach-Inv : {e e' : Executor b} → Reach Step e e' → Inv e → Inv e'
  Reach-Inv here i = i
  Reach-Inv (next r s) i = Step-Inv s (Reach-Inv r i)

  pub Booted-Restarted :
      (h : Host b) (e : Executor b) (boot : Booted h e) → Frame boot.core e × Restarted e
  Booted-Restarted h e boot =
      on_some (λ e'. Frame boot.core e' × Restarted e') (start_main boot.core) e
        (start_main-Restarted boot.core) boot.started

  pub Booted-first : (h : Host b) (e : Executor b) → Booted h e → Inv e
  Booted-first h e boot =
      let (f, up) = Booted-Restarted h e boot in
      let seq : e.block.to_executor.cmd_seq ≡ 0 =
        ap (λ (o : ManagerToExecutor). o.cmd_seq) f.inbox
        ∙ ap (λ (k : IpcBlock). k.to_executor.cmd_seq) boot.fresh in
      let ack : e.block.to_manager.cmd_ack ≡ 0 =
        f.ack ∙ ap (λ (k : IpcBlock). k.to_manager.cmd_ack) boot.fresh in
      record {
        shape = subst (λ c. Shape c e.block.to_manager.state) (sym up.0) up.1;
        command = inl (seq ∙ sym ack);
        ack_in = omega (arith, ack);
        stdout = f.stdout (
            subst IsValid (sym boot.fresh)
              (record { storage = refl; wrpos_in = omega arith; rdpos_in = omega arith }));
      }

  -- Whatever steps the core and the manager take, and in whatever order, from the boot of the monitor
  -- on, where the manager sends a command only when none is pending: while the core is in the monitor's
  -- loop the state reported is `monitor_ready`, in the dummy payload `starting_payload`, in a payload
  -- `starting_payload`, `running_payload` or `crashed_payload`, and a crash once the core has stopped;
  -- the last command sent is the one acknowledged or the one after it; and the positions of the output
  -- are in range.
  pub Booted-Inv : (h : Host b) (e e' : Executor b) → Booted h e → Reach Step e e' → Inv e'
  Booted-Inv h e e' boot r = Reach-Inv r (Booted-first h e boot)
