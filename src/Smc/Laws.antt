-- ===== src/Smc/Laws.antt =====
-- What every monitor call keeps, whatever the payload passes in its registers.
use bmboot.Base.{
  ℕ, suc, ◌+◌, ◌*◌, ◌≤◌, ◌≡◌, ◌⊎◌, inl, inr, refl, ap, sym, subst, arith, if◌then◌else◌, ◌==◌,
  Option, none, some, ℤ, pos, negsuc, to_int, ==_iff, get_or-set_ne, if_ind,
}
use bmboot.Bus.{Bus}
use bmboot.Ipc.{Regs, IpcBlock}
use bmboot.Types.{state_code, running_payload}
use bmboot.Monitor.Validate.{abi_major, abi_minor}
use bmboot.Monitor.{
  Executor, CrashingEntity, monitor, payload, crashed_state, read_bytes, literal, set_to_manager,
  report_crash,
}
use bmboot.Stdout.Contents.{IsValid}
use bmboot.Stdout.Refine.{write_to_stdout_lem, write_to_stdout-SameStatus}
use bmboot.Smc.{
  smc_get_abi_version, smc_notify_payload_started, smc_notify_payload_crashed, smc_write_stdout,
  smc_zynqmp_gic_irq_configure, smc_zynqmp_gic_irq_disable, smc_zynqmp_gic_irq_enable,
  payload_priority, handle_smc, crash_on_smc, unhandled_smc, x, set_x0, with_regs, write_smc,
  configure_irq, enable_irq, disable_irq,
}

-- What the executor promises the manager of the shared block, and of its own state.
pub record Keeps {b : Bus} (e e' : Executor b) : Type 0 where
  pub inbox : e'.block.to_executor ≡ e.block.to_executor
  pub stdout : IsValid e'.block
  pub state_in : e'.block.to_manager.state ≤ 7
  pub ack : e'.block.to_manager.cmd_ack ≡ e.block.to_manager.cmd_ack
  pub same_memory : e'.memory ≡ e.memory

-- All saved registers but x0.
abbrev pub SameButX0 : Regs → Regs → Type 0
SameButX0 r r' =
    ((n : ℕ) → x r' (suc n) ≡ x r (suc n))
    × (r'.sp ≡ r.sp)
    × (r'.pc ≡ r.pc)
    × (r'.pstate ≡ r.pstate)

-- What a call may come to: a state and registers that keep all that, or undefined behaviour where an
-- interrupt is enabled or disabled by a negative id.
pub data Serves {b : Bus} (e : Executor b) (r : Regs) : Option (Executor b × Regs) → Type 0 where
  undefined :
      (n : ℕ)
      → (x r 0 ≡ smc_zynqmp_gic_irq_disable) ⊎ (x r 0 ≡ smc_zynqmp_gic_irq_enable)
      → to_int (x r 1) ≡ negsuc n
      → Serves e r none
  served : (e' : Executor b) (r' : Regs) → Keeps e e' → SameButX0 r r' → Serves e r (some (e', r'))

set_x0-SameButX0 : (r : Regs) (v : ℕ) → SameButX0 r (set_x0 r v)
set_x0-SameButX0 r v =
    (λ n. get_or-set_ne r.regs 0 (suc n) v 0 (λ e. omega arith), refl, refl, refl)

SameButX0-refl : (r : Regs) → SameButX0 r r
SameButX0-refl r = (λ n. refl, refl, refl, refl)

crashed_state-le : (who : CrashingEntity) → state_code (crashed_state who) ≤ 7
crashed_state-le monitor = omega arith
crashed_state-le payload = omega arith

module _ {b : Bus} (e : Executor b) (r : Regs) (v : IsValid e.block)
    (s : e.block.to_manager.state ≤ 7) where
  unchanged_block : (e' : Executor b) → e'.block ≡ e.block → e'.memory ≡ e.memory → Keeps e e'
  unchanged_block e' p m = record {
    inbox = ap (λ (k : IpcBlock). k.to_executor) p;
    stdout = subst IsValid (sym p) v;
    state_in = subst (λ (k : IpcBlock). k.to_manager.state ≤ 7) (sym p) s;
    ack = ap (λ (k : IpcBlock). k.to_manager.cmd_ack) p;
    same_memory = m;
  }

  report_crash-Keeps :
      (who : CrashingEntity) (text : ℕ → ℕ) (a address : ℕ)
      → Keeps e (report_crash e who text a address)
  unfolding report_crash
  report_crash-Keeps who text a address = record {
    inbox = refl;
    stdout = record { storage = v.storage; wrpos_in = v.wrpos_in; rdpos_in = v.rdpos_in };
    state_in = crashed_state-le who;
    ack = refl;
    same_memory = refl;
  }

  configure_irq-block :
      (id : ℤ) (p : Option ℕ)
      → ((configure_irq e id p).block ≡ e.block) × ((configure_irq e id p).memory ≡ e.memory)
  unfolding configure_irq
  configure_irq-block id none = (refl, refl)
  configure_irq-block (negsuc n) (some p) = (refl, refl)
  configure_irq-block (pos id) (some p) = ground arith

  started-Keeps :
      Keeps e (set_to_manager e (record e.block.to_manager { state = state_code running_payload }))
  started-Keeps = record {
    inbox = refl;
    stdout = record { storage = v.storage; wrpos_in = v.wrpos_in; rdpos_in = v.rdpos_in };
    state_in = omega arith;
    ack = refl;
    same_memory = refl;
  }

  enable_irq-Serves :
      (id : ℤ)
      → x r 0 ≡ smc_zynqmp_gic_irq_enable
      → to_int (x r 1) ≡ id
      → Serves e r (with_regs r (enable_irq e id))
  unfolding enable_irq
  enable_irq-Serves (negsuc n) function same = undefined n (inr function) same
  enable_irq-Serves (pos id) function same =
      served _ r (unchanged_block _ refl refl) (SameButX0-refl r)

  disable_irq-Serves :
      (id : ℤ)
      → x r 0 ≡ smc_zynqmp_gic_irq_disable
      → to_int (x r 1) ≡ id
      → Serves e r (with_regs r (disable_irq e id))
  unfolding disable_irq
  disable_irq-Serves (negsuc n) function same = undefined n (inl function) same
  disable_irq-Serves (pos id) function same =
      served _ r (unchanged_block _ refl refl) (SameButX0-refl r)

  write_smc-Keeps : Keeps e (write_smc e r).0
  write_smc-Keeps =
      let (count, bytes, valid, framed) =
        write_to_stdout_lem e.block (read_bytes e.memory (x r 1) (x r 2)) v in
      let (state, ack, resp) =
        write_to_stdout-SameStatus e.block (read_bytes e.memory (x r 1) (x r 2)) v in
      record {
        inbox = framed;
        stdout = valid;
        state_in = omega arith;
        ack = ack;
        same_memory = refl;
      }

  configure_irq-Keeps : (id : ℤ) (p : Option ℕ) → Keeps e (configure_irq e id p)
  configure_irq-Keeps id p =
      let (same_block, same) = configure_irq-block id p in unchanged_block _ same_block same

  crash_on_smc-Keeps : (f : ℕ) → Keeps e (crash_on_smc e f)
  crash_on_smc-Keeps f =
      let k = report_crash-Keeps monitor (literal unhandled_smc) 0 f in
      record {
        inbox = k.inbox;
        stdout = record {
          storage = k.stdout.storage;
          wrpos_in = k.stdout.wrpos_in;
          rdpos_in = k.stdout.rdpos_in;
        };
        state_in = k.state_in;
        ack = k.ack;
        same_memory = k.same_memory;
      }

  either :
      {o o' : Option (Executor b × Regs)} (k n : ℕ)
      → (k ≡ n → Serves e r o)
      → Serves e r o'
      → Serves e r (if k == n then o else o')
  either k n p q = if_ind (Serves e r) (k == n) (λ same. p ((==_iff k n).0 same)) (λ _. q)

  -- Where the positions of the output are in range and the state reported is one that exists: whatever
  -- the payload passes in its registers, a monitor call leaves the manager's half of the
  -- block, the acknowledged command and memory alone, keeps the positions of the output in range
  -- and reports a state that exists; of the saved registers it changes x0 alone: the other general
  -- ones, the stack pointer, the return address and the processor state stay. The exception is a
  -- call that enables or disables an interrupt by a negative id, whose behaviour is undefined.
  pub handle_smc-Serves : Serves e r (handle_smc e r)
  unfolding handle_smc
  handle_smc-Serves =
      either (x r 0) smc_get_abi_version
        (λ _.
          served e (set_x0 r (abi_major * 256 + abi_minor)) (unchanged_block e refl refl)
            (set_x0-SameButX0 r (abi_major * 256 + abi_minor)))
        (either (x r 0) smc_notify_payload_started
          (λ _. served _ r started-Keeps (SameButX0-refl r))
          (either (x r 0) smc_notify_payload_crashed
            (λ _.
              served _ r (report_crash-Keeps payload e.memory (x r 1) (x r 2)) (SameButX0-refl r))
            (either (x r 0) smc_write_stdout
              (λ _.
                served (write_smc e r).0 (write_smc e r).1 write_smc-Keeps (set_x0-SameButX0 r _))
              (either (x r 0) smc_zynqmp_gic_irq_configure
                (λ _.
                  served _ r
                    (configure_irq-Keeps (to_int (x r 1)) (payload_priority (to_int (x r 2))))
                    (SameButX0-refl r))
                (either (x r 0) smc_zynqmp_gic_irq_disable
                  (λ f. disable_irq-Serves (to_int (x r 1)) f refl)
                  (either (x r 0) smc_zynqmp_gic_irq_enable
                    (λ f. enable_irq-Serves (to_int (x r 1)) f refl)
                    (served _ r (crash_on_smc-Keeps (x r 0)) (SameButX0-refl r))))))))
