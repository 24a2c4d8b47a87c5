-- ===== src/Payload/Runtime/Calls.antt =====
-- What the monitor calls of src/executor/payload/payload_runtime.cpp come to.
use bmboot.Base.{
  ℕ, ◌^◌, ◌+◌, ◌<◌, ◌≡◌, refl, arith, if◌then◌else◌, some, lt→ltb, ap, ℤ, pos, ◌∙◌, to_int, ◌%◌,
  ◌-◌, negsuc,
}
use bmboot.Bus.{Bus}
use bmboot.Sys.{SysBus}
use bmboot.Monitor.{payload, report_crash, read_bytes}
use bmboot.Stdout
use bmboot.Smc.{
  handle_smc, int_to_reg, configure_irq, payload_priority, smc_zynqmp_gic_irq_configure,
}
use bmboot.Payload.{Core, set_executor, smc}
use bmboot.Payload.Runtime.{
  PayloadInterruptPriority, p7_max, p6, p5, p4, p3, p2, p1, p0_min, priority_code,
  notify_payload_crashed, write_to_stdout,
}

pub to_int-pos : (n : ℕ) → n < 2 ^ 31 → to_int n ≡ pos n
to_int-pos n h =
    let small : n % 2 ^ 32 ≡ n = omega arith in
    rw small (ap (λ t. if t then pos n else negsuc (2 ^ 32 - 1 - n)) (lt→ltb _ _ h))

to_int-int_to_reg : (n : ℕ) → n < 2 ^ 31 → to_int (int_to_reg n) ≡ pos n
to_int-int_to_reg n h =
    let small : n % 2 ^ 32 ≡ n = omega arith in
    let same : int_to_reg n ≡ n =
      rw small (ap (λ t. if t then n else n + (2 ^ 64 - 2 ^ 32)) (lt→ltb _ _ h)) in
    ap to_int same ∙ to_int-pos n h

priority-to_int : (p : PayloadInterruptPriority) → to_int (priority_code p) ≡ pos (priority_code p)
priority-to_int p7_max = refl
priority-to_int p6 = refl
priority-to_int p5 = refl
priority-to_int p4 = refl
priority-to_int p3 = refl
priority-to_int p2 = refl
priority-to_int p1 = refl
priority-to_int p0_min = refl

module _ {b : Bus} {y : SysBus} (c : Core b y) where
  pub notify_payload_crashed_lem :
      (desc address : ℕ)
      → notify_payload_crashed c desc address
        ≡ some (set_executor c (report_crash c.executor payload c.executor.memory desc address))
  unfolding notify_payload_crashed smc handle_smc
  notify_payload_crashed_lem desc address = refl

  pub configure_lem :
      (id : ℕ) (p : PayloadInterruptPriority)
      → id < 2 ^ 31
      → smc c smc_zynqmp_gic_irq_configure id (priority_code p)
        ≡ some (
          set_executor c
              (configure_irq c.executor (pos id) (payload_priority (pos (priority_code p)))),
          smc_zynqmp_gic_irq_configure,
        )
  unfolding smc handle_smc
  configure_lem id p h =
      ap
        (λ t. some (
          set_executor c (configure_irq c.executor t (payload_priority (to_int (priority_code p)))),
          smc_zynqmp_gic_irq_configure,
        ))
        (to_int-pos id h)
      ∙ ap
          (λ t. some (
            set_executor c (configure_irq c.executor (pos id) (payload_priority t)),
            smc_zynqmp_gic_irq_configure,
          ))
          (priority-to_int p)

  pub write_to_stdout_call :
      (address n : ℕ)
      → let out =
          Stdout.write_to_stdout c.executor.block (read_bytes c.executor.memory address n) in
        out.1 ≡ n
        → n < 2 ^ 31
        → write_to_stdout c address n
          ≡ some (set_executor c (record c.executor { block = out.0 }), pos n)
  unfolding write_to_stdout smc handle_smc
  write_to_stdout_call address n count short =
      ap
        (λ (t : ℕ). some (
          set_executor c (record c.executor {
            block =
                (Stdout.write_to_stdout c.executor.block
                  (read_bytes c.executor.memory address n)).0;
          }),
          to_int (int_to_reg t),
        ))
        count
      ∙ ap
          (λ (t : ℤ). some (
            set_executor c (record c.executor {
              block =
                  (Stdout.write_to_stdout c.executor.block
                    (read_bytes c.executor.memory address n)).0;
            }),
            t,
          ))
          (to_int-int_to_reg n short)
