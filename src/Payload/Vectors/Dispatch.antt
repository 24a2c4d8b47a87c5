-- ===== src/Payload/Vectors/Dispatch.antt =====
-- What the payload's IRQ vector does (src/platform/zynqmp/executor/payload/vectors_el1.cpp).
use bmboot.Base.{
  ℕ, ◌-◌, ◌^◌, ◌%◌, ◌≤◌, ◌<◌, ◌⊎◌, inl, inr, ◌≡◌, refl, ap, ◌∙◌, arith, true, false, leb, Option,
  none, some, List, ◌++◌, length, replicate, bit_and, bit_or,
}
use bmboot.Base.Bits.{test_bit, test_bit-and, test_bit-or}
use bmboot.Bus.{Bus, gicc_eoir}
use bmboot.Sys.{SysBus, PlainRegisters, daif, spsr_el1, elr_el1}
use bmboot.Ipc.{gic_max_user_interrupt_id, fault_desc_size}
use bmboot.Types.{state_code, crashed_payload}
use bmboot.Monitor.{payload, halted, report_crash}
use bmboot.Manager.Crash.{get_crash_info, get_crash_info-report_crash, IsText}
use bmboot.Payload.{Core, Handler, set_executor, write_sys, read_sys}
use bmboot.Payload.Runtime.{call_handler}
use bmboot.Payload.Runtime.Calls.{notify_payload_crashed_lem}
use bmboot.Payload.Vectors.{
  Texts, acknowledged, leave, halt, end_of_interrupt, handler_of, crash_on_interrupt, dispatch,
  irq_interrupt, daif_i_mask, not_daif_i_mask,
}

word_bit : (v : ℕ) → test_bit (v % 2 ^ 64) 7 ≡ test_bit v 7
unfolding test_bit
word_bit v = ground arith

mask_bit : (v : ℕ) → test_bit (bit_or v daif_i_mask) 7 ≡ true
unfolding test_bit
mask_bit v = ground (arith, test_bit-or 7 v daif_i_mask)

unmask_bit : (v : ℕ) → test_bit (bit_and v not_daif_i_mask) 7 ≡ false
unfolding test_bit
unmask_bit v = ground (arith, test_bit-and 7 v not_daif_i_mask)

module _ {b : Bus} {y : SysBus} (c : Core b y) where
  -- `IAR` as the vector reads it, the id in it, and the core when the handler is called.
  abbrev pub iar : ℕ
  iar = (b.read_iar c.executor.irq.device).0

  abbrev pub interrupt_id : ℕ
  interrupt_id = bit_and iar 0x3FF

  abbrev pub taken : Core b y
  taken = acknowledged c (b.read_iar c.executor.irq.device).1

  abbrev pub entered : Core b y
  entered = write_sys taken daif (bit_and (read_sys c daif) not_daif_i_mask)

module _ {b : Bus} {y : SysBus} (texts : Texts) (run : ℕ → Core b y → Option (Core b y))
    (c : Core b y) where
  dispatched :
      (c' : Core b y) (h : Handler)
      → interrupt_id c ≤ gic_max_user_interrupt_id
      → c.handlers (interrupt_id c) ≡ some h
      → call_handler run h (entered c) ≡ some c'
      → irq_interrupt texts run c
        ≡ some (leave c' (read_sys c spsr_el1) (read_sys c elr_el1) (iar c))
  unfolding irq_interrupt dispatch
  dispatched c' h i known done =
      let fits : leb (interrupt_id c) gic_max_user_interrupt_id ≡ true = ground arith in
      rw (fits, known, done) refl

  -- An interrupt with an id of at most 187 and a handler that returns, where the saved state and
  -- the return address are words of 64 bits, and the registers hold what is stored: the handler
  -- runs with interrupts unmasked; afterwards they are masked, the two registers have what they
  -- had, the interrupt is acknowledged to the controller, and the block and the handlers are as the
  -- handler left them.
  pub irq_interrupt-handled :
      (p : PlainRegisters y) (c' : Core b y) (h : Handler)
      → interrupt_id c ≤ gic_max_user_interrupt_id
      → c.handlers (interrupt_id c) ≡ some h
      → call_handler run h (entered c) ≡ some c'
      → read_sys c spsr_el1 < 2 ^ 64
      → read_sys c elr_el1 < 2 ^ 64
      → (r : Core b y) × (irq_interrupt texts run c ≡ some r)
        × (test_bit (read_sys (entered c) daif) 7 ≡ false)
        × (test_bit (read_sys r daif) 7 ≡ true)
        × (read_sys r spsr_el1 ≡ read_sys c spsr_el1)
        × (read_sys r elr_el1 ≡ read_sys c elr_el1)
        × (r.executor.irq.device ≡ b.write32 c'.executor.irq.device gicc_eoir (iar c))
        × (r.executor.block ≡ c'.executor.block)
        × (r.handlers ≡ c'.handlers)
  irq_interrupt-handled p c' h i known done spsr_word elr_word = (
    leave c' (read_sys c spsr_el1) (read_sys c elr_el1) (iar c),
    dispatched c' h i known done,
    ap (λ k. test_bit k 7) (p.read-write _ _ _ _ refl refl) ∙ word_bit _ ∙ unmask_bit _,
    ap (λ k. test_bit k 7)
          (p.read-write _ _ _ _ refl refl
            ∙ p.read-write _ _ _ _ refl refl
            ∙ p.read-write _ _ _ _ refl refl)
        ∙ word_bit _
        ∙ mask_bit _,
    p.read-write _ _ _ _ refl refl ∙ p.read-write _ _ _ _ refl refl ∙ omega arith,
    p.read-write _ _ _ _ refl refl ∙ omega arith,
    refl,
    refl,
    refl,
  )

  handler_missing :
      (gic_max_user_interrupt_id < interrupt_id c) ⊎ (c.handlers (interrupt_id c) ≡ none)
      → handler_of c (interrupt_id c) ≡ none
  handler_missing (inl above) = ground arith
  handler_missing (inr unset) = rw unset (ground arith)

  -- An interrupt whose id is above 187 or has no handler, where the text of at most 32 bytes lies
  -- at its address: the manager finds the payload crashed, with what was read of the interrupt as
  -- the address and with the text; the interrupt is acknowledged, and the core halts.
  pub irq_interrupt-unhandled :
      (xs : List ℕ)
      → (gic_max_user_interrupt_id < interrupt_id c) ⊎ (c.handlers (interrupt_id c) ≡ none)
      → IsText c.executor.memory texts.irq xs
      → length xs ≤ fault_desc_size
      → (r : Core b y) × (irq_interrupt texts run c ≡ some r)
        × (get_crash_info r.executor.block
            ≡ record { pc = iar c; desc = xs ++ replicate (fault_desc_size - length xs) 0 })
        × (r.executor.block.to_manager.state ≡ state_code crashed_payload)
        × (r.executor.control ≡ halted)
        × (r.executor.irq.device ≡ b.write32 (b.read_iar c.executor.irq.device).1 gicc_eoir (iar c))
  unfolding irq_interrupt dispatch crash_on_interrupt report_crash
  irq_interrupt-unhandled xs none_known t fits =
      let missing = handler_missing none_known in
      let (info, state) =
        get_crash_info-report_crash (taken c).executor payload c.executor.memory texts.irq (iar c)
          xs t fits in
      (
        halt (
            end_of_interrupt
              (set_executor (taken c)
                (report_crash (taken c).executor payload c.executor.memory texts.irq (iar c)))
              (iar c)),
        rw (missing, notify_payload_crashed_lem (taken c) texts.irq (iar c)) refl,
        info,
        state,
        refl,
        refl,
      )
