-- ===== src/Manager/Boot/Laws.antt =====
-- What the manager may conclude from the result of `startup`, `terminatePayload` and
-- `ensureReadyToLoadPayload` of src/manager/domain.cpp, and what `bootCore` of
-- src/platform/zynqmp/manager/zynqmp_manager.cpp does to the reset register.
use bmboot.Base.{
  ℕ, zero, suc, ◌+◌, ◌-◌, ◌/◌, ◌%◌, ◌^◌, ◌<◌, ◌≡◌, ◌≢◌, refl, ap, ◌∙◌, arith, Bool, true, false,
  not, ◌&&◌, ◌||◌, if◌then◌else◌, ◌==◌, ltb, Option, none, some, length, bit_and, Bool-cases, inl,
  inr, if_ind,
}
use bmboot.Base.Bits.{test_bit, test_bit-and, test_bit-not, holds_below, holds_below-true}
use bmboot.Bus.{Bus}
use bmboot.Gic.{not32}
use bmboot.Types.{
  DomainState, ◌is◌, is_iff, monitor_ready, bad_domain_state, configuration_file_error,
  dev_mem_access_failed, crashed_payload, running_payload, starting_payload,
}
use bmboot.Types.{in_reset as reset_state}
use bmboot.Manager.{Cpu, cpu1, cpu2, cpu3, get_cpu_index, World, Host, Outcome, done, failed, fault}
use bmboot.Manager.Memory.{get_physical_memory_ranges}
use bmboot.Manager.State.{get_state, await_loop, await_monitor_startup}
use bmboot.Manager.Boot.{
  startup, terminate_payload, ensure_by, ensure_ready_to_load_payload, finish_startup,
  finish_terminate, install_and_boot, boot_core, install_monitor, fresh_block, send_ipi_message,
  withdraw_command, with_devmem, is_in_reset, is_started, reset_mask, rst_fpd_apu, rvbaraddr,
}

module _ {b : Bus} (h : Host b) (d : Cpu) where
  -- Success means that the monitor was seen ready.
  abbrev pub Ready : Outcome × World b → Type 0
  Ready r = r.0 ≡ done → get_state h d r.1 ≡ monitor_ready

  await_loop-Ready : (left : ℕ) (w : World b) → Ready (await_loop h d left w)
  unfolding await_loop
  await_loop-Ready zero w = λ e. cc
  await_loop-Ready (suc left) w =
      if_ind Ready (get_state h d (h.elapse 10000 w) is monitor_ready) (λ seen _. is_iff _ _ seen)
        (λ _. await_loop-Ready left (h.elapse 10000 w))

  await_monitor_startup-Ready : (w : World b) → Ready (await_monitor_startup h d w)
  unfolding await_monitor_startup
  await_monitor_startup-Ready w = await_loop-Ready 50 w

  finish_startup-Ready : (r : Outcome × World b) → Ready (finish_startup h d r)
  finish_startup-Ready (failed e, w) = λ p. cc
  finish_startup-Ready (fault, w) = λ p. cc
  finish_startup-Ready (done, w) = await_monitor_startup-Ready _

  finish_terminate-Ready : (r : Outcome × World b) → Ready (finish_terminate h d r)
  finish_terminate-Ready (failed e, w) = await_monitor_startup-Ready _
  finish_terminate-Ready (fault, w) = λ p. cc
  finish_terminate-Ready (done, w) = await_monitor_startup-Ready _

  -- A property of the failure to open the device and of what follows, whatever the handle.
  pub with_devmem_ind_of :
      (P : Outcome × World b → Type 0) (w : World b) (next : World b → Outcome × World b)
      → P (failed dev_mem_access_failed, w)
      → ((o : Option ℕ) → P (next (record w { devmem = o })))
      → P (with_devmem h w next)
  with_devmem_ind_of P w next unopened all = go w.devmem (h.open_dev_mem w)
    where
      go :
          (o p : Option ℕ)
          → P (elim o [
            | some fd ↦ next w
            | none ↦ elim p [
              | none ↦ (failed dev_mem_access_failed, w)
              | some fd ↦ next (record w { devmem = some fd })
            ]
          ])
      go (some fd) p = all w.devmem
      go none (some fd) = all (some fd)
      go none none = unopened

  -- A property of the failure to open the device and of all that follows.
  pub with_devmem_ind :
      (P : Outcome × World b → Type 0) (w : World b) (next : World b → Outcome × World b)
      → P (failed dev_mem_access_failed, w)
      → ((v : World b) → P (next v))
      → P (with_devmem h w next)
  with_devmem_ind P w next unopened all = with_devmem_ind_of P w next unopened (λ o. all _)

  with_devmem-Ready :
      (w : World b) (next : World b → Outcome × World b)
      → ((v : World b) → Ready (next v))
      → Ready (with_devmem h w next)
  with_devmem-Ready w next all = with_devmem_ind Ready w next (λ q. cc) all

  -- With the device open, it is not opened again.
  pub with_devmem-opened :
      (w : World b) (next : World b → Outcome × World b) (fd : ℕ)
      → w.devmem ≡ some fd
      → with_devmem h w next ≡ next w
  with_devmem-opened w next fd opened = go w.devmem opened
    where
      go :
          (o : Option ℕ)
          → o ≡ some fd
          → (elim o [
            | some n ↦ next w
            | none ↦ elim (h.open_dev_mem w) [
              | none ↦ (failed dev_mem_access_failed, w)
              | some n ↦ next (record w { devmem = some n })
            ]
          ])
            ≡ next w
      go (some n) e = refl
      go none e = cc

  install_and_boot-Ready : (cntfrq : ℕ) (w : World b) → Ready (install_and_boot h d cntfrq w)
  unfolding install_and_boot
  install_and_boot-Ready cntfrq w =
      let r = get_physical_memory_ranges d in
      elim (Bool-cases (not (h.mmap w r.monitor_address r.monitor_size))) [
        | inl unmapped ↦ rw (unmapped, if◌then◌else◌) (λ p. cc)
        | inr mapped ↦ elim (Bool-cases (ltb (r.monitor_size - 4) (length (h.monitor_binary d)))) [
          | inl large ↦ rw (mapped, large, if◌then◌else◌) (λ p. cc)
          | inr fits ↦
              rw (mapped, fits, if◌then◌else◌)
                (finish_startup-Ready (
                  boot_core h d r.monitor_address
                    (record (install_monitor h d w) { ipc = fresh_block h cntfrq })))
        ]
      ]

  pub startup-Ready : (w : World b) → Ready (startup h d w)
  unfolding startup
  startup-Ready w = go (h.configuration w)
    where
      go :
          (o : Option ℕ)
          → Ready (elim o [
            | none ↦ (failed configuration_file_error, w)
            | some cntfrq ↦
                if not (is_in_reset (w.general d))
                then (failed bad_domain_state, w)
                else with_devmem h w (install_and_boot h d cntfrq)
          ])
      go none = λ p. cc
      go (some cntfrq) = elim (Bool-cases (not (is_in_reset (w.general d)))) [
        | inl other ↦ rw (other, if◌then◌else◌) (λ p. cc)
        | inr reset ↦
            rw (reset, if◌then◌else◌)
              (with_devmem-Ready w (install_and_boot h d cntfrq) (install_and_boot-Ready cntfrq))
      ]

  pub terminate_payload-Ready : (w : World b) → Ready (terminate_payload h d w)
  unfolding terminate_payload
  terminate_payload-Ready w = elim (Bool-cases (not (is_started (w.general d)))) [
    | inl other ↦ rw (other, if◌then◌else◌) (λ p. cc)
    | inr started ↦
        rw (started, if◌then◌else◌)
          (with_devmem-Ready w
            (λ v. finish_terminate h d (send_ipi_message h d (withdraw_command h v)))
            (λ v. finish_terminate-Ready (send_ipi_message h d (withdraw_command h v))))
  ]

  ensure_by-Ready :
      (w : World b) (s : DomainState) → get_state h d w ≡ s → Ready (ensure_by h d w s)
  ensure_by-Ready w reset_state e = startup-Ready w
  ensure_by-Ready w monitor_ready e = λ _. e
  ensure_by-Ready w starting_payload e = terminate_payload-Ready w
  ensure_by-Ready w running_payload e = terminate_payload-Ready w
  ensure_by-Ready w crashed_payload e = terminate_payload-Ready w
  ensure_by-Ready w _ e = λ p. cc

  -- If `ensureReadyToLoadPayload` succeeds then the domain is ready, whichever way it took and
  -- whatever the rest of the machine did in the meantime.
  pub ensure_ready_to_load_payload-Ready :
      (w : World b)
      → (ensure_ready_to_load_payload h d w).0 ≡ done
      → get_state h d (ensure_ready_to_load_payload h d w).1 ≡ monitor_ready
  unfolding ensure_ready_to_load_payload
  ensure_ready_to_load_payload-Ready w = ensure_by-Ready w (get_state h d w) refl

abbrev same : Bool → Bool → Bool
same true x = x
same false x = not x

abbrev digit_check : Cpu → ℕ → Bool
digit_check d k =
    same (test_bit (reset_mask d) k) (k == get_cpu_index d || k == get_cpu_index d + 10)

digits_checked : (d : Cpu) → holds_below 32 (digit_check d) ≡ true
unfolding holds_below test_bit
digits_checked cpu1 = refl
digits_checked cpu2 = refl
digits_checked cpu3 = refl

reset_mask-lt : (d : Cpu) → reset_mask d < 2 ^ 32
reset_mask-lt cpu1 = omega arith
reset_mask-lt cpu2 = omega arith
reset_mask-lt cpu3 = omega arith

-- The reset mask of a core has the digits of its number and of ten more.
reset_mask-digits :
    (d : Cpu) (k : ℕ)
    → k < 32
    → test_bit (reset_mask d) k ≡ (k == get_cpu_index d || k == get_cpu_index d + 10)
reset_mask-digits d k p =
    digits_of_check d k (holds_below-true 32 (digit_check d) (digits_checked d) k p)
  where
    digits_of_check :
        (d : Cpu) (k : ℕ)
        → digit_check d k ≡ true
        → test_bit (reset_mask d) k ≡ (k == get_cpu_index d || k == get_cpu_index d + 10)
    digits_of_check d k e = ground arith

module _ {b : Bus} (h : Host b) (d : Cpu) where
  -- If `bootCore` succeeds then the core was held in reset; the core's entry address was stored
  -- first, and the last store releases the two reset digits of this core and keeps those of the
  -- others. Nothing else of the state changes.
  pub boot_core_lem :
      (a : ℕ) (w w' : World b)
      → boot_core h d a w ≡ (done, w')
      → (v : ℕ) × (w' ≡ record w {
        device =
            b.write32
              (b.write32
                (b.write32 w.device (rvbaraddr d) (a % 2 ^ 32))
                (rvbaraddr d + 4)
                (a / 2 ^ 32))
              rst_fpd_apu
              v;
      })
        × (bit_and (b.read32 w.device rst_fpd_apu) (reset_mask d) ≢ 0)
        × ((k : ℕ)
            → k < 32
            → test_bit v k ≡ (
                test_bit (b.read32 w.device rst_fpd_apu) k
                && not (k == get_cpu_index d || k == get_cpu_index d + 10)))
  unfolding boot_core
  boot_core_lem a w w' e = (
    bit_and (b.read32 w.device rst_fpd_apu) (not32 (reset_mask d)),
    ground arith,
    ground arith,
    λ k p.
        test_bit-and k (b.read32 w.device rst_fpd_apu) (not32 (reset_mask d))
        ∙ ap (λ x. test_bit (b.read32 w.device rst_fpd_apu) k && x)
            (test_bit-not 32 k (reset_mask d) (reset_mask-lt d) p
              ∙ ap not (reset_mask-digits d k p)),
  )
