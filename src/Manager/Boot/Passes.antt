-- ===== src/Manager/Boot/Passes.antt =====
-- What `terminatePayload` of src/manager/domain.cpp keeps from the withdrawal of the command on: all
-- that time and its stores to devices keep.
use bmboot.Base.{ℕ, zero, suc, ◌+◌, ◌*◌, ◌≡◌, not, if◌then◌else◌, ltb, Option, none, some, if_ind}
use bmboot.Bus.{Bus}
use bmboot.Zynqmp.{
  IpiChannel, get_ipi_base_address, get_ipi_peer_mask, get_ipi_channel_for_cpu,
  ipi_src_bmboot_manager,
}
use bmboot.Types.{◌is◌, monitor_ready}
use bmboot.Manager.{Cpu, get_cpu_index, World, Host, Outcome, done, failed, fault}
use bmboot.Manager.State.{get_state, await_loop, await_monitor_startup}
use bmboot.Manager.Boot.{
  is_started, message_buffer_base, message_word, write_message, send_ipi_message, withdraw_command,
  finish_terminate, terminate_payload,
}
use bmboot.Manager.Boot.Laws.{with_devmem_ind_of}

module _ {b : Bus} (h : Host b) (d : Cpu) (P : World b → Type 0)
    (elapses : (n : ℕ) (v : World b) → P v → P (h.elapse n v))
    (writes : (v : World b) (a x : ℕ)
      → P v
      → P (record v { device = b.write32 v.device a x })) where
  abbrev Ends : Outcome × World b → Type 0
  Ends r = P r.1

  await_loop_ind : (left : ℕ) (w : World b) → P w → P (await_loop h d left w).1
  unfolding await_loop
  await_loop_ind zero w k = k
  await_loop_ind (suc left) w k =
      let k1 = elapses 10000 w k in
      if_ind Ends (get_state h d (h.elapse 10000 w) is monitor_ready) (λ _. k1)
        (λ _. await_loop_ind left (h.elapse 10000 w) k1)

  write_message_ind :
      (left i base : ℕ) (w : World b) (s : b.State)
      → P (record w { device = s })
      → P (record w { device = write_message h left i base s })
  unfolding write_message
  write_message_ind zero i base w s k = k
  write_message_ind (suc left) i base w s k = write_message_ind left (i + 1) base w _ (
      writes (record w { device = s }) (base + i * 4)
        (if ltb i 5 then message_word i else h.stack i) k)

  pub send_ipi_message_ind : (w : World b) → P w → P (send_ipi_message h d w).1
  unfolding send_ipi_message
  send_ipi_message_ind w k = go (get_ipi_channel_for_cpu (get_cpu_index d))
    where
      written : IpiChannel → b.State
      written c = write_message h 8 0 (message_buffer_base c) w.device

      sent : (c : IpiChannel) → P (record w { device = written c })
      sent c = write_message_ind 8 0 (message_buffer_base c) w w.device k

      go :
          (o : Option IpiChannel)
          → Ends (elim o as (λ _. Outcome × World b) [
            | none ↦ (fault, w)
            | some c ↦
                if not (h.mmap w 0xFF990000 0x1000)
                then (fault, w)
                else if not (h.mmap w (get_ipi_base_address ipi_src_bmboot_manager) 0x1000)
                then (fault, record w { device = written c })
                else (
                  done,
                  record w {
                    device =
                        b.write32
                          (written c)
                          (get_ipi_base_address ipi_src_bmboot_manager)
                          (get_ipi_peer_mask c);
                  },
                )
          ])
      go none = k
      go (some c) =
          if_ind Ends (not (h.mmap w 0xFF990000 0x1000)) (λ _. k)
            λ _.
              if_ind Ends (not (h.mmap w (get_ipi_base_address ipi_src_bmboot_manager) 0x1000))
                (λ _. sent c) (λ _. writes (record w { device = written c }) _ _ (sent c))

  finish_terminate_ind : (r : Outcome × World b) → P r.1 → P (finish_terminate h d r).1
  unfolding await_monitor_startup
  finish_terminate_ind (done, w) k = await_loop_ind 50 w k
  finish_terminate_ind (failed e, w) k = await_loop_ind 50 w k
  finish_terminate_ind (fault, w) k = k

  -- A success comes after the withdrawal.
  pub terminate_payload_ind :
      (w : World b)
      → ((o : Option ℕ) → P (withdraw_command h (record w { devmem = o })))
      → (terminate_payload h d w).0 ≡ done
      → P (terminate_payload h d w).1
  unfolding terminate_payload
  terminate_payload_ind w withdrawn =
      let Succeeds : Outcome × World b → Type 0 = λ r. r.0 ≡ done → P r.1 in
      if_ind Succeeds (not (is_started (w.general d))) (λ _ p. cc)
        λ _.
          with_devmem_ind_of h d Succeeds w
            (λ v. finish_terminate h d (send_ipi_message h d (withdraw_command h v))) (λ p. cc)
            λ o _.
              finish_terminate_ind
                (send_ipi_message h d (withdraw_command h (record w { devmem = o })))
                (send_ipi_message_ind _ (withdrawn o))
