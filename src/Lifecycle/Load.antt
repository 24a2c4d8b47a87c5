-- ===== src/Lifecycle/Load.antt =====
-- `Domain::loadAndStartPayload` of src/manager/domain.cpp together with the core it is about.
use bmboot.Base.{
  ℕ, ◌≡◌, sym, subst, ◌∙◌, ap, arith, not, if◌then◌else◌, ltb, List, length, if_ind, Option,
}
use bmboot.Bus.{Bus}
use bmboot.Crc.{crc32}
use bmboot.Types.{◌is◌, is_iff, monitor_ready, mmap_failed}
use bmboot.Monitor.{Executor, in_payload}
use bmboot.Monitor.Validate.{IsPayload}
use bmboot.Manager.{Cpu, World, Host, Outcome, done, failed}
use bmboot.Manager.State.{get_state}
use bmboot.Manager.Memory.{get_physical_memory_ranges, store_bytes, read_bytes-store_bytes}
use bmboot.Manager.Start.{start_payload_at}
use bmboot.Manager.Boot.Laws.{with_devmem_ind_of}
use bmboot.Manager.Load.{
  size_aligned, load_to_physical_memory, and_then, start_arguments, load_and_start_payload,
}
use bmboot.Lifecycle.{stores}
use bmboot.Lifecycle.Invariant.{Inv, Step-Inv}
use bmboot.Lifecycle.Drives.{Drives}
use bmboot.Lifecycle.Start.{start_payload_at-entered}

module _ {b : Bus} (h : Host b) (d : Cpu) (core : World b → Executor b) (drives : Drives h core)
    (binary : List ℕ) (crc argument : ℕ) where
  abbrev place : ℕ
  place = (get_physical_memory_ranges d).payload_address

  -- The core executes the payload, whose image has the checksum.
  abbrev Checked : World b → Outcome × World b → Type 0
  Checked w r =
      r.0 ≡ done
      → ((core r.1).control ≡ in_payload place)
        × (crc32 0 binary ≡ crc)
        × IsPayload (store_bytes w.memory place binary) place (length binary) crc

  -- The world with the payload in memory, whatever the handle of the device.
  abbrev loaded : World b → Option ℕ → World b
  loaded w o = record w { devmem = o; memory = store_bytes w.memory place binary }

  loaded-Inv : (w : World b) (o : Option ℕ) → Inv (core w) → Inv (core (loaded w o))
  loaded-Inv w o i =
      let m = store_bytes w.memory place binary in
      subst Inv (sym (drives.store (record w { devmem = o }) m)) (
        Step-Inv (stores (core (record w { devmem = o })) m) (subst Inv (sym (drives.opens w o)) i))

  module _ (w : World b) (i : Inv (core w))
      (free : w.ipc.to_manager.cmd_ack ≡ w.ipc.to_executor.cmd_seq) where
    started-Checked :
        get_state h d w ≡ monitor_ready
        → (o : Option ℕ)
        → Checked w (start_payload_at h d (loaded w o) (start_arguments h d binary crc argument))
    started-Checked ready o success =
        let (at, ok) =
          start_payload_at-entered h d core drives (loaded w o)
            (start_arguments h d binary crc argument) (loaded-Inv w o i) ready free success in
        (at, ap (crc32 0) (sym (read_bytes-store_bytes w.memory place binary)) ∙ ok.checksum, ok)

    -- The core and the block satisfy the invariant, no command is pending, and the core takes any of
    -- its steps while time passes. If `loadAndStartPayload` succeeds then the core executes the payload
    -- at the start of the domain's payload region, the checksum that was passed is that of the payload,
    -- and its image in memory has the right magic number and a known ABI version.
    pub load_and_start_payload-checked :
        (load_and_start_payload h d binary crc argument w).0 ≡ done
        → ((core (load_and_start_payload h d binary crc argument w).1).control
            ≡ in_payload (get_physical_memory_ranges d).payload_address)
          × (crc32 0 binary ≡ crc)
          × IsPayload
              (store_bytes w.memory (get_physical_memory_ranges d).payload_address binary)
              (get_physical_memory_ranges d).payload_address
              (length binary)
              crc
    unfolding load_and_start_payload load_to_physical_memory
    load_and_start_payload-checked =
        let r = get_physical_memory_ranges d in
        let start : World b → Outcome × World b =
          λ v. start_payload_at h d v (start_arguments h d binary crc argument) in
        if_ind (Checked w) (not (get_state h d w is monitor_ready)) (λ _ q. cc)
          λ ready.
            if_ind (Checked w) (ltb r.payload_size (length binary)) (λ _ q. cc)
              λ fits.
                with_devmem_ind_of h d (λ m. Checked w (and_then h m start)) w
                  (λ v.
                    if not (h.mmap v r.payload_address (size_aligned h binary))
                    then (failed mmap_failed, v)
                    else (
                      done,
                      record v { memory = store_bytes v.memory r.payload_address binary },
                    ))
                  (λ q. cc)
                  λ o.
                    if_ind (λ m. Checked w (and_then h m start))
                      (not (
                        h.mmap (record w { devmem = o }) r.payload_address (size_aligned h binary)))
                      (λ _ q. cc) (λ _. started-Checked (is_iff _ _ (ground arith)) o)
