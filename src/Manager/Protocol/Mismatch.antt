-- ===== src/Manager/Protocol/Mismatch.antt =====
-- `Domain::loadAndStartPayload` of src/manager/domain.cpp with a checksum that is not the payload's.
use bmboot.Base.{
  ℕ, ◌≤◌, ◌≡◌, ◌≢◌, refl, sym, ap, ◌∙◌, arith, true, not, if◌then◌else◌, some, List, length,
  ltb-false,
}
use bmboot.Bus.{Bus}
use bmboot.Crc.{crc32}
use bmboot.Ipc.{IpcBlock, crc_mismatched}
use bmboot.Types.{◌is◌, monitor_ready, payload_checksum_mismatch, mmap_failed}
use bmboot.Monitor.{Executor}
use bmboot.Monitor.Validate.{validate_payload, validate_payload_lem}
use bmboot.Monitor.Loop.{main_round}
use bmboot.Monitor.Loop.Laws.{verdict}
use bmboot.Manager.{Cpu, cpu1, cpu2, cpu3, World, Host, Outcome, done, failed}
use bmboot.Manager.Memory.{get_physical_memory_ranges, store_bytes, read_bytes-store_bytes}
use bmboot.Manager.State.{get_state}
use bmboot.Manager.Start.{send, start_payload_at}
use bmboot.Manager.Boot.Laws.{with_devmem-opened}
use bmboot.Manager.Load.{
  size_aligned, load_to_physical_memory, and_then, start_arguments, load_and_start_payload,
}
use bmboot.Manager.Protocol.{rejection, sent, start_payload_at-rejected}

payload_not_dummy : (d : Cpu) → (get_physical_memory_ranges d).payload_address ≢ 0xbaadf00d
payload_not_dummy cpu1 = λ e. omega arith
payload_not_dummy cpu2 = λ e. omega arith
payload_not_dummy cpu3 = λ e. omega arith

module _ {b : Bus} (h : Host b) (d : Cpu) where
  -- The world after the payload was copied to the domain's memory.
  abbrev pub loaded : World b → List ℕ → World b
  loaded w binary = record w {
    memory = store_bytes w.memory (get_physical_memory_ranges d).payload_address binary;
  }

  verdict-mismatch :
      (e : Executor b) (memory : ℕ → ℕ) (block : IpcBlock) (binary : List ℕ) (crc argument : ℕ)
      → e.block ≡ send block (start_arguments h d binary crc argument)
      → e.memory ≡ store_bytes memory (get_physical_memory_ranges d).payload_address binary
      → crc32 0 binary ≢ crc
      → verdict e ≡ crc_mismatched
  verdict-mismatch e memory block binary crc argument same stored wrong =
      let a = (get_physical_memory_ranges d).payload_address in
      ap
        (λ (k : IpcBlock).
          validate_payload e.memory k.to_executor.payload_entry_address k.to_executor.payload_size
            k.to_executor.payload_crc)
        same
      ∙ ap (λ m. validate_payload m a (length binary) crc) stored
      ∙ (validate_payload_lem (store_bytes memory a binary) a (length binary) crc).1.1
          (λ q. wrong (ap (crc32 0) (sym (read_bytes-store_bytes memory a binary)) ∙ q))

  load_to_physical_memory-loaded :
      (w : World b) (binary : List ℕ) (fd : ℕ)
      → w.devmem ≡ some fd
      → h.mmap w (get_physical_memory_ranges d).payload_address (size_aligned h binary) ≡ true
      → load_to_physical_memory h (get_physical_memory_ranges d).payload_address binary w
        ≡ (done, loaded w binary)
  unfolding load_to_physical_memory
  load_to_physical_memory-loaded w binary fd opened mapped =
      let a = (get_physical_memory_ranges d).payload_address in
      with_devmem-opened h d w
        (λ v.
          if not (h.mmap v a (size_aligned h binary))
          then (failed mmap_failed, v)
          else (done, record v { memory = store_bytes v.memory a binary }))
        fd opened
      ∙ rw (mapped, if◌then◌else◌) refl

  load_and_start_payload-started :
      (w : World b) (binary : List ℕ) (crc argument fd : ℕ)
      → get_state h d w ≡ monitor_ready
      → length binary ≤ (get_physical_memory_ranges d).payload_size
      → w.devmem ≡ some fd
      → h.mmap w (get_physical_memory_ranges d).payload_address (size_aligned h binary) ≡ true
      → load_and_start_payload h d binary crc argument w
        ≡ start_payload_at h d (loaded w binary) (start_arguments h d binary crc argument)
  unfolding load_and_start_payload
  load_and_start_payload-started w binary crc argument fd ready fits opened mapped =
      let is_ready : (get_state h d w is monitor_ready) ≡ true =
        ap (λ s. s is monitor_ready) ready in
      rw (load_and_start_payload, is_ready, ltb-false _ _ fits, if◌then◌else◌)
        (ap
          (λ r.
            and_then h r (λ v. start_payload_at h d v (start_arguments h d binary crc argument)))
          (load_to_physical_memory-loaded w binary fd opened mapped))

  -- A payload that fits is loaded and started on a domain that is ready with no command pending; the
  -- device of memory is open and can be mapped. While the manager sleeps the core, which sees the
  -- memory as the manager left it, does one round of its loop, and a further round finds nothing to
  -- do. If the checksum given is not that of the payload, the manager returns
  -- `payload_checksum_mismatch`.
  pub load_and_start_payload-mismatch :
      (w : World b) (binary : List ℕ) (crc argument fd : ℕ) (e : Executor b)
      → get_state h d w ≡ monitor_ready
      → length binary ≤ (get_physical_memory_ranges d).payload_size
      → w.devmem ≡ some fd
      → h.mmap w (get_physical_memory_ranges d).payload_address (size_aligned h binary) ≡ true
      → (let w1 = h.elapse 0 (loaded w binary) in
          let w2 = record w1 { ipc = (main_round e).block } in
          (w1.ipc.to_manager.cmd_ack ≡ w1.ipc.to_executor.cmd_seq)
          × (e.block ≡ send w1.ipc (start_arguments h d binary crc argument))
          × (e.memory ≡ (loaded w binary).memory)
          × (h.elapse 10000 (sent h d (loaded w binary) (start_arguments h d binary crc argument))
              ≡ w2)
          × (h.elapse 0 w2 ≡ w2))
      → crc32 0 binary ≢ crc
      → (load_and_start_payload h d binary crc argument w).0 ≡ failed payload_checksum_mismatch
  load_and_start_payload-mismatch w binary crc argument fd e ready fits opened mapped
        (free, same, stored, slept, idle) wrong =
      let bad : verdict e ≡ crc_mismatched =
        verdict-mismatch e w.memory (h.elapse 0 (loaded w binary)).ipc binary crc argument same
          stored wrong in
      ap (λ (r : Outcome × World b). r.0)
        (load_and_start_payload-started w binary crc argument fd ready fits opened mapped
          ∙ start_payload_at-rejected h d (loaded w binary)
              (start_arguments h d binary crc argument) e ready free (payload_not_dummy d) same
              (slept, idle) (λ q. cc))
      ∙ ap (λ r. failed (rejection r)) bad
