-- ===== src/Manager/Domain/Promises.antt =====
-- The class `Domain` of src/manager/domain.cpp keeps what include/bmboot/domain.hpp promises.
use bmboot.Base.{
  ℕ, ◌≡◌, ◌≢◌, refl, false, not, if◌then◌else◌, Option, none, some, List, if_ind, length, ltb,
}
use bmboot.Bus.{Bus}
use bmboot.Types.{
  ◌is◌, other_state, in_reset, monitor_ready, bad_domain_state, configuration_file_error,
  program_too_large, dev_mem_access_failed, mmap_failed, ErrorCode,
}
use bmboot.Manager.{Cpu, World, Host, Outcome, done, failed, fault, DomainGeneralState}
use bmboot.Manager.State.{get_state, state_given}
use bmboot.Manager.Memory.{get_physical_memory_ranges}
use bmboot.Manager.Boot.{is_in_reset, startup, with_devmem, install_and_boot}
use bmboot.Manager.Boot.Laws.{
  with_devmem_ind, startup-Ready, terminate_payload-Ready, ensure_ready_to_load_payload-Ready,
}
use bmboot.Manager.Start.{start_payload_at}
use bmboot.Manager.Start.Laws.{Runs, failed-Runs, start_payload_at-Runs}
use bmboot.Manager.Load.{start_arguments, load_to_physical_memory, load_and_start_payload, and_then}
use bmboot.Manager.Elf.{ElfLibrary, pread, alloc, elf_arguments, load_elf_payload}
use bmboot.Manager.Domain.{Contract, Needs, domain}

not_reset :
    (g : DomainGeneralState) (raw : ℕ) → state_given g raw ≢ in_reset → is_in_reset g ≡ false
not_reset DomainGeneralState.in_reset raw differ = absurd (differ refl)
not_reset _ raw differ = refl

module _ {b : Bus} (h : Host b) (d : Cpu) where
  fault-Runs : (w : World b) → Runs h d (fault, w)
  unfolding Runs
  fault-Runs w = λ q. cc

  and_then-Runs :
      (m : Outcome × World b) (next : World b → Outcome × World b)
      → ((v : World b) → Runs h d (next v))
      → Runs h d (and_then h m next)
  and_then-Runs (done, w) next all = all w
  and_then-Runs (failed e, w) next all = failed-Runs h d e w
  and_then-Runs (fault, w) next all = fault-Runs w

  load_and_start_payload-Runs :
      (binary : List ℕ) (crc argument : ℕ) (w : World b)
      → Runs h d (load_and_start_payload h d binary crc argument w)
  unfolding load_and_start_payload
  load_and_start_payload-Runs binary crc argument w =
      let r = get_physical_memory_ranges d in
      let loaded =
        and_then-Runs (load_to_physical_memory h r.payload_address binary w) _
          (λ v. start_payload_at-Runs h d v (start_arguments h d binary crc argument)) in
      if_ind (Runs h d) (not (get_state h d w is monitor_ready))
        (λ _. failed-Runs h d bad_domain_state w)
        (λ _.
          if_ind (Runs h d) (ltb r.payload_size (length binary))
            (λ _. failed-Runs h d program_too_large w) (λ _. loaded))

  load_elf_payload-Runs :
      (elf : ElfLibrary) (binary : List ℕ) (argument : ℕ) (w : World b)
      → Runs h d (load_elf_payload h elf d binary argument w)
  unfolding load_elf_payload
  load_elf_payload-Runs elf binary argument w =
      let r = get_physical_memory_ranges d in
      let loaded = elf (pread binary) (alloc d) in
      let stored : World b → World b = λ v. record v { memory = loaded.store v.memory } in
      if_ind (Runs h d) (not (get_state h d w is monitor_ready))
        (λ _. failed-Runs h d bad_domain_state w)
        (λ _. with_devmem_ind h d (Runs h d) w _ (failed-Runs h d dev_mem_access_failed w) (λ v.
          if_ind (Runs h d) (not (h.mmap v r.payload_address r.payload_size))
            (λ _. failed-Runs h d mmap_failed v)
            (λ _.
              if_ind (Runs h d) {x = (failed program_too_large, stored v)}
                {y = start_payload_at h d (stored v) (elf_arguments loaded argument)} loaded.err
                (λ _. failed-Runs h d program_too_large (stored v))
                (λ _. start_payload_at-Runs h d (stored v) (elf_arguments loaded argument)))))

module _ {b : Bus} (h : Host b) (elf : ElfLibrary) (dump : World b → Outcome × World b)
    (d : Cpu) where
  startup-Needs : Needs (domain h elf dump d) (startup h d) in_reset
  unfolding startup
  startup-Needs w other = go (h.configuration w)
    where
      go :
          (o : Option ℕ)
          → (e : ErrorCode) × ((elim o as (λ _. Outcome × World b) [
            | none ↦ (failed configuration_file_error, w)
            | some cntfrq ↦
                if not (is_in_reset (w.general d))
                then (failed bad_domain_state, w)
                else with_devmem h w (install_and_boot h d cntfrq)
          ])
              ≡ (failed e, w))
      go none = (configuration_file_error, refl)
      go (some cntfrq) = (
        bad_domain_state,
        rw (not_reset (w.general d) w.ipc.to_manager.state other, if◌then◌else◌) refl,
      )

  load_and_start_payload-Needs :
      (binary : List ℕ) (crc argument : ℕ)
      → Needs (domain h elf dump d) (load_and_start_payload h d binary crc argument) monitor_ready
  unfolding load_and_start_payload
  load_and_start_payload-Needs binary crc argument w other =
      (bad_domain_state, rw (other_state (get_state h d w) monitor_ready other, if◌then◌else◌) refl)

  load_elf_payload-Needs :
      (binary : List ℕ) (argument : ℕ)
      → Needs (domain h elf dump d) (load_elf_payload h elf d binary argument) monitor_ready
  unfolding load_elf_payload
  load_elf_payload-Needs binary argument w other =
      (bad_domain_state, rw (other_state (get_state h d w) monitor_ready other, if◌then◌else◌) refl)

  -- `startup` is permissible in reset only, and loading a payload where the monitor is ready;
  -- otherwise they are an error and change nothing. After a `startup`, a `terminatePayload` or an
  -- `ensureReadyToLoadPayload` that succeeds the domain is ready, and after a payload is loaded with
  -- success, from an ELF file or not, it is running; whatever the rest of the machine did in the
  -- meantime.
  pub domain-Contract : Contract (domain h elf dump d)
  unfolding Runs
  domain-Contract = record {
    startup_needs = startup-Needs;
    startup_brings = startup-Ready h d;
    terminate_brings = terminate_payload-Ready h d;
    ensure_brings = ensure_ready_to_load_payload-Ready h d;
    load_needs = load_and_start_payload-Needs;
    load_brings = load_and_start_payload-Runs h d;
    elf_needs = load_elf_payload-Needs;
    elf_brings = load_elf_payload-Runs h d elf;
  }
