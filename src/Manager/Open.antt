-- ===== src/Manager/Open.antt =====
-- `IDomain::open` of src/manager/domain.cpp: how the manager finds out what a domain is doing.
use bmboot.Base.{
  ℕ, ◌+◌, ◌-◌, ◌≡◌, refl, ap, ◌∙◌, arith, true, false, not, if◌then◌else◌, ◌==◌, ==_iff, ◌<◌, some,
}
use bmboot.Bus.{Bus}
use bmboot.Ipc.{monitor_code_cookie}
use bmboot.Types.{mmap_failed}
use bmboot.Monitor.{read_word}
use bmboot.Manager.{
  Cpu, cpu1, cpu2, cpu3, get_cpu_index, World, Host, Outcome, done, failed, DomainGeneralState,
  in_reset, unavailable, monitor_started, set_general,
}
use bmboot.Manager.Memory.{get_physical_memory_ranges, store_bytes}
use bmboot.Manager.State.{get_state, reported_state}
use bmboot.Manager.Boot.{with_devmem, is_core_in_reset, cookie_bytes, install_monitor}
use bmboot.Manager.Boot.Laws.{with_devmem-opened}

-- Where the cookie lies: the last four bytes of the monitor's region.
abbrev pub cookie_address : Cpu → ℕ
cookie_address d = let r = get_physical_memory_ranges d in r.monitor_address + r.monitor_size - 4

module _ {b : Bus} (h : Host b) (d : Cpu) where
  -- The reset bits first, the cookie second.
  abbrev pub probe : World b → DomainGeneralState
  probe w =
      if is_core_in_reset h d w
      then in_reset
      else if read_word w.memory (cookie_address d) == monitor_code_cookie
      then monitor_started
      else unavailable

  unfoldable pub open_domain : World b → Outcome × World b
  open_domain w = with_devmem h w λ v.
      let r = get_physical_memory_ranges d in
      if not (h.mmap v r.monitor_ipc_address r.monitor_ipc_size)
      then (failed mmap_failed, v)
      else if not (h.mmap v r.monitor_address r.monitor_size)
      then (failed mmap_failed, v)
      else (done, set_general v d (probe v))

cookie_found :
    (d : Cpu) (memory : ℕ → ℕ)
    → read_word (store_bytes memory (cookie_address d) cookie_bytes) (cookie_address d)
      ≡ monitor_code_cookie
cookie_found cpu1 memory = refl
cookie_found cpu2 memory = refl
cookie_found cpu3 memory = refl

read_word_of :
    (f g : ℕ → ℕ) (a : ℕ)
    → ((i : ℕ) → i < 4 → f (a + i) ≡ g (a + i))
    → read_word f a ≡ read_word g a
read_word_of f g a same =
    let first : f a ≡ g a = ap f (omega arith) ∙ same 0 (omega arith) ∙ ap g (omega arith) in
    omega (arith, first, same 1 (omega arith), same 2 (omega arith), same 3 (omega arith))

module _ {b : Bus} (h : Host b) (d : Cpu) where
  open_domain-probe :
      (v : World b) (fd : ℕ)
      → v.devmem ≡ some fd
      → h.mmap v
          (get_physical_memory_ranges d).monitor_ipc_address
          (get_physical_memory_ranges d).monitor_ipc_size
        ≡ true
      → h.mmap v
          (get_physical_memory_ranges d).monitor_address
          (get_physical_memory_ranges d).monitor_size
        ≡ true
      → open_domain h d v ≡ (done, set_general v d (probe h d v))
  unfolding open_domain
  open_domain-probe v fd opened ipc_mapped mapped =
      let r = get_physical_memory_ranges d in
      with_devmem-opened h d v
        (λ v.
          if not (h.mmap v r.monitor_ipc_address r.monitor_ipc_size)
          then (failed mmap_failed, v)
          else if not (h.mmap v r.monitor_address r.monitor_size)
          then (failed mmap_failed, v)
          else (done, set_general v d (probe h d v)))
        fd opened
      ∙ rw (ipc_mapped, mapped, if◌then◌else◌) refl

  -- Where the device of memory is open, the domain's regions can be mapped, the core is out of reset
  -- and the last four bytes of the monitor's region are as `startup` writes them: opening the domain
  -- succeeds, and its state is then the one that the executor reports. Nothing changes but what the
  -- manager knows of that domain.
  pub open_domain-install_monitor :
      (w v : World b) (fd : ℕ)
      → v.devmem ≡ some fd
      → h.mmap v
          (get_physical_memory_ranges d).monitor_ipc_address
          (get_physical_memory_ranges d).monitor_ipc_size
        ≡ true
      → h.mmap v
          (get_physical_memory_ranges d).monitor_address
          (get_physical_memory_ranges d).monitor_size
        ≡ true
      → is_core_in_reset h d v ≡ false
      → ((i : ℕ)
          → i < 4
          → v.memory (cookie_address d + i) ≡ (install_monitor h d w).memory (cookie_address d + i))
      → (open_domain h d v ≡ (done, set_general v d monitor_started))
        × (get_state h d (open_domain h d v).1 ≡ reported_state v.ipc.to_manager.state)
  open_domain-install_monitor w v fd opened ipc_mapped mapped running kept =
      let code =
        store_bytes w.memory (get_physical_memory_ranges d).monitor_address (h.monitor_binary d) in
      let found : read_word v.memory (cookie_address d) == monitor_code_cookie ≡ true =
        (==_iff _ _).1 (
          read_word_of v.memory (install_monitor h d w).memory (cookie_address d) kept
          ∙ cookie_found d code) in
      let started : probe h d v ≡ monitor_started = rw (running, found, if◌then◌else◌) refl in
      let whole : open_domain h d v ≡ (done, set_general v d monitor_started) =
        open_domain-probe v fd opened ipc_mapped mapped
        ∙ ap (λ g. (done, set_general v d g)) started in
      (whole, ap (λ (r : Outcome × World b). get_state h d r.1) whole ∙ own)
    where
      own : get_state h d (set_general v d monitor_started) ≡ reported_state v.ipc.to_manager.state
      own =
          let same : get_cpu_index d == get_cpu_index d ≡ true = (==_iff _ _).1 refl in
          rw (same, if◌then◌else◌) refl
