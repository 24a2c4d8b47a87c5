-- ===== src/Manager/Load/Elsewhere.antt =====
-- Where `Domain::loadAndStartPayload` of src/manager/domain.cpp stores nothing.
use bmboot.Base.{
  ℕ, ◌+◌, ◌<◌, ◌≤◌, ◌≡◌, ◌≢◌, ◌⊎◌, refl, ◌∙◌, arith, not, if◌then◌else◌, ltb, List, length, inl,
  inr, if_ind,
}
use bmboot.Bus.{Bus}
use bmboot.Types.{◌is◌, monitor_ready, mmap_failed}
use bmboot.Manager.{Cpu, World, Host, Outcome, done, failed, fault}
use bmboot.Manager.Memory.{
  get_physical_memory_ranges, Region, monitor_region, payload_region, first, size, regions_disjoint,
  store_bytes,
}
use bmboot.Manager.State.{get_state}
use bmboot.Manager.Boot.Laws.{with_devmem_ind_of}
use bmboot.Manager.Start.{StartArguments, start_payload_at}
use bmboot.Manager.Start.Polls.{start_payload_at_ind}
use bmboot.Manager.Load.{
  size_aligned, load_to_physical_memory, and_then, start_arguments, load_and_start_payload,
}

-- A block that fits below `last` leaves the bytes outside alone.
store_bytes-outside :
    (memory : ℕ → ℕ) (start last a : ℕ) (bytes : List ℕ)
    → length bytes ≤ last
    → ¬ ((start ≤ a) × (a < start + last))
    → store_bytes memory start bytes a ≡ memory a
store_bytes-outside memory start last a bytes fits outside = ground arith

module _ {b : Bus} (h : Host b) (d : Cpu) (a : ℕ) where
  -- The byte at the address is the given one.
  abbrev Keeps : ℕ → Outcome × World b → Type 0
  Keeps m r = r.1.memory a ≡ m

  module _ (elapse-keeps : (n : ℕ) (v : World b) → (h.elapse n v).memory a ≡ v.memory a) where
    start_payload_at-Keeps :
        (w : World b) (arguments : StartArguments)
        → Keeps (w.memory a) (start_payload_at h d w arguments)
    start_payload_at-Keeps w arguments =
        start_payload_at_ind h d (λ v. v.memory a ≡ w.memory a) arguments
          (λ n v k. elapse-keeps n v ∙ k) w refl (λ ready free k. k)

    and_then-Keeps :
        (m : ℕ) (r : Outcome × World b) (arguments : StartArguments)
        → Keeps m r
        → Keeps m (and_then h r (λ v. start_payload_at h d v arguments))
    and_then-Keeps m (done, w) arguments k = start_payload_at-Keeps w arguments ∙ k
    and_then-Keeps m (failed e, w) arguments k = k
    and_then-Keeps m (fault, w) arguments k = k

    load_to_physical_memory-Keeps :
        (w : World b) (binary : List ℕ)
        → store_bytes w.memory (get_physical_memory_ranges d).payload_address binary a ≡ w.memory a
        → Keeps
            (w.memory a)
            (load_to_physical_memory h (get_physical_memory_ranges d).payload_address binary w)
    unfolding load_to_physical_memory
    load_to_physical_memory-Keeps w binary outside =
        let r = get_physical_memory_ranges d in
        with_devmem_ind_of h d (Keeps (w.memory a)) w
          (λ v.
            if not (h.mmap v r.payload_address (size_aligned h binary))
            then (failed mmap_failed, v)
            else (done, record v { memory = store_bytes v.memory r.payload_address binary }))
          refl
          λ o.
            if_ind (Keeps (w.memory a))
              (not (h.mmap (record w { devmem = o }) r.payload_address (size_aligned h binary)))
              (λ _. refl) (λ _. outside)

    -- Where the rest of the machine leaves the byte at an address alone that lies in a region of
    -- another domain, or in the monitor's region of the domain at hand: loading and starting a
    -- payload, however long and whatever comes of it, leaves that byte as it was.
    pub load_and_start_payload-elsewhere :
        (e : Cpu) (s : Region)
        → first e s ≤ a
        → a < first e s + size e s
        → (e ≢ d) ⊎ (s ≡ monitor_region)
        → (w : World b) (binary : List ℕ) (crc argument : ℕ)
        → (load_and_start_payload h d binary crc argument w).1.memory a ≡ w.memory a
    unfolding load_and_start_payload
    load_and_start_payload-elsewhere e s low high other w binary crc argument =
        let r = get_physical_memory_ranges d in
        let same = regions_disjoint e d s payload_region a low high in
        if_ind (Keeps (w.memory a)) (not (get_state h d w is monitor_ready)) (λ _. refl)
          λ _.
            if_ind (Keeps (w.memory a)) (ltb r.payload_size (length binary)) (λ _. refl)
              λ fits.
                and_then-Keeps (w.memory a) (load_to_physical_memory h r.payload_address binary w)
                  (start_arguments h d binary crc argument)
                  (load_to_physical_memory-Keeps w binary (
                    store_bytes-outside w.memory r.payload_address r.payload_size a binary
                      (ground arith)
                      λ p. elim other [
                        | inl n ↦ n (same p.0 p.1).0
                        | inr n ↦ cc (n, (same p.0 p.1).1)
                      ]))
