-- ===== src/Manager/Coredump/Dump.antt =====
-- `Domain::dumpCore` of src/manager/domain.cpp. Where the system maps the payload's memory, and what
-- the manager has at its other addresses, are parameters.
use bmboot.Base.{
  ℕ, zero, suc, ◌+◌, ◌-◌, ◌≤◌, ◌≡◌, ◌⊎◌, inl, inr, refl, ap, ap₂, sym, ◌∙◌, arith, true, false, not,
  ◌&&◌, if◌then◌else◌, ltb, leb, Option, none, some, List, length, [], ◌∷◌, ◌%◌,
}
use bmboot.Bus.{Bus}
use bmboot.Types.{◌is◌, crashed_payload, crashed_monitor, bad_domain_state, mmap_failed}
use bmboot.Monitor.{read_bytes}
use bmboot.Monitor.Bytes.{length-read_bytes}
use bmboot.Manager.{Cpu, cpu1, cpu2, cpu3, World, Host, Outcome, done, failed}
use bmboot.Manager.Memory.{get_physical_memory_ranges}
use bmboot.Manager.State.{get_state}
use bmboot.Manager.Boot.{with_devmem}
use bmboot.Manager.Boot.Laws.{with_devmem-opened}
use bmboot.Manager.Coredump.{
  Stdio, Appends, Structs, Sized, Phdr, MemorySegment, Written, complete, pagesize, write_core_dump,
}
use bmboot.Manager.Coredump.Returns.{write_core_dump-Completes}
use bmboot.Manager.Coredump.Image.{bytes_of}
use bmboot.Manager.Coredump.Layout.{Placed, header_place, write_core_dump_lem}

-- The payload's memory of a domain, mapped at `ptr`.
abbrev pub payload_segment : Cpu → ℕ → MemorySegment
payload_segment d ptr = record {
  start_address = (get_physical_memory_ranges d).payload_address;
  size = (get_physical_memory_ranges d).payload_size;
  ptr = ptr;
}

-- `segments` is static: it is set by the first call that gets there, and then stays.
abbrev pub first_segment : Option MemorySegment → MemorySegment → MemorySegment
first_segment none seg = seg
first_segment (some seg) _ = seg

-- The manager's addresses while the payload's memory is mapped at `ptr`.
abbrev pub view : (ℕ → ℕ) → Cpu → ℕ → (ℕ → ℕ) → ℕ → ℕ
view memory d ptr elsewhere a =
    let r = get_physical_memory_ranges d in
    if leb ptr a && ltb a (ptr + r.payload_size)
    then memory (r.payload_address + (a - ptr))
    else elsewhere a

-- What a call returns and leaves: `file` is none where no file was opened.
pub record Dump (b : Bus) (io : Stdio) : Type 0 where
  pub outcome : Outcome
  pub world : World b
  pub segments : Option MemorySegment
  pub file : Option (Written io)

module _ {b : Bus} (h : Host b) (io : Stdio) (s : Structs) (map_at : World b → ℕ)
    (elsewhere : ℕ → ℕ) where
  -- The file is written; whether all of it was is not looked at.
  abbrev pub write_dump : Cpu → Option MemorySegment → io.File → World b → Dump b io
  write_dump d segments f v =
      let seg = first_segment segments (payload_segment d (map_at v)) in
      record {
        outcome = done;
        world = v;
        segments = some seg;
        file = some (
            write_core_dump io s (view v.memory d (map_at v) elsewhere) (seg ∷ [])
              v.ipc.to_manager.regs v.ipc.to_manager.fpregs f);
      }

  abbrev pub and_dump : Cpu → Option MemorySegment → io.File → Outcome × World b → Dump b io
  and_dump d segments f (done, v) = write_dump d segments f v
  and_dump d segments f (o, v) = record { outcome = o; world = v; segments = segments; file = none }

  pub dump_core : Cpu → Option MemorySegment → io.File → World b → Dump b io
  dump_core d segments f w =
      let r = get_physical_memory_ranges d in
      if not (get_state h d w is crashed_payload) && not (get_state h d w is crashed_monitor)
      then record { outcome = failed bad_domain_state; world = w; segments = segments; file = none }
      else and_dump d segments f (
          with_devmem h w λ v.
            if not (h.mmap v r.payload_address r.payload_size)
            then (failed mmap_failed, v)
            else (done, v))

read_bytes-view :
    (memory elsewhere : ℕ → ℕ) (d : Cpu) (ptr n k : ℕ)
    → k + n ≤ (get_physical_memory_ranges d).payload_size
    → read_bytes (view memory d ptr elsewhere) (ptr + k) n
      ≡ read_bytes memory ((get_physical_memory_ranges d).payload_address + k) n
read_bytes-view memory elsewhere d ptr zero k fits = refl
read_bytes-view memory elsewhere d ptr (suc n) k fits =
    let r = get_physical_memory_ranges d in
    let inside : (leb ptr (ptr + k) && ltb (ptr + k) (ptr + r.payload_size)) ≡ true =
      ground arith in
    let first : view memory d ptr elsewhere (ptr + k) ≡ memory (r.payload_address + k) =
      ap (λ t. if t then memory (r.payload_address + (ptr + k - ptr)) else elsewhere (ptr + k))
        inside
      ∙ ap memory (omega arith) in
    ap₂ ◌∷◌ first (
      ap (λ t. read_bytes (view memory d ptr elsewhere) t n) (omega arith)
      ∙ read_bytes-view memory elsewhere d ptr n (k + 1) (omega arith)
      ∙ ap (λ t. read_bytes memory t n) (omega arith))

abbrev written_or : {io : Stdio} → Written io → Option (Written io) → Written io
written_or x none = x
written_or x (some w) = w

payload_size_lem : (d : Cpu) → (get_physical_memory_ranges d).payload_size ≡ 0x02000000
payload_size_lem cpu1 = refl
payload_size_lem cpu2 = refl
payload_size_lem cpu3 = refl

-- The segment of another domain has the bytes of the one that is mapped.
bytes_of-view :
    (memory elsewhere : ℕ → ℕ) (d d1 : Cpu) (ptr : ℕ)
    → bytes_of (view memory d ptr elsewhere) (payload_segment d1 ptr)
      ≡ read_bytes memory
          (get_physical_memory_ranges d).payload_address
          (get_physical_memory_ranges d).payload_size
bytes_of-view memory elsewhere d d1 ptr =
    let n = (get_physical_memory_ranges d).payload_size in
    ap₂ (read_bytes (view memory d ptr elsewhere)) {x = ptr} {y = ptr + 0} (omega arith)
      (payload_size_lem d1 ∙ sym (payload_size_lem d))
    ∙ read_bytes-view memory elsewhere d ptr n 0 (omega arith)
    ∙ ap (λ t. read_bytes memory t n) (omega arith)

-- The domain of which a core was dumped first is `d1`.
abbrev pub First : Cpu → Option MemorySegment → Cpu → ℕ → Type 0
First d segments d1 ptr =
    ((segments ≡ none) × (d1 ≡ d)) ⊎ (segments ≡ some (payload_segment d1 ptr))

first_segment-First :
    (d : Cpu) (segments : Option MemorySegment) (d1 : Cpu) (ptr : ℕ)
    → First d segments d1 ptr
    → first_segment segments (payload_segment d ptr) ≡ payload_segment d1 ptr
first_segment-First d segments d1 ptr (inl (e, same)) =
    ap (λ t. first_segment t (payload_segment d ptr)) e ∙ ap (λ k. payload_segment k ptr) (sym same)
first_segment-First d segments d1 ptr (inr e) = ap (λ t. first_segment t (payload_segment d ptr)) e

module _ {b : Bus} (h : Host b) (io : Stdio) (s : Structs) (map_at : World b → ℕ)
    (elsewhere : ℕ → ℕ) (d : Cpu) (segments : Option MemorySegment) (w : World b)
    (crashed : (get_state h d w ≡ crashed_payload) ⊎ (get_state h d w ≡ crashed_monitor)) (fd : ℕ)
    (opened : w.devmem ≡ some fd)
    (mapped : h.mmap w
        (get_physical_memory_ranges d).payload_address
        (get_physical_memory_ranges d).payload_size
      ≡ true) where
  allowed :
      (not (get_state h d w is crashed_payload) && not (get_state h d w is crashed_monitor)) ≡ false
  allowed = go crashed
    where
      go :
          (get_state h d w ≡ crashed_payload) ⊎ (get_state h d w ≡ crashed_monitor)
          → (not (get_state h d w is crashed_payload) && not (get_state h d w is crashed_monitor))
            ≡ false
      go (inl e) = ap (λ t. not (t is crashed_payload) && not (t is crashed_monitor)) e
      go (inr e) = ap (λ t. not (t is crashed_payload) && not (t is crashed_monitor)) e

  dumped :
      (f : io.File)
      → dump_core h io s map_at elsewhere d segments f w
        ≡ write_dump h io s map_at elsewhere d segments f w
  unfolding dump_core
  dumped f =
      let r = get_physical_memory_ranges d in
      rw (allowed, if◌then◌else◌)
        (ap (and_dump h io s map_at elsewhere d segments f) (
          with_devmem-opened h d w
            (λ v.
              if not (h.mmap v r.payload_address r.payload_size)
              then (failed mmap_failed, v)
              else (done, v))
            fd opened
          ∙ ap (λ t. if not t then (failed mmap_failed, w) else (done, w)) mapped))

  pub dump_core_complete :
      ((f : io.File) (xs : List ℕ) → (io.fwrite f xs).1 ≡ length xs)
      → (f : io.File)
      → (f' : io.File) × ((dump_core h io s map_at elsewhere d segments f w).file
          ≡ some (complete f'))
  dump_core_complete room f =
      let (f', e) =
        write_core_dump-Completes s (view w.memory d (map_at w) elsewhere) room
          (first_segment segments (payload_segment d (map_at w)) ∷ []) w.ipc.to_manager.regs
          w.ipc.to_manager.fpregs f in
      (f', ap (λ (k : Dump b io). k.file) (dumped f) ∙ ap some e)

  -- Where the domain has crashed, the device of memory is open, the payload's memory can be mapped,
  -- and the system maps it where it mapped that of the domain of which a core was dumped first (or
  -- none was dumped before): if the file is written to its end, it has the bytes of the payload's
  -- memory of this domain at the offset in its header, which is a multiple of the page size, but
  -- the address in the header is that of the domain of the first dump.
  pub dump_core_lem :
      (law : Appends io) (z : Sized s) (d1 : Cpu) (f f' : io.File)
      → First d segments d1 (map_at w)
      → io.contents f ≡ []
      → (dump_core h io s map_at elsewhere d segments f w).file ≡ some (complete f')
      → let ranges = get_physical_memory_ranges d in
        let seg = payload_segment d1 (map_at w) in
        let seen = view w.memory d (map_at w) elsewhere in
        ((dump_core h io s map_at elsewhere d segments f w).outcome ≡ done)
        × (p : Phdr) × Placed s seen seg (header_place s (seg ∷ []) 0) (io.contents f') p
        × (bytes_of seen seg ≡ read_bytes w.memory ranges.payload_address ranges.payload_size)
        × (p.p_vaddr ≡ (get_physical_memory_ranges d1).payload_address)
        × (p.p_filesz ≡ ranges.payload_size)
        × (p.p_offset % pagesize ≡ 0)
  dump_core_lem law z d1 f f' first empty e =
      let seen = view w.memory d (map_at w) elsewhere in
      let seg = payload_segment d1 (map_at w) in
      let written : write_core_dump io s seen (seg ∷ []) w.ipc.to_manager.regs
            w.ipc.to_manager.fpregs f
          ≡ complete f' =
        sym (
          ap
            (λ k.
              write_core_dump io s seen (k ∷ []) w.ipc.to_manager.regs w.ipc.to_manager.fpregs f)
            (first_segment-First d segments d1 (map_at w) first))
        ∙ sym (ap (λ (k : Dump b io). written_or (complete f') k.file) (dumped f))
        ∙ ap (written_or (complete f')) e in
      let (p, placed, type, vaddr, filesz, aligned) =
        write_core_dump_lem law s z seen [] [] seg w.ipc.to_manager.regs w.ipc.to_manager.fpregs f
          f' (omega arith) empty written in
      (
        ap (λ (k : Dump b io). k.outcome) (dumped f),
        p,
        placed,
        bytes_of-view w.memory elsewhere d d1 (map_at w),
        vaddr,
        filesz
            ∙ length-read_bytes seen seg.size seg.ptr
            ∙ payload_size_lem d1
            ∙ sym (payload_size_lem d),
        aligned,
      )
