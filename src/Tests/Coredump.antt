-- ===== src/Tests/Coredump.antt =====
-- A core dump on a medium without end.
use bmboot.Base.{
  ℕ, ◌+◌, ◌%◌, ◌≡◌, inl, inr, Option, refl, arith, List, [], ◌∷◌, ◌++◌, length, replicate,
  length-replicate, some,
}
use bmboot.Ipc.{zeroed}
use bmboot.Monitor.{read_bytes}
use bmboot.Manager.{cpu1, cpu2, done, monitor_started, World}
use bmboot.Manager.Coredump.{
  Stdio, Appends, Structs, Sized, Phdr, MemorySegment, complete, load, pagesize, write_core_dump,
}
use bmboot.Manager.Coredump.Image.{bytes_of}
use bmboot.Manager.Coredump.Returns.{write_core_dump-Completes}
use bmboot.Manager.Coredump.Whole.{write_core_dump-whole}
use bmboot.Manager.Coredump.Layout.{sizes, Placed, header_place, write_core_dump_lem}
use bmboot.Manager.Coredump.Dump.{
  dump_core, payload_segment, view, dump_core_complete, dump_core_lem,
}
use bmboot.Tests.Fixtures.{bus, world, host}

abbrev pub io : Stdio
io = record {
  File = List ℕ;
  contents = λ f. f;
  fwrite = λ f xs. (f ++ xs, length xs);
  fclose = λ f. f;
}

appends : Appends io
appends = record { written = λ f xs e. refl; closed = λ f. refl }

-- Structures of zeros, but for the offset that a program header has.
abbrev pub structs : Structs
structs = record {
  ehdr_size = 64;
  phdr_size = 56;
  nhdr_size = 12;
  prpsinfo_size = 136;
  prstatus_size = 392;
  fpregs_size = 528;
  ehdr_bytes = λ h. replicate 64 0;
  phdr_bytes = λ p. p.p_offset ∷ replicate 55 0;
  nhdr_bytes = λ n d t. replicate 12 0;
  prpsinfo_bytes = replicate 136 0;
  prstatus_bytes = λ r. replicate 392 0;
  fpregs_bytes = λ r. replicate 528 0;
}

sized : Sized structs
sized = record {
  ehdr_sized = λ h. length-replicate {A = ℕ} 64 0;
  phdr_sized = λ p. refl;
  nhdr_sized = λ n d t. refl;
  prpsinfo_sized = length-replicate {A = ℕ} 136 0;
  prstatus_sized = λ r. length-replicate {A = ℕ} 392 0;
  fpregs_sized = λ r. length-replicate {A = ℕ} 528 0;
}

abbrev pub memory : ℕ → ℕ
memory a = a

abbrev small : MemorySegment
small = record { start_address = 0x1000; size = 3; ptr = 7 }

-- The file that a dump of two segments leaves.
written :
    (f' : List ℕ) × (write_core_dump io structs memory
        (small ∷ small ∷ [])
        zeroed.to_manager.regs
        zeroed.to_manager.fpregs
        []
      ≡ complete f')
written =
    write_core_dump-Completes structs memory (λ f xs. refl) (small ∷ small ∷ [])
      zeroed.to_manager.regs zeroed.to_manager.fpregs []

write_core_dump-whole_example :
    (f' : List ℕ) × (write_core_dump io structs memory
        (small ∷ small ∷ [])
        zeroed.to_manager.regs
        zeroed.to_manager.fpregs
        []
      ≡ complete f')
    × (p : Phdr) × Placed structs memory small (header_place structs (small ∷ small ∷ []) 0) f' p
    × (p.p_vaddr ≡ 0x1000)
    × (length f' ≡ p.p_offset + 3 + sizes (small ∷ []))
write_core_dump-whole_example =
    write_core_dump-whole appends structs sized memory (λ f xs. refl) [] (small ∷ []) small
      zeroed.to_manager.regs zeroed.to_manager.fpregs [] (omega arith) refl

write_core_dump_lem_example :
    (p : Phdr) × Placed structs memory small
      (header_place structs (small ∷ small ∷ []) 1)
      written.0
      p
    × (p.p_type ≡ load)
    × (p.p_vaddr ≡ 0x1000)
    × (p.p_filesz ≡ 3)
    × (p.p_offset % pagesize ≡ 3)
write_core_dump_lem_example =
    write_core_dump_lem appends structs sized memory (small ∷ []) [] small zeroed.to_manager.regs
      zeroed.to_manager.fpregs [] written.0 (omega arith) refl written.1

-- The payload of the second domain has crashed, after a core of the first one was dumped.
abbrev crashed : World bus
crashed = world monitor_started 4

abbrev pub map_at : World bus → ℕ
map_at w = 0x1000

abbrev stale : Option MemorySegment
stale = some (payload_segment cpu1 0x1000)

dumped :
    (f' : List ℕ) × ((dump_core (host 1) io structs map_at memory cpu2 stale [] crashed).file
      ≡ some (complete f'))
dumped =
    dump_core_complete (host 1) io structs map_at memory cpu2 stale crashed (inl refl) 3 refl refl
      (λ f xs. refl) []

dump_core_lem_example :
    let seg = payload_segment cpu1 0x1000 in
    let seen = view crashed.memory cpu2 0x1000 memory in
    ((dump_core (host 1) io structs map_at memory cpu2 stale [] crashed).outcome ≡ done)
    × (p : Phdr) × Placed structs seen seg (header_place structs (seg ∷ []) 0) dumped.0 p
    × (bytes_of seen seg ≡ read_bytes crashed.memory 0x802100000 0x02000000)
    × (p.p_vaddr ≡ 0x800100000)
    × (p.p_filesz ≡ 0x02000000)
    × (p.p_offset % pagesize ≡ 0)
dump_core_lem_example =
    dump_core_lem (host 1) io structs map_at memory cpu2 stale crashed (inl refl) 3 refl refl
      appends sized cpu1 [] dumped.0 (inr refl) refl dumped.1
