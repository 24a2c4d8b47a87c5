-- ===== src/Manager/Coredump.antt =====
-- `writeCoreDump` of src/manager/coredump_linux.cpp. The C library's files and the structures of
-- <elf.h> and <sys/procfs.h> are parameters. `size_t` does not wrap here: no file has 2 ^ 64 bytes.
-- The count of the program headers does, in its 16 bits.
pub mod Image
pub mod Layout
pub mod Returns
pub mod Whole
pub mod Dump
use bmboot.Base.{
  ℕ, ◌+◌, ◌-◌, ◌*◌, ◌%◌, ◌^◌, ◌≡◌, Bool, if◌then◌else◌, ◌==◌, List, [], ◌∷◌, ◌++◌, length,
  replicate,
}
use bmboot.Ipc.{Regs, FpRegs}
use bmboot.Monitor.{read_bytes}

-- `fwrite` gives the number of bytes written.
pub record Stdio : Type 1 where
  pub File : Type 0
  pub contents : File → List ℕ
  pub fwrite : File → List ℕ → File × ℕ
  pub fclose : File → File

-- Documented of `fwrite`: where it writes all bytes, they are added to the file; and of `fclose`:
-- it leaves them there.
pub record Appends (io : Stdio) : Type 0 where
  pub written :
      (f : io.File) (xs : List ℕ)
      → (io.fwrite f xs).1 ≡ length xs
      → io.contents (io.fwrite f xs).0 ≡ io.contents f ++ xs
  pub closed : (f : io.File) → io.contents (io.fclose f) ≡ io.contents f

-- The fields of a program header that the code sets to other values than zero; `note` and `load`
-- are `PT_NOTE` and `PT_LOAD`.
pub data SegmentType : Type 0 where
  note load : SegmentType

pub record Phdr : Type 0 where
  pub p_type : SegmentType
  pub p_flags : ℕ
  pub p_offset : ℕ
  pub p_vaddr : ℕ
  pub p_filesz : ℕ
  pub p_memsz : ℕ
  pub p_align : ℕ

-- The fields of the file header that depend on the segments, or on sizes.
pub record Ehdr : Type 0 where
  pub e_phoff : ℕ
  pub e_phentsize : ℕ
  pub e_phnum : ℕ

pub data NoteType : Type 0 where
  prpsinfo prstatus fpregset : NoteType

-- The structures as bytes, and their sizes. `prstatus_bytes` has the registers and the pid 1,
-- `prpsinfo_bytes` the arguments "(bmboot payload)".
pub record Structs : Type 0 where
  pub ehdr_size : ℕ
  pub phdr_size : ℕ
  pub nhdr_size : ℕ
  pub prpsinfo_size : ℕ
  pub prstatus_size : ℕ
  pub fpregs_size : ℕ
  pub ehdr_bytes : Ehdr → List ℕ
  pub phdr_bytes : Phdr → List ℕ
  pub nhdr_bytes : ℕ → ℕ → NoteType → List ℕ
  pub prpsinfo_bytes : List ℕ
  pub prstatus_bytes : Regs → List ℕ
  pub fpregs_bytes : FpRegs → List ℕ

-- A structure has as many bytes as `sizeof` says.
pub record Sized (s : Structs) : Type 0 where
  pub ehdr_sized : (h : Ehdr) → length (s.ehdr_bytes h) ≡ s.ehdr_size
  pub phdr_sized : (p : Phdr) → length (s.phdr_bytes p) ≡ s.phdr_size
  pub nhdr_sized : (n d : ℕ) (t : NoteType) → length (s.nhdr_bytes n d t) ≡ s.nhdr_size
  pub prpsinfo_sized : length s.prpsinfo_bytes ≡ s.prpsinfo_size
  pub prstatus_sized : (r : Regs) → length (s.prstatus_bytes r) ≡ s.prstatus_size
  pub fpregs_sized : (r : FpRegs) → length (s.fpregs_bytes r) ≡ s.fpregs_size

-- `ptr` is an address in the manager's memory.
pub record MemorySegment : Type 0 where
  pub start_address : ℕ
  pub size : ℕ
  pub ptr : ℕ

abbrev pub pagesize : ℕ
pagesize = 4096

-- `make_padding_span`
abbrev pub padding : ℕ → ℕ → List ℕ
padding alignment len =
    replicate (if len % alignment == 0 then 0 else alignment - len % alignment) 0

-- "CORE", with its terminator.
abbrev pub core_name : List ℕ
core_name = 67 ∷ 79 ∷ 82 ∷ 69 ∷ 0 ∷ []

-- `note_align`
abbrev pub note_align : ℕ → ℕ
note_align end = let gap = pagesize - end % pagesize in if gap == pagesize then 0 else gap

-- `ehdr.e_phnum`, an `Elf64_Half`: the segments' headers and that of the notes.
abbrev pub phnum : List MemorySegment → ℕ
phnum segs = (length segs + 1) % 2 ^ 16

-- A header for `PT_LOAD`; `PF_R | PF_X | PF_W` is 7.
abbrev pub load_header : ℕ → MemorySegment → Phdr
load_header offset seg = record {
  p_type = load;
  p_flags = 7;
  p_offset = offset;
  p_vaddr = seg.start_address;
  p_filesz = seg.size;
  p_memsz = seg.size;
  p_align = pagesize;
}

module _ (s : Structs) where
  -- The offset of the notes after so many headers, and their size.
  abbrev pub notes_offset : ℕ → ℕ
  notes_offset count = s.ehdr_size + count * s.phdr_size

  abbrev pub notes_size : ℕ
  notes_size =
      s.nhdr_size
      + 8
      + s.prpsinfo_size
      + (s.nhdr_size + 8 + s.prstatus_size + s.nhdr_size + 8 + s.fpregs_size)

  abbrev pub file_header : List MemorySegment → Ehdr
  file_header segs = record {
    e_phoff = s.ehdr_size;
    e_phentsize = s.phdr_size;
    e_phnum = phnum segs;
  }

  abbrev pub note_header : ℕ → Phdr
  note_header offset = record {
    p_type = note;
    p_flags = 0;
    p_offset = offset;
    p_vaddr = 0;
    p_filesz = notes_size;
    p_memsz = 0;
    p_align = 0;
  }

-- The file, where all was written so far, and where a write fell short and the function returned.
pub data Written (io : Stdio) : Type 0 where
  complete : io.File → Written io
  abandoned : io.File → Written io

infixl 5 ◌>>=◌
abbrev pub ◌>>=◌ : {io : Stdio} → Written io → (io.File → Written io) → Written io
complete f >>= k = k f
abandoned f >>= k = abandoned f

module _ (io : Stdio) (s : Structs) (memory : ℕ → ℕ) where
  pub write : List ℕ → io.File → Written io
  write xs f = let (f', n) = io.fwrite f xs in if n == length xs then complete f' else abandoned f'

  pub write_note : NoteType → List ℕ → io.File → Written io
  unfolding write
  write_note type desc f = do
    f1 ← write (s.nhdr_bytes (length core_name) (length desc) type) f
    f2 ← write core_name f1
    f3 ← write (padding 4 (length core_name)) f2
    write desc f3

  pub write_headers : ℕ → ℕ → List MemorySegment → io.File → Written io
  unfolding write
  write_headers offset filesz [] f = complete f
  write_headers offset filesz (seg ∷ segs) f =
      write (s.phdr_bytes (load_header (offset + filesz) seg)) f
      >>= write_headers (offset + filesz) seg.size segs

  pub write_segments : List MemorySegment → io.File → Written io
  unfolding write
  write_segments [] f = complete f
  write_segments (seg ∷ segs) f =
      write (read_bytes memory seg.ptr seg.size) f >>= write_segments segs

  pub write_notes : Regs → FpRegs → io.File → Written io
  unfolding write_note
  write_notes the_regs fpregs f = do
    f1 ← write_note prpsinfo s.prpsinfo_bytes f
    f2 ← write_note prstatus (s.prstatus_bytes the_regs) f1
    write_note fpregset (s.fpregs_bytes fpregs) f2

  -- Up to the next page, if the notes do not end at one.
  pub write_gap : ℕ → io.File → Written io
  unfolding write
  write_gap gap f = if gap == 0 then complete f else write (replicate gap 0) f

  -- The function from `fopen` on. An abandoned file stays open.
  pub write_core_dump : List MemorySegment → Regs → FpRegs → io.File → Written io
  unfolding write_headers write_segments write_notes write_gap
  write_core_dump segs the_regs fpregs f =
      let offset = notes_offset s (phnum segs) in
      let gap = note_align (offset + notes_size s) in
      write (s.ehdr_bytes (file_header s segs)) f
      >>= write (s.phdr_bytes (note_header s offset))
      >>= write_headers (offset + gap) (notes_size s) segs
      >>= write_notes the_regs fpregs
      >>= write_gap gap
      >>= write_segments segs
      >>= (λ f'. complete (io.fclose f'))
