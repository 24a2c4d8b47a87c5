-- ===== src/Manager/Coredump/Returns.antt =====
-- That a core dump is written to its end (src/manager/coredump_linux.cpp).
use bmboot.Base.{
  ℕ, ◌+◌, ◌≡◌, refl, ap, ◌∙◌, true, if◌then◌else◌, ◌==◌, ==_iff, if_ind, List, [], ◌∷◌, length,
  replicate,
}
use bmboot.Ipc.{Regs, FpRegs}
use bmboot.Monitor.{read_bytes}
use bmboot.Manager.Coredump.{
  Stdio, Structs, NoteType, prpsinfo, prstatus, fpregset, MemorySegment, padding, core_name,
  Written, complete, abandoned, ◌>>=◌, write, write_note, phnum, notes_offset, notes_size,
  note_align, load_header, write_headers, write_segments, file_header, note_header, write_notes,
  write_gap, write_core_dump,
}

-- A step that completes whatever the file.
abbrev pub Completes : {io : Stdio} → (io.File → Written io) → Type 0
Completes {io} k = (f : io.File) → (f' : io.File) × (k f ≡ complete f')

Completes-bind :
    {io : Stdio} (k k' : io.File → Written io)
    → Completes k
    → Completes k'
    → Completes (λ f. k f >>= k')
Completes-bind k k' p q f =
    let (f1, e1) = p f in let (f', e') = q f1 in (f', ap (λ m. m >>= k') e1 ∙ e')

module _ {io : Stdio} (s : Structs) (memory : ℕ → ℕ)
    (room : (f : io.File) (xs : List ℕ) → (io.fwrite f xs).1 ≡ length xs) where
  write-Completes : (xs : List ℕ) → Completes (write io s memory xs)
  unfolding write
  write-Completes xs f =
      let all : ((io.fwrite f xs).1 == length xs) ≡ true = (==_iff _ _).1 (room f xs) in
      (
        (io.fwrite f xs).0,
        ap (λ t. if t then complete (io.fwrite f xs).0 else abandoned (io.fwrite f xs).0) all,
      )

  write_note-Completes : (t : NoteType) (desc : List ℕ) → Completes (write_note io s memory t desc)
  unfolding write_note
  write_note-Completes t desc = Completes-bind _ _ (write-Completes _) (
      Completes-bind _ _ (write-Completes core_name) (
        Completes-bind _ _ (write-Completes (padding 4 (length core_name))) (write-Completes desc)))

  write_notes-Completes : (r : Regs) (fp : FpRegs) → Completes (write_notes io s memory r fp)
  unfolding write_notes
  write_notes-Completes r fp = Completes-bind _ _ (write_note-Completes prpsinfo s.prpsinfo_bytes) (
      Completes-bind _ _ (write_note-Completes prstatus (s.prstatus_bytes r))
        (write_note-Completes fpregset (s.fpregs_bytes fp)))

  write_headers-Completes :
      (offset filesz : ℕ) (segs : List MemorySegment)
      → Completes (write_headers io s memory offset filesz segs)
  unfolding write_headers
  write_headers-Completes offset filesz [] f = (f, refl)
  write_headers-Completes offset filesz (seg ∷ segs) f =
      Completes-bind _ _ (write-Completes (s.phdr_bytes (load_header (offset + filesz) seg)))
        (write_headers-Completes (offset + filesz) seg.size segs) f

  write_segments-Completes :
      (segs : List MemorySegment) → Completes (write_segments io s memory segs)
  unfolding write_segments
  write_segments-Completes [] f = (f, refl)
  write_segments-Completes (seg ∷ segs) f =
      Completes-bind _ _ (write-Completes (read_bytes memory seg.ptr seg.size))
        (write_segments-Completes segs) f

  write_gap-Completes : (n : ℕ) → Completes (write_gap io s memory n)
  unfolding write_gap
  write_gap-Completes n f =
      if_ind (λ w. (f' : io.File) × (w ≡ complete f')) (n == 0) (λ _. (f, refl))
        (λ _. write-Completes (replicate n 0) f)

  -- On a medium that takes all bytes, the dump is written to its end.
  pub write_core_dump-Completes :
      (segs : List MemorySegment) (r : Regs) (fp : FpRegs)
      → Completes (write_core_dump io s memory segs r fp)
  unfolding write_core_dump
  write_core_dump-Completes segs r fp =
      let offset = notes_offset s (phnum segs) in
      Completes-bind _ _
        (Completes-bind _ _
          (Completes-bind _ _
            (Completes-bind _ _
              (Completes-bind _ _
                (Completes-bind _ _ (write-Completes (s.ehdr_bytes (file_header s segs)))
                  (write-Completes (s.phdr_bytes (note_header s offset))))
                (write_headers-Completes (offset + note_align (offset + notes_size s))
                  (notes_size s) segs))
              (write_notes-Completes r fp))
            (write_gap-Completes (note_align (offset + notes_size s))))
          (write_segments-Completes segs))
        (λ f. (io.fclose f, refl))
