-- ===== src/Manager/Coredump/Image.antt =====
-- The bytes of a core dump that was written to its end (src/manager/coredump_linux.cpp).
use mathlib.Core.List.{append-nil, append_assoc}
use bmboot.Base.{
  ℕ, zero, suc, ◌+◌, ◌≡◌, ◌⊎◌, inl, inr, refl, ap, sym, ◌∙◌, arith, Bool, Bool-cases, false,
  if◌then◌else◌, ◌==◌, ==_iff, List, [], ◌∷◌, ◌++◌, length, replicate,
}
use bmboot.Ipc.{Regs, FpRegs}
use bmboot.Monitor.{read_bytes}
use bmboot.Manager.Coredump.{
  Stdio, Appends, Structs, NoteType, prpsinfo, prstatus, fpregset, MemorySegment, padding,
  core_name, Written, complete, abandoned, ◌>>=◌, write, write_note, phnum, notes_offset,
  notes_size, note_align, load_header, write_headers, write_segments, file_header, note_header,
  write_notes, write_gap, write_core_dump,
}

module _ {io : Stdio} where
  Written-cases :
      (m : Written io) → ((f : io.File) × (m ≡ complete f)) ⊎ ((f : io.File) × (m ≡ abandoned f))
  Written-cases (complete f) = inl (f, refl)
  Written-cases (abandoned f) = inr (f, refl)

  -- Where the step completes, it adds the bytes `xs` to the file.
  abbrev pub Adds : (io.File → Written io) → List ℕ → Type 0
  Adds k xs = (f f' : io.File) → k f ≡ complete f' → io.contents f' ≡ io.contents f ++ xs

  bind :
      (k k' : io.File → Written io) (xs ys : List ℕ)
      → Adds k xs
      → Adds k' ys
      → Adds (λ f. k f >>= k') (xs ++ ys)
  bind k k' xs ys p q f f' e = elim (Written-cases (k f)) [
    | inl (f1, e1) ↦
        q f1 f' (sym (ap (λ m. m >>= k') e1) ∙ e)
        ∙ ap (λ t. t ++ ys) (p f f1 e1)
        ∙ append_assoc (io.contents f) xs ys
    | inr (f1, e1) ↦ cc (sym (ap (λ m. m >>= k') e1) ∙ e)
  ]

  abbrev pub file_of : Written io → io.File
  file_of (complete f) = f
  file_of (abandoned f) = f

  nothing : Adds complete []
  nothing f f' e = ap io.contents (sym (ap file_of e)) ∙ sym (append-nil (io.contents f))

module _ (s : Structs) where
  abbrev pub note_bytes : NoteType → List ℕ → List ℕ
  note_bytes type desc =
      s.nhdr_bytes (length core_name) (length desc) type
      ++ (core_name ++ (padding 4 (length core_name) ++ desc))

  abbrev pub notes_bytes : Regs → FpRegs → List ℕ
  notes_bytes r fp =
      note_bytes prpsinfo s.prpsinfo_bytes
      ++ (note_bytes prstatus (s.prstatus_bytes r) ++ note_bytes fpregset (s.fpregs_bytes fp))

  abbrev pub header_bytes : ℕ → ℕ → List MemorySegment → List ℕ
  header_bytes offset filesz [] = []
  header_bytes offset filesz (seg ∷ segs) =
      s.phdr_bytes (load_header (offset + filesz) seg)
      ++ header_bytes (offset + filesz) seg.size segs

  -- Where the notes end.
  abbrev pub notes_end : ℕ → ℕ
  notes_end count = notes_offset s count + notes_size s

  abbrev pub gap : ℕ → ℕ
  gap count = note_align (notes_end count)

-- The bytes of a segment, and of several.
abbrev pub bytes_of : (ℕ → ℕ) → MemorySegment → List ℕ
bytes_of memory seg = read_bytes memory seg.ptr seg.size

abbrev pub segment_bytes : (ℕ → ℕ) → List MemorySegment → List ℕ
segment_bytes memory [] = []
segment_bytes memory (seg ∷ segs) = bytes_of memory seg ++ segment_bytes memory segs

-- The whole file.
abbrev pub image : Structs → (ℕ → ℕ) → List MemorySegment → Regs → FpRegs → List ℕ
image s memory segs r fp =
    s.ehdr_bytes (file_header s segs)
    ++ s.phdr_bytes (note_header s (notes_offset s (phnum segs)))
    ++ header_bytes s (notes_offset s (phnum segs) + gap s (phnum segs)) (notes_size s) segs
    ++ notes_bytes s r fp
    ++ replicate (gap s (phnum segs)) 0
    ++ segment_bytes memory segs

module _ {io : Stdio} (law : Appends io) (s : Structs) (memory : ℕ → ℕ) where
  write-Adds : (xs : List ℕ) → Adds (write io s memory xs) xs
  unfolding write
  write-Adds xs f f' e = elim (Bool-cases ((io.fwrite f xs).1 == length xs)) [
    | inl all ↦
        ap io.contents (sym (ap file_of (sym (taken all) ∙ e)))
        ∙ law.written f xs ((==_iff _ _).0 all)
    | inr short ↦ cc (sym (taken short) ∙ e)
  ]
    where
      taken :
          {t : Bool}
          → (((io.fwrite f xs).1 == length xs) ≡ t)
          → write io s memory xs f
            ≡ (if t then complete (io.fwrite f xs).0 else abandoned (io.fwrite f xs).0)
      taken h = ap (λ t. if t then complete (io.fwrite f xs).0 else abandoned (io.fwrite f xs).0) h

  write_note-Adds :
      (t : NoteType) (desc : List ℕ) → Adds (write_note io s memory t desc) (note_bytes s t desc)
  unfolding write_note
  write_note-Adds t desc = bind _ _ _ _ (write-Adds _) (
      bind _ _ _ _ (write-Adds core_name)
        (bind _ _ _ _ (write-Adds (padding 4 (length core_name))) (write-Adds desc)))

  write_notes-Adds :
      (r : Regs) (fp : FpRegs) → Adds (write_notes io s memory r fp) (notes_bytes s r fp)
  unfolding write_notes
  write_notes-Adds r fp = bind _ _ _ _ (write_note-Adds prpsinfo s.prpsinfo_bytes) (
      bind _ _ _ _ (write_note-Adds prstatus (s.prstatus_bytes r))
        (write_note-Adds fpregset (s.fpregs_bytes fp)))

  write_headers-Adds :
      (offset filesz : ℕ) (segs : List MemorySegment)
      → Adds (write_headers io s memory offset filesz segs) (header_bytes s offset filesz segs)
  unfolding write_headers
  write_headers-Adds offset filesz [] = nothing
  write_headers-Adds offset filesz (seg ∷ segs) =
      bind _ _ _ _ (write-Adds (s.phdr_bytes (load_header (offset + filesz) seg)))
        (write_headers-Adds (offset + filesz) seg.size segs)

  write_segments-Adds :
      (segs : List MemorySegment)
      → Adds (write_segments io s memory segs) (segment_bytes memory segs)
  unfolding write_segments
  write_segments-Adds [] = nothing
  write_segments-Adds (seg ∷ segs) =
      bind _ _ _ _ (write-Adds (bytes_of memory seg)) (write_segments-Adds segs)

  write_gap-Adds : (n : ℕ) → Adds (write_gap io s memory n) (replicate n 0)
  unfolding write_gap
  write_gap-Adds zero f f' e = nothing f f' e
  write_gap-Adds (suc n) f f' e =
      let more : (suc n == 0) ≡ false = ground arith in
      write-Adds (replicate (suc n) 0) f f' (
        sym (ap (λ t. if t then complete f else write io s memory (replicate (suc n) 0) f) more)
        ∙ e)

  fclose-Adds : Adds {io = io} (λ f. complete (io.fclose f)) []
  fclose-Adds f f' e =
      ap io.contents (sym (ap file_of e)) ∙ law.closed f ∙ sym (append-nil (io.contents f))

  -- A dump that was written to its end adds the image to the file.
  pub write_core_dump-Adds :
      (segs : List MemorySegment) (r : Regs) (fp : FpRegs)
      → Adds (write_core_dump io s memory segs r fp) (image s memory segs r fp)
  unfolding write_core_dump
  write_core_dump-Adds segs r fp f f' e =
      bind _ _ _ _
        (bind _ _ _ _
          (bind _ _ _ _
            (bind _ _ _ _
              (bind _ _ _ _
                (bind _ _ _ _ (write-Adds (s.ehdr_bytes (file_header s segs)))
                  (write-Adds (s.phdr_bytes (note_header s (notes_offset s (phnum segs))))))
                (write_headers-Adds (notes_offset s (phnum segs) + gap s (phnum segs))
                  (notes_size s) segs))
              (write_notes-Adds r fp))
            (write_gap-Adds (gap s (phnum segs))))
          (write_segments-Adds segs))
        fclose-Adds f f' e
      ∙ ap (λ t. io.contents f ++ t) (append-nil _)
