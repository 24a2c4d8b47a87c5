-- ===== src/Manager/Coredump/Layout.antt =====
-- Where the headers and the segments of a core dump lie (src/manager/coredump_linux.cpp).
use mathlib.Core.List.{append_assoc}
use bmboot.Base.{
  ℕ, ◌+◌, ◌*◌, ◌%◌, ◌^◌, ◌<◌, ◌≡◌, refl, ap, subst, sym, ◌∙◌, arith, List, [], ◌∷◌, ◌++◌, length,
  length-append, length-replicate, replicate,
}
use bmboot.Ipc.{Regs, FpRegs}
use bmboot.Manager.Coredump.{
  Stdio, Appends, Structs, Sized, NoteType, prpsinfo, prstatus, fpregset, Phdr, load, MemorySegment,
  complete, pagesize, core_name, padding, phnum, notes_offset, notes_size, note_align, load_header,
  file_header, note_header, write_core_dump,
}
use bmboot.Manager.Coredump.Image.{
  image, note_bytes, notes_bytes, header_bytes, notes_end, gap, bytes_of, segment_bytes,
  write_core_dump-Adds,
}
use bmboot.Monitor.Bytes.{length-read_bytes}

abbrev pub sizes : List MemorySegment → ℕ
sizes [] = 0
sizes (seg ∷ segs) = seg.size + sizes segs

note_align_lem : (end : ℕ) → (end + note_align end) % pagesize ≡ 0
note_align_lem end = ground arith

module _ (memory : ℕ → ℕ) (seg : MemorySegment) (post : List MemorySegment) where
  -- The bytes of the segments before.
  segments_at :
      (pre : List MemorySegment)
      → (xs : List ℕ) × (segment_bytes memory (pre ++ seg ∷ post)
          ≡ xs ++ (bytes_of memory seg ++ segment_bytes memory post))
        × (length xs ≡ sizes pre)
  segments_at [] = ([], refl, refl)
  segments_at (p ∷ pre) =
      let (xs, e, n) = segments_at pre in
      (
        bytes_of memory p ++ xs,
        ap (λ t. bytes_of memory p ++ t) e ∙ sym (append_assoc (bytes_of memory p) xs _),
        omega (arith, length-append (bytes_of memory p) xs, length-read_bytes memory p.size p.ptr),
      )

module _ (s : Structs) (z : Sized s) where
  pub length-header_bytes :
      (offset filesz : ℕ) (segs : List MemorySegment)
      → length (header_bytes s offset filesz segs) ≡ length segs * s.phdr_size
  length-header_bytes offset filesz [] = omega arith
  length-header_bytes offset filesz (p ∷ segs) = omega (
    arith,
    length-append (s.phdr_bytes (load_header (offset + filesz) p))
        (header_bytes s (offset + filesz) p.size segs),
    z.phdr_sized (load_header (offset + filesz) p),
    length-header_bytes (offset + filesz) p.size segs,
  )

  length-note_bytes :
      (t : NoteType) (desc : List ℕ) → length (note_bytes s t desc) ≡ s.nhdr_size + 8 + length desc
  length-note_bytes t desc = omega (
    arith,
    length-append (s.nhdr_bytes 5 (length desc) t) (core_name ++ (padding 4 5 ++ desc)),
    z.nhdr_sized 5 (length desc) t,
  )

  module _ (r : Regs) (fp : FpRegs) where
    pub length-notes_bytes : length (notes_bytes s r fp) ≡ notes_size s
    length-notes_bytes = omega (
      arith,
      length-append (note_bytes s prpsinfo s.prpsinfo_bytes)
          (note_bytes s prstatus (s.prstatus_bytes r) ++ note_bytes s fpregset (s.fpregs_bytes fp)),
      length-append (note_bytes s prstatus (s.prstatus_bytes r))
          (note_bytes s fpregset (s.fpregs_bytes fp)),
      length-note_bytes prpsinfo s.prpsinfo_bytes,
      length-note_bytes prstatus (s.prstatus_bytes r),
      length-note_bytes fpregset (s.fpregs_bytes fp),
      z.prpsinfo_sized,
      z.prstatus_sized r,
      z.fpregs_sized fp,
    )

  module _ (seg : MemorySegment) (post : List MemorySegment) where
    -- The headers before that of the segment, and those after it.
    headers_at :
        (offset filesz : ℕ) (pre : List MemorySegment)
        → (xs ys : List ℕ) × (header_bytes s offset filesz (pre ++ seg ∷ post)
            ≡ xs ++ (s.phdr_bytes (load_header (offset + filesz + sizes pre) seg) ++ ys))
          × (length xs ≡ length pre * s.phdr_size)
    headers_at offset filesz [] = (
      [],
      header_bytes s (offset + filesz) seg.size post,
      ap (λ t. s.phdr_bytes (load_header t seg) ++ header_bytes s (offset + filesz) seg.size post)
          (omega arith),
      omega arith,
    )
    headers_at offset filesz (p ∷ pre) =
        let (xs, ys, e, n) = headers_at (offset + filesz) p.size pre in
        let first = s.phdr_bytes (load_header (offset + filesz) p) in
        (
          first ++ xs,
          ys,
          ap (λ t. first ++ t)
                (e ∙ ap (λ t. xs ++ (s.phdr_bytes (load_header t seg) ++ ys)) (omega arith))
              ∙ sym (append_assoc first xs _),
          omega (arith, n, length-append first xs, z.phdr_sized (load_header (offset + filesz) p)),
        )

pub length-chunks :
    (a b c d e f : List ℕ)
    → length (a ++ b ++ c ++ d ++ e ++ f)
      ≡ length a + length b + length c + length d + length e + length f
length-chunks a b c d e f = omega (
  arith,
  length-append (a ++ b ++ c ++ d ++ e) f,
  length-append (a ++ b ++ c ++ d) e,
  length-append (a ++ b ++ c) d,
  length-append (a ++ b) c,
  length-append a b,
)

regroup :
    (a b h p t n g u : List ℕ)
    → a ++ b ++ (h ++ (p ++ t)) ++ n ++ g ++ u ≡ a ++ b ++ h ++ (p ++ (t ++ (n ++ (g ++ u))))
regroup a b h p t n g u = simp (append_assoc)

-- The first header is at `e_phoff`, each has `e_phentsize` bytes, and the notes have the first.
abbrev pub header_place : Structs → List MemorySegment → ℕ → ℕ
header_place s segs k = (file_header s segs).e_phoff + (k + 1) * (file_header s segs).e_phentsize

-- The place of the bytes of a segment in a file, and that of its header.
pub record Placed (s : Structs) (memory : ℕ → ℕ) (seg : MemorySegment) (header : ℕ) (file : List ℕ)
    (p : Phdr) : Type 0 where
  pub before : List ℕ
  pub after : List ℕ
  pub body : file ≡ before ++ (bytes_of memory seg ++ after)
  pub at_offset : length before ≡ p.p_offset
  pub header_before : List ℕ
  pub header_after : List ℕ
  pub header_body : file ≡ header_before ++ (s.phdr_bytes p ++ header_after)
  pub at_header : length header_before ≡ header

module _ (s : Structs) (z : Sized s) (memory : ℕ → ℕ) (pre post : List MemorySegment)
    (seg : MemorySegment) (r : Regs) (fp : FpRegs) where
  abbrev segs : List MemorySegment
  segs = pre ++ seg ∷ post

  abbrev first_offset : ℕ
  first_offset = notes_offset s (phnum segs) + gap s (phnum segs) + notes_size s

  pub image-Placed :
      length segs + 1 < 2 ^ 16
      → Placed s memory seg
          (header_place s segs (length pre))
          (image s memory segs r fp)
          (load_header (first_offset + sizes pre) seg)
  image-Placed fits =
      let whole : phnum segs ≡ length segs + 1 = omega arith in
      let head = s.ehdr_bytes (file_header s segs) in
      let note = s.phdr_bytes (note_header s (notes_offset s (phnum segs))) in
      let headers =
        header_bytes s (notes_offset s (phnum segs) + gap s (phnum segs)) (notes_size s) segs in
      let notes = notes_bytes s r fp in
      let filler : List ℕ = replicate (gap s (phnum segs)) 0 in
      let (xs, e, n) = segments_at memory seg post pre in
      let (hs, ys, he, hn) =
        headers_at s z seg post (notes_offset s (phnum segs) + gap s (phnum segs)) (notes_size s)
          pre in
      record {
        before = head ++ note ++ headers ++ notes ++ filler ++ xs;
        after = segment_bytes memory post;
        body =
            ap (λ t. head ++ note ++ headers ++ notes ++ filler ++ t) e
            ∙ sym (append_assoc (head ++ note ++ headers ++ notes ++ filler) xs _);
        at_offset =
            length-chunks head note headers notes filler xs
            ∙ omega (
              arith,
              n,
              ap (λ k. k * s.phdr_size) whole,
              z.ehdr_sized (file_header s segs),
              z.phdr_sized (note_header s (notes_offset s (phnum segs))),
              length-header_bytes s z (notes_offset s (phnum segs) + gap s (phnum segs))
                  (notes_size s) segs,
              length-notes_bytes s z r fp,
              length-replicate {A = ℕ} (gap s (phnum segs)) 0,
            );
        header_before = head ++ note ++ hs;
        header_after = ys ++ (notes ++ (filler ++ segment_bytes memory segs));
        header_body =
            ap (λ t. head ++ note ++ t ++ notes ++ filler ++ segment_bytes memory segs) he
            ∙ regroup head note hs (s.phdr_bytes (load_header (first_offset + sizes pre) seg)) ys
                notes filler (segment_bytes memory segs);
        at_header = omega (
          arith,
          hn,
          length-append (head ++ note) hs,
          length-append head note,
          z.ehdr_sized (file_header s segs),
          z.phdr_sized (note_header s (notes_offset s (phnum segs))),
        );
      }

module _ {io : Stdio} (law : Appends io) (s : Structs) (z : Sized s) (memory : ℕ → ℕ) where
  -- Where `fwrite` adds what it says it wrote, structures have the size that `sizeof` gives, the
  -- file was empty, and the segments are fewer than 65535, so that the 16 bits of `e_phnum` hold
  -- their headers' number: in a dump that was written to its end, the header that is found by
  -- `e_phoff` and `e_phentsize` for a segment is a `PT_LOAD` header with the segment's address and
  -- size, and the bytes of the segment are at its offset. The offset is a multiple of the page
  -- size, but for the sizes of the segments before.
  pub write_core_dump_lem :
      (pre post : List MemorySegment) (seg : MemorySegment) (r : Regs) (fp : FpRegs)
      (f f' : io.File)
      → length (pre ++ seg ∷ post) + 1 < 2 ^ 16
      → io.contents f ≡ []
      → write_core_dump io s memory (pre ++ seg ∷ post) r fp f ≡ complete f'
      → (p : Phdr) × Placed s memory seg
          (header_place s (pre ++ seg ∷ post) (length pre))
          (io.contents f')
          p
        × (p.p_type ≡ load)
        × (p.p_vaddr ≡ seg.start_address)
        × (p.p_filesz ≡ length (bytes_of memory seg))
        × (p.p_offset % pagesize ≡ sizes pre % pagesize)
  write_core_dump_lem pre post seg r fp f f' fits empty e =
      let segs = pre ++ seg ∷ post in
      let first = notes_offset s (phnum segs) + gap s (phnum segs) + notes_size s in
      let whole : io.contents f' ≡ image s memory segs r fp =
        write_core_dump-Adds law s memory segs r fp f f' e
        ∙ ap (λ t. t ++ image s memory segs r fp) empty in
      (
        load_header (first + sizes pre) seg,
        subst
            (λ t.
              Placed s memory seg (header_place s segs (length pre)) t
                (load_header (first + sizes pre) seg))
            (sym whole) (image-Placed s z memory pre post seg r fp fits),
        refl,
        refl,
        sym (length-read_bytes memory seg.size seg.ptr),
        omega (arith, note_align_lem (notes_end s (phnum segs))),
      )
