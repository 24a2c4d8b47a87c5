-- ===== src/Manager/Coredump/Whole.antt =====
-- A core dump on a medium that takes all bytes (src/manager/coredump_linux.cpp).
use bmboot.Base.{
  ℕ, ◌+◌, ◌*◌, ◌^◌, ◌<◌, ◌≡◌, refl, ap, subst, sym, ◌∙◌, arith, List, [], ◌∷◌, ◌++◌, length,
  length-append, length-replicate, replicate,
}
use bmboot.Ipc.{Regs, FpRegs}
use bmboot.Monitor.Bytes.{length-read_bytes}
use bmboot.Manager.Coredump.{
  Stdio, Appends, Structs, Sized, Phdr, MemorySegment, complete, phnum, notes_offset, notes_size,
  load_header, file_header, note_header, write_core_dump,
}
use bmboot.Manager.Coredump.Image.{
  image, notes_bytes, header_bytes, gap, bytes_of, segment_bytes, write_core_dump-Adds,
}
use bmboot.Manager.Coredump.Layout.{
  sizes, Placed, header_place, length-header_bytes, length-notes_bytes, length-chunks, image-Placed,
}
use bmboot.Manager.Coredump.Returns.{write_core_dump-Completes}

length-segment_bytes :
    (memory : ℕ → ℕ) (segs : List MemorySegment) → length (segment_bytes memory segs) ≡ sizes segs
length-segment_bytes memory [] = refl
length-segment_bytes memory (seg ∷ segs) = omega (
  arith,
  length-append (bytes_of memory seg) (segment_bytes memory segs),
  length-read_bytes memory seg.size seg.ptr,
  length-segment_bytes memory segs,
)

sizes-append :
    (pre : List MemorySegment) (seg : MemorySegment) (post : List MemorySegment)
    → sizes (pre ++ seg ∷ post) ≡ sizes pre + seg.size + sizes post
sizes-append [] seg post = omega arith
sizes-append (p ∷ pre) seg post = omega (arith, sizes-append pre seg post)

module _ (s : Structs) (z : Sized s) (memory : ℕ → ℕ) (segs : List MemorySegment) (r : Regs)
    (fp : FpRegs) where
  length-image :
      length segs + 1 < 2 ^ 16
      → length (image s memory segs r fp)
        ≡ notes_offset s (phnum segs) + gap s (phnum segs) + notes_size s + sizes segs
  length-image fits =
      let whole : phnum segs ≡ length segs + 1 = omega arith in
      let offset = notes_offset s (phnum segs) + gap s (phnum segs) in
      length-chunks (s.ehdr_bytes (file_header s segs))
        (s.phdr_bytes (note_header s (notes_offset s (phnum segs))))
        (header_bytes s offset (notes_size s) segs) (notes_bytes s r fp)
        (replicate (gap s (phnum segs)) 0) (segment_bytes memory segs)
      ∙ omega (
        arith,
        ap (λ k. k * s.phdr_size) whole,
        z.ehdr_sized (file_header s segs),
        z.phdr_sized (note_header s (notes_offset s (phnum segs))),
        length-header_bytes s z offset (notes_size s) segs,
        length-notes_bytes s z r fp,
        length-replicate {A = ℕ} (gap s (phnum segs)) 0,
        length-segment_bytes memory segs,
      )

module _ {io : Stdio} (law : Appends io) (s : Structs) (z : Sized s) (memory : ℕ → ℕ) where
  -- Where `fwrite` takes all bytes and adds them to the file, structures have the size that `sizeof`
  -- gives, the file was empty, and the segments are fewer than 65535: the dump is written to its
  -- end; each segment has a header at its place in the table, with its address, and its bytes at
  -- the offset in that header; and the file ends as many bytes after those as the segments that
  -- follow have.
  pub write_core_dump-whole :
      ((f : io.File) (xs : List ℕ) → (io.fwrite f xs).1 ≡ length xs)
      → (pre post : List MemorySegment) (seg : MemorySegment) (r : Regs) (fp : FpRegs) (f : io.File)
      → length (pre ++ seg ∷ post) + 1 < 2 ^ 16
      → io.contents f ≡ []
      → (f' : io.File) × (write_core_dump io s memory (pre ++ seg ∷ post) r fp f ≡ complete f')
        × (p : Phdr) × Placed s memory seg
            (header_place s (pre ++ seg ∷ post) (length pre))
            (io.contents f')
            p
        × (p.p_vaddr ≡ seg.start_address)
        × (length (io.contents f') ≡ p.p_offset + seg.size + sizes post)
  write_core_dump-whole room pre post seg r fp f fits empty =
      let segs = pre ++ seg ∷ post in
      let (f', e) = write_core_dump-Completes s memory room segs r fp f in
      let offset = notes_offset s (phnum segs) + gap s (phnum segs) + notes_size s + sizes pre in
      let whole : io.contents f' ≡ image s memory segs r fp =
        write_core_dump-Adds law s memory segs r fp f f' e
        ∙ ap (λ t. t ++ image s memory segs r fp) empty in
      (
        f',
        e,
        load_header offset seg,
        subst
            (λ t. Placed s memory seg (header_place s segs (length pre)) t (load_header offset seg))
            (sym whole) (image-Placed s z memory pre post seg r fp fits),
        refl,
        ap length whole
            ∙ length-image s z memory segs r fp fits
            ∙ omega (arith, sizes-append pre seg post),
      )
