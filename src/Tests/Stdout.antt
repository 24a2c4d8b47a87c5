-- ===== src/Tests/Stdout.antt =====
-- The circular buffer: three bytes are written, and one is read.
use bmboot.Base.{ℕ, ◌≡◌, ◌∷◌, [], ◌++◌, refl, arith, List, none, some, set}
use bmboot.Ipc.{IpcBlock, zeroed}
use bmboot.Stdout.{write_to_stdout, getchar, set_rdpos}
use bmboot.Stdout.Contents.{IsValid, contents}
use bmboot.Stdout.Refine.{write_to_stdout_lem, Gets, getchar-Gets}
use bmboot.Stdout.Interleaving.{
  System, Reach, here, next, store, publish, load, release, start, Reach-fifo, set_buf, set_wrpos,
}

pub zeroed-IsValid : IsValid zeroed
zeroed-IsValid = record { storage = refl; wrpos_in = omega arith; rdpos_in = omega arith }

abbrev hello : List ℕ
hello = 104 ∷ 105 ∷ 10 ∷ []

abbrev greeted : IpcBlock
greeted = (write_to_stdout zeroed hello).0

greeted-IsValid : IsValid greeted
greeted-IsValid = (write_to_stdout_lem zeroed hello zeroed-IsValid).2

write_to_stdout_lem_example :
    ((write_to_stdout zeroed hello).1 ≡ 3)
    × (contents greeted ≡ hello)
    × IsValid greeted
    × (greeted.to_executor ≡ zeroed.to_executor)
write_to_stdout_lem_example = write_to_stdout_lem zeroed hello zeroed-IsValid

getchar-Gets_example : Gets greeted (contents greeted) (getchar greeted)
getchar-Gets_example = getchar-Gets greeted greeted-IsValid

-- The byte 97 is stored, published and loaded; a second one is stored before the first is released.
abbrev stored : System
stored = record (start zeroed) {
  block = set_buf zeroed (set zeroed.to_manager.stdout_buf 0 97);
  writer = some 97;
}

abbrev published : System
published = record stored { block = set_wrpos stored.block 1; writer = none; put = 97 ∷ [] }

abbrev loaded : System
loaded = record published { reader = some 97 }

abbrev overlapped : System
overlapped = record loaded {
  block = set_buf loaded.block (set loaded.block.to_manager.stdout_buf 1 98);
  writer = some 98;
}

abbrev released : System
released = record overlapped { block = set_rdpos overlapped.block 1; reader = none; got = 97 ∷ [] }

run : Reach (start zeroed) released
unfolding start
run =
    next
      (next
        (next
          (next (next here (store (start zeroed) 97 refl (ground arith))) (publish stored 97 refl))
          (load published refl (ground arith)))
        (store loaded 98 refl (ground arith)))
      (release overlapped 97 refl)

Reach-fifo_example :
    (released.got ++ contents released.block ≡ released.put) × IsValid released.block
Reach-fifo_example = Reach-fifo zeroed released zeroed-IsValid run
