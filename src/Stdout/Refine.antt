-- ===== src/Stdout/Refine.antt =====
-- The circular buffer of src/executor/monitor/smc_handlers.cpp and src/manager/domain.cpp against
-- a queue of at most 1023 bytes.
use bmboot.Base.{
  ℕ, suc, ◌+◌, ◌-◌, ◌%◌, ◌<◌, ◌≡◌, ◌≢◌, refl, ap, ◌∙◌, subst, arith, List, [], ◌∷◌, ◌++◌, length,
  length-append, get_or, set, length-set, take, take-nil, take-cons, Option, none, some, ℤ, pos,
  negsuc, if◌then◌else◌, leb-false, ◌==◌, true, false, Bool-cases, inl, inr, Option-cases,
}
use mathlib.Core.List.{append-nil, append_assoc}
use bmboot.Ipc.{IpcBlock, stdout_buf_size}
use bmboot.Stdout.{put_byte, write_loop, write_to_stdout, read_char, getchar, set_rdpos}
use bmboot.Stdout.Contents.{
  window, pending, contents, IsValid, length-window, window-set_snoc, window_of_ne_zero,
}

-- One byte is always kept free, to tell a full buffer from an empty one.
abbrev pub capacity : ℕ
capacity = 1023

pub length-contents : (b : IpcBlock) → length (contents b) ≡ pending b
length-contents b = length-window b.to_manager.stdout_buf b.to_executor.stdout_rdpos (pending b)

-- The outcome of adding a byte to the queue `q`, seen through the block.
abbrev pub Puts : IpcBlock → ℕ → Option IpcBlock → Type 0
Puts b x none = length (contents b) ≡ capacity
Puts b x (some b') =
    (length (contents b) < capacity)
    × (contents b' ≡ contents b ++ (x ∷ []))
    × IsValid b'
    × (b'.to_executor ≡ b.to_executor)

abbrev put_wrpos : IpcBlock → ℕ
put_wrpos b = (b.to_manager.stdout_wrpos + 1) % stdout_buf_size

pub put_byte-Puts : (b : IpcBlock) (x : ℕ) → IsValid b → Puts b x (put_byte b x)
unfolding put_byte
put_byte-Puts b x v = elim (Bool-cases (put_wrpos b == b.to_executor.stdout_rdpos)) [
  | inl full ↦ rw (full, if◌then◌else◌) (length-contents b ∙ ground arith)
  | inr room ↦
      rw (room, if◌then◌else◌)
        (
          ground (arith, length-contents b),
          ap (window (set buf w x) r) (pending-suc (ground arith))
              ∙ window-set_snoc buf x (pending b) r w v.storage v.rdpos_in (ground arith)
                  (omega arith),
          ground (arith, length-set buf w x),
          refl,
        )
]
  where
    buf : List ℕ
    buf = b.to_manager.stdout_buf

    w : ℕ
    w = b.to_manager.stdout_wrpos

    r : ℕ
    r = b.to_executor.stdout_rdpos

    pending-suc :
        put_wrpos b ≢ r → (put_wrpos b + stdout_buf_size - r) % stdout_buf_size ≡ suc (pending b)
    pending-suc ne = omega arith

-- Putting `x` first leaves room for one byte less.
take-put :
    (q q' : List ℕ) (x : ℕ) (xs : List ℕ)
    → length q < capacity
    → q' ≡ q ++ (x ∷ [])
    → q' ++ take (capacity - length q') xs ≡ q ++ take (capacity - length q) (x ∷ xs)
take-put q q' x xs room e =
    rw (e, append_assoc, take-cons (capacity - length q) x xs (λ z. omega arith))
      (ap (λ k. q ++ x ∷ take k xs) (omega (arith, length-append q (x ∷ []))))

-- The loop is asked for `xs` with `q` queued: it queues what fits, and always counts all of `xs`.
record Wrote (b : IpcBlock) (xs : List ℕ) (n : ℕ) (out : IpcBlock × ℕ) : Type 0 where
  count : out.1 ≡ n + length xs
  bytes : contents out.0 ≡ contents b ++ take (capacity - length (contents b)) xs
  valid : IsValid out.0
  framed : out.0.to_executor ≡ b.to_executor

write_loop-Wrote :
    (xs : List ℕ) (b : IpcBlock) (n : ℕ) → IsValid b → Wrote b xs n (write_loop b xs n)
unfolding write_loop
write_loop-Wrote [] b n v = record {
  count = omega arith;
  bytes = rw (take-nil, append-nil);
  valid = v;
  framed = refl;
}
write_loop-Wrote (x ∷ xs) b n v = elim (Option-cases (put_byte b x)) [
  | inl e ↦ rw (e, write_loop) (stopped (subst (Puts b x) e (put_byte-Puts b x v)))
  | inr (b', e) ↦
      let put : Puts b x (some b') = subst (Puts b x) e (put_byte-Puts b x v) in
      rw (e, write_loop) (went_on b' put (write_loop-Wrote xs b' (n + 1) put.2))
]
  where
    stopped : length (contents b) ≡ capacity → Wrote b (x ∷ xs) n (b, n + length (x ∷ xs))
    stopped full = record {
      count = refl;
      bytes = rw full (rw append-nil);
      valid = v;
      framed = refl;
    }

    went_on :
        (b' : IpcBlock)
        → Puts b x (some b')
        → Wrote b' xs (n + 1) (write_loop b' xs (n + 1))
        → Wrote b (x ∷ xs) n (write_loop b' xs (n + 1))
    went_on b' put rest = record {
      count = omega (arith, rest.count);
      bytes = rest.bytes ∙ take-put (contents b) (contents b') x xs put.0 put.1;
      valid = rest.valid;
      framed = rest.framed ∙ put.3;
    }

-- Where the positions are in range, `writeToStdout` queues as many of the bytes as there is room
-- for, in order, keeps the positions in range and leaves the manager's half of the block alone.
-- It returns the number of all the bytes, also where some were dropped.
pub write_to_stdout_lem :
    (b : IpcBlock) (xs : List ℕ)
    → IsValid b
    → ((write_to_stdout b xs).1 ≡ length xs)
      × (contents (write_to_stdout b xs).0 ≡ contents b ++ take (capacity - length (contents b)) xs)
      × IsValid (write_to_stdout b xs).0
      × ((write_to_stdout b xs).0.to_executor ≡ b.to_executor)
unfolding write_to_stdout
write_to_stdout_lem b xs v =
    rw (leb-false stdout_buf_size b.to_manager.stdout_wrpos v.wrpos_in, if◌then◌else◌)
      (let w = write_loop-Wrote xs b 0 v in (omega (arith, w.count), w.bytes, w.valid, w.framed))

-- What a call of `getchar` does to the queue: -1 and no change where it is empty, and else its
-- first byte, which leaves the queue.
abbrev pub Gets : IpcBlock → List ℕ → ℤ × IpcBlock → Type 0
Gets b [] out = (out.0 ≡ negsuc 0) × (out.1 ≡ b)
Gets b (c ∷ q) out =
    (out.0 ≡ pos c) × (contents out.1 ≡ q) × IsValid out.1 × (out.1.to_manager ≡ b.to_manager)

contents-nil :
    (b : IpcBlock)
    → (b.to_executor.stdout_rdpos == b.to_manager.stdout_wrpos) ≡ true
    → contents b ≡ []
contents-nil b same =
    ap (window b.to_manager.stdout_buf b.to_executor.stdout_rdpos) {y = 0} (ground arith)

pending-pred :
    (r w : ℕ)
    → r < stdout_buf_size
    → w < stdout_buf_size
    → (r == w) ≡ false
    → ((w + stdout_buf_size - r) % stdout_buf_size ≢ 0)
      × ((w + stdout_buf_size - r) % stdout_buf_size - 1
          ≡ (w + stdout_buf_size - (r + 1) % stdout_buf_size) % stdout_buf_size)
pending-pred r w hr hw differ = let ne : r ≢ w = ground arith in omega arith

contents-cons :
    (b : IpcBlock)
    → IsValid b
    → (b.to_executor.stdout_rdpos == b.to_manager.stdout_wrpos) ≡ false
    → contents b
      ≡ get_or b.to_manager.stdout_buf b.to_executor.stdout_rdpos 0
        ∷ contents (set_rdpos b ((b.to_executor.stdout_rdpos + 1) % stdout_buf_size))
contents-cons b v differ =
    let (some_wait, less) =
      pending-pred b.to_executor.stdout_rdpos b.to_manager.stdout_wrpos v.rdpos_in v.wrpos_in
        differ in
    window_of_ne_zero b.to_manager.stdout_buf b.to_executor.stdout_rdpos (pending b) some_wait
    ∙ ap
        (λ k.
          get_or b.to_manager.stdout_buf b.to_executor.stdout_rdpos 0
          ∷ window b.to_manager.stdout_buf ((b.to_executor.stdout_rdpos + 1) % stdout_buf_size) k)
        less

-- Where the positions are in range, `getchar` takes the oldest byte off the queue, or gives -1
-- exactly when the queue is empty; the executor's half of the block is left alone.
pub getchar-Gets : (b : IpcBlock) → IsValid b → Gets b (contents b) (getchar b)
unfolding getchar read_char
getchar-Gets b v =
    rw (leb-false stdout_buf_size b.to_executor.stdout_rdpos v.rdpos_in, if◌then◌else◌)
      (elim (Bool-cases (b.to_executor.stdout_rdpos == b.to_manager.stdout_wrpos)) [
        | inl same ↦ rw (same, if◌then◌else◌) (rw (contents-nil b same) (refl, refl))
        | inr differ ↦
            rw (differ, if◌then◌else◌)
              (rw (contents-cons b v differ) (
                refl,
                refl,
                record { storage = v.storage; wrpos_in = v.wrpos_in; rdpos_in = omega arith },
                refl,
              ))
      ])

-- It moves the read position at most.
pub getchar-moves :
    (b : IpcBlock) → IsValid b → (r : ℕ) × (r < stdout_buf_size) × ((getchar b).1 ≡ set_rdpos b r)
unfolding getchar read_char
getchar-moves b v =
    rw (leb-false stdout_buf_size b.to_executor.stdout_rdpos v.rdpos_in, if◌then◌else◌)
      (elim (Bool-cases (b.to_executor.stdout_rdpos == b.to_manager.stdout_wrpos)) [
        | inl same ↦ rw (same, if◌then◌else◌) (b.to_executor.stdout_rdpos, v.rdpos_in, refl)
        | inr differ ↦ rw (differ, if◌then◌else◌) (_, omega arith, refl)
      ])

-- The fields of the executor's half that the output does not use.
abbrev pub SameStatus : IpcBlock → IpcBlock → Type 0
SameStatus b b' =
    (b'.to_manager.state ≡ b.to_manager.state)
    × (b'.to_manager.cmd_ack ≡ b.to_manager.cmd_ack)
    × (b'.to_manager.cmd_resp ≡ b.to_manager.cmd_resp)

put_byte-SameStatus : (b b' : IpcBlock) (x : ℕ) → put_byte b x ≡ some b' → SameStatus b b'
unfolding put_byte
put_byte-SameStatus b b' x e = ground arith

write_loop-SameStatus : (xs : List ℕ) (b : IpcBlock) (n : ℕ) → SameStatus b (write_loop b xs n).0
unfolding write_loop
write_loop-SameStatus [] b n = (refl, refl, refl)
write_loop-SameStatus (x ∷ xs) b n = elim (Option-cases (put_byte b x)) [
  | inl e ↦ rw (e, write_loop) (refl, refl, refl)
  | inr (b', e) ↦
      let (s, a, r) = put_byte-SameStatus b b' x e in
      let (s', a', r') = write_loop-SameStatus xs b' (n + 1) in
      rw (e, write_loop) (s' ∙ s, a' ∙ a, r' ∙ r)
]

pub write_to_stdout-SameStatus :
    (b : IpcBlock) (xs : List ℕ) → IsValid b → SameStatus b (write_to_stdout b xs).0
unfolding write_to_stdout
write_to_stdout-SameStatus b xs v =
    rw (leb-false stdout_buf_size b.to_manager.stdout_wrpos v.wrpos_in, if◌then◌else◌)
      (write_loop-SameStatus xs b 0)
