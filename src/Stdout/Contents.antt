-- ===== src/Stdout/Contents.antt =====
-- The bytes that wait in the circular buffer, oldest first, and the representation invariant.
use bmboot.Base.{
  ℕ, zero, suc, ◌+◌, ◌-◌, ◌%◌, ◌<◌, ◌≡◌, ◌≢◌, refl, ap, ap₂, ◌∙◌, arith, List, [], ◌∷◌, ◌++◌,
  length, get_or, set, get_or-set_self, get_or-set_ne,
}
use bmboot.Ipc.{IpcBlock, stdout_buf_size}

-- The `n` bytes from index `h` on, going round at the end of the buffer.
abbrev pub window : List ℕ → ℕ → ℕ → List ℕ
window buf h zero = []
window buf h (suc n) = get_or buf h 0 ∷ window buf ((h + 1) % stdout_buf_size) n

-- How many bytes wait.
abbrev pub pending : IpcBlock → ℕ
pending b =
    (b.to_manager.stdout_wrpos + stdout_buf_size - b.to_executor.stdout_rdpos) % stdout_buf_size

abbrev pub contents : IpcBlock → List ℕ
contents b = window b.to_manager.stdout_buf b.to_executor.stdout_rdpos (pending b)

pub record IsValid (b : IpcBlock) : Type 0 where
  pub storage : length b.to_manager.stdout_buf ≡ stdout_buf_size
  pub wrpos_in : b.to_manager.stdout_wrpos < stdout_buf_size
  pub rdpos_in : b.to_executor.stdout_rdpos < stdout_buf_size

-- Nothing else of the block matters.
pub IsValid-of :
    (b b' : IpcBlock)
    → b'.to_manager.stdout_buf ≡ b.to_manager.stdout_buf
    → b'.to_manager.stdout_wrpos ≡ b.to_manager.stdout_wrpos
    → b'.to_executor.stdout_rdpos ≡ b.to_executor.stdout_rdpos
    → IsValid b
    → IsValid b'
IsValid-of b b' buf wrpos rdpos v = record {
  storage = ap length buf ∙ v.storage;
  wrpos_in = omega (arith, wrpos, v.wrpos_in);
  rdpos_in = omega (arith, rdpos, v.rdpos_in);
}

pub length-window : (buf : List ℕ) (h n : ℕ) → length (window buf h n) ≡ n
length-window buf h zero = refl
length-window buf h (suc n) = ap suc (length-window buf ((h + 1) % stdout_buf_size) n)

-- A write behind the window, less than once round, does not touch it.
pub window-set_ne :
    (buf : List ℕ) (x n k h i : ℕ)
    → n + k < stdout_buf_size
    → i < stdout_buf_size
    → h < stdout_buf_size
    → i ≡ (h + n + k) % stdout_buf_size
    → window (set buf i x) h n ≡ window buf h n
window-set_ne buf x zero k h i fits hi hh e = refl
window-set_ne buf x (suc n) k h i fits hi hh e =
    ap₂ ◌∷◌ (get_or-set_ne buf i h x 0 (λ same. omega arith)) (
      window-set_ne buf x n k ((h + 1) % stdout_buf_size) i (omega arith) hi (omega arith)
        (omega arith))

-- The window grows at its end.
pub window_snoc :
    (buf : List ℕ) (n h : ℕ)
    → h < stdout_buf_size
    → window buf h (suc n) ≡ window buf h n ++ (get_or buf ((h + n) % stdout_buf_size) 0 ∷ [])
window_snoc buf zero h hh = ap (λ k. get_or buf k 0 ∷ []) (omega arith)
window_snoc buf (suc n) h hh =
    ap (λ w. get_or buf h 0 ∷ w)
      (window_snoc buf n ((h + 1) % stdout_buf_size) (omega arith)
        ∙ ap (λ k. window buf ((h + 1) % stdout_buf_size) n ++ (get_or buf k 0 ∷ [])) (omega arith))

-- `window` matches on `suc`.
pub window_of_ne_zero :
    (buf : List ℕ) (h n : ℕ)
    → n ≢ 0
    → window buf h n ≡ get_or buf h 0 ∷ window buf ((h + 1) % stdout_buf_size) (n - 1)
window_of_ne_zero buf h zero p = absurd (p refl)
window_of_ne_zero buf h (suc n) p = ap (λ k. window buf h (suc k)) (omega arith)

-- Writing just behind the window extends it by that byte.
pub window-set_snoc :
    (buf : List ℕ) (x n h i : ℕ)
    → length buf ≡ stdout_buf_size
    → h < stdout_buf_size
    → n + 1 < stdout_buf_size
    → i ≡ (h + n) % stdout_buf_size
    → window (set buf i x) h (suc n) ≡ window buf h n ++ (x ∷ [])
window-set_snoc buf x n h i hs hh fits e =
    window_snoc (set buf i x) n h hh
    ∙ ap₂ (λ w c. w ++ (c ∷ []))
        (window-set_ne buf x n 0 h i (omega arith) (omega arith) hh (omega arith))
        (rw (← e) (get_or-set_self buf i x 0 (omega arith)))
