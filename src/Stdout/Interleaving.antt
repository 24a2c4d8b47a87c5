-- ===== src/Stdout/Interleaving.antt =====
-- The circular buffer with the monitor and the manager at work on it at the same time. A byte is
-- put in two steps, the store into the buffer and the store of the write position; it is got in two
-- steps, the load from the buffer and the store of the read position. Memory is sequentially
-- consistent.
use bmboot.Base.{
  ℕ, suc, ◌+◌, ◌-◌, ◌%◌, ◌<◌, ◌≡◌, ◌≢◌, refl, ap, ap₂, ◌∙◌, sym, subst, arith, List, [], ◌∷◌, ◌++◌,
  get_or, set, length-set, get_or-set_self, get_or-set_ne, Option, none, some, pos,
}
use mathlib.Core.List.{append_assoc}
use bmboot.Ipc.{IpcBlock, stdout_buf_size}
use bmboot.Stdout.{set_rdpos, put_byte, getchar}
use bmboot.Stdout.Contents.{
  window, pending, contents, IsValid, window_snoc, window-set_ne, window_of_ne_zero,
}

-- `writer` is the byte that is stored and not yet published, `reader` the byte that is loaded and
-- not yet released; `put` and `got` are the bytes of all the finished operations so far.
pub record System : Type 0 where
  pub block : IpcBlock
  pub writer : Option ℕ
  pub reader : Option ℕ
  pub put : List ℕ
  pub got : List ℕ

abbrev pub buffer : System → List ℕ
buffer s = s.block.to_manager.stdout_buf

abbrev pub wrpos : System → ℕ
wrpos s = s.block.to_manager.stdout_wrpos

abbrev pub rdpos : System → ℕ
rdpos s = s.block.to_executor.stdout_rdpos

abbrev pub set_buf : IpcBlock → List ℕ → IpcBlock
set_buf b buf = record b { to_manager = record b.to_manager { stdout_buf = buf } }

abbrev pub set_wrpos : IpcBlock → ℕ → IpcBlock
set_wrpos b w = record b { to_manager = record b.to_manager { stdout_wrpos = w } }

pub data Step : System → System → Type 0 where
  store :
      (s : System) (x : ℕ)
      → s.writer ≡ none
      → (wrpos s + 1) % stdout_buf_size ≢ rdpos s
      → Step s (record s { block = set_buf s.block (set (buffer s) (wrpos s) x); writer = some x })
  publish :
      (s : System) (x : ℕ)
      → s.writer ≡ some x
      → Step s (record s {
        block = set_wrpos s.block ((wrpos s + 1) % stdout_buf_size);
        writer = none;
        put = s.put ++ (x ∷ []);
      })
  load :
      (s : System)
      → s.reader ≡ none
      → rdpos s ≢ wrpos s
      → Step s (record s { reader = some (get_or (buffer s) (rdpos s) 0) })
  release :
      (s : System) (c : ℕ)
      → s.reader ≡ some c
      → Step s (record s {
        block = set_rdpos s.block ((rdpos s + 1) % stdout_buf_size);
        reader = none;
        got = s.got ++ (c ∷ []);
      })

pub data Reach (s : System) : System → Type 0 where
  here : Reach s s
  next : {t u : System} → Reach s t → Step t u → Reach s u

pub record Inv (s : System) : Type 0 where
  pub valid : IsValid s.block
  pub stored :
      (x : ℕ)
      → s.writer ≡ some x
      → (pending s.block + 1 < stdout_buf_size) × (get_or (buffer s) (wrpos s) 0 ≡ x)
  pub loaded :
      (c : ℕ) → s.reader ≡ some c → (rdpos s ≢ wrpos s) × (get_or (buffer s) (rdpos s) 0 ≡ c)
  pub fifo : s.got ++ contents s.block ≡ s.put

store-Inv :
    (s : System) (x : ℕ)
    → (wrpos s + 1) % stdout_buf_size ≢ rdpos s
    → Inv s
    → Inv (record s { block = set_buf s.block (set (buffer s) (wrpos s) x); writer = some x })
store-Inv s x room v = record {
  valid = record {
    storage = length-set (buffer s) (wrpos s) x ∙ v.valid.storage;
    wrpos_in = v.valid.wrpos_in;
    rdpos_in = v.valid.rdpos_in;
  };
  stored = λ y e. (
    omega (arith, v.valid),
    get_or-set_self (buffer s) (wrpos s) x 0 (omega (arith, v.valid)) ∙ ground (arith, e),
  );
  loaded = λ c e. (
    (v.loaded c e).0,
    get_or-set_ne (buffer s) (wrpos s) (rdpos s) x 0 (λ same. (v.loaded c e).0 (sym same))
        ∙ (v.loaded c e).1,
  );
  fifo =
      ap (λ w. s.got ++ w)
        (window-set_ne (buffer s) x (pending s.block) 0 (rdpos s) (wrpos s) (omega (arith, v.valid))
          v.valid.wrpos_in v.valid.rdpos_in (omega (arith, v.valid)))
      ∙ v.fifo;
}

publish-Inv :
    (s : System) (x : ℕ)
    → s.writer ≡ some x
    → Inv s
    → Inv (record s {
      block = set_wrpos s.block ((wrpos s + 1) % stdout_buf_size);
      writer = none;
      put = s.put ++ (x ∷ []);
    })
publish-Inv s x w v = record {
  valid = record { storage = v.valid.storage; wrpos_in = omega arith; rdpos_in = v.valid.rdpos_in };
  stored = λ y e. cc;
  loaded = λ c e. (λ same. omega (arith, v.valid, v.stored x w, v.loaded c e), (v.loaded c e).1);
  fifo =
      ap (λ q. s.got ++ q) longer ∙ sym (append_assoc s.got _ _) ∙ ap (λ q. q ++ (x ∷ [])) v.fifo;
}
  where
    more :
        (((wrpos s + 1) % stdout_buf_size) + stdout_buf_size - rdpos s) % stdout_buf_size
        ≡ suc (pending s.block)
    more = omega (arith, v.valid, v.stored x w)

    slot : (rdpos s + pending s.block) % stdout_buf_size ≡ wrpos s
    slot = omega (arith, v.valid)

    longer :
        contents (set_wrpos s.block ((wrpos s + 1) % stdout_buf_size))
        ≡ contents s.block ++ (x ∷ [])
    longer =
        ap (window (buffer s) (rdpos s)) more
        ∙ window_snoc (buffer s) (pending s.block) (rdpos s) v.valid.rdpos_in
        ∙ ap (λ c. contents s.block ++ (c ∷ []))
            (ap (λ k. get_or (buffer s) k 0) slot ∙ (v.stored x w).1)

release-Inv :
    (s : System) (c : ℕ)
    → s.reader ≡ some c
    → Inv s
    → Inv (record s {
      block = set_rdpos s.block ((rdpos s + 1) % stdout_buf_size);
      reader = none;
      got = s.got ++ (c ∷ []);
    })
release-Inv s c r v = record {
  valid = record { storage = v.valid.storage; wrpos_in = v.valid.wrpos_in; rdpos_in = omega arith };
  stored = λ x e. (omega (arith, v.valid, v.stored x e, v.loaded c r), (v.stored x e).1);
  loaded = λ d e. cc;
  fifo = append_assoc s.got (c ∷ []) _ ∙ ap (λ q. s.got ++ q) (sym shorter) ∙ v.fifo;
}
  where
    less :
        pending s.block - 1
        ≡ (wrpos s + stdout_buf_size - ((rdpos s + 1) % stdout_buf_size)) % stdout_buf_size
    less = omega (arith, v.valid, v.loaded c r)

    shorter : contents s.block ≡ c ∷ contents (set_rdpos s.block ((rdpos s + 1) % stdout_buf_size))
    shorter =
        window_of_ne_zero (buffer s) (rdpos s) (pending s.block)
          (omega (arith, v.valid, v.loaded c r))
        ∙ ap₂ ◌∷◌ (v.loaded c r).1 (ap (window (buffer s) ((rdpos s + 1) % stdout_buf_size)) less)

pub Step-Inv : {s t : System} → Step s t → Inv s → Inv t
Step-Inv (store s x idle room) v = store-Inv s x room v
Step-Inv (publish s x w) v = publish-Inv s x w v
Step-Inv (load s idle some_wait) v = record {
  valid = v.valid;
  stored = v.stored;
  loaded = λ c e. (some_wait, ground (arith, e));
  fifo = v.fifo;
}
Step-Inv (release s c r) v = release-Inv s c r v

pub Reach-Inv : {s t : System} → Inv s → Reach s t → Inv t
Reach-Inv v here = v
Reach-Inv v (next r st) = Step-Inv st (Reach-Inv v r)

-- Nothing is under way; the bytes that wait count as put.
unfoldable pub start : IpcBlock → System
start b = record { block = b; writer = none; reader = none; put = contents b; got = [] }

start-Inv : (b : IpcBlock) → IsValid b → Inv (start b)
unfolding start
start-Inv b v = record { valid = v; stored = λ x e. cc; loaded = λ c e. cc; fifo = refl }

-- Where the positions are in range at the start, and however the steps of the monitor and of the
-- manager interleave, the bytes that were got and the
-- bytes that still wait are together the bytes that were put, in order: none is lost, doubled or
-- overtaken. The positions stay in range.
pub Reach-fifo :
    (b : IpcBlock) (s : System)
    → IsValid b
    → Reach (start b) s
    → (s.got ++ contents s.block ≡ s.put) × IsValid s.block
Reach-fifo b s v r = let i = Reach-Inv (start-Inv b v) r in (i.fifo, i.valid)

-- A call of `put_byte` that succeeds is a store and then a publication, and one of `getchar` that
-- gives a byte is a load and then a release.
pub put_byte-Reach :
    (s : System) (x : ℕ) (b' : IpcBlock)
    → s.writer ≡ none
    → put_byte s.block x ≡ some b'
    → Reach s (record s { block = b'; writer = none; put = s.put ++ (x ∷ []) })
unfolding put_byte
put_byte-Reach s x b' idle e =
    subst (λ k. Reach s (record s { block = k; writer = none; put = s.put ++ (x ∷ []) }))
      (ground arith) (next (next here (store s x idle (ground arith))) (publish _ x refl))

pub getchar-Reach :
    (s : System) (c : ℕ) (b' : IpcBlock)
    → IsValid s.block
    → s.reader ≡ none
    → getchar s.block ≡ (pos c, b')
    → Reach s (record s { block = b'; reader = none; got = s.got ++ (c ∷ []) })
unfolding getchar
getchar-Reach s c b' v idle e =
    subst (λ k. Reach s (record s { block = k; reader = none; got = s.got ++ (c ∷ []) }))
      (ground arith)
      (next (next here (load s idle (ground arith))) (release _ c (ap some (ground arith))))
