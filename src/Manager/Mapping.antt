-- ===== src/Manager/Mapping.antt =====
-- The class of src/utility/mmap.hpp. A mapping is the address that the system gave, if it gave one.
use bmboot.Base.{ℕ, zero, suc, ◌≡◌, refl, ap, Option, none, some, List, [], ◌∷◌, ◌++◌}

pub record Mapping : Type 0 where
  pub base : Option ℕ
  pub len : ℕ

-- The constructor, by the result of `mmap`.
abbrev pub map_area : Option ℕ → ℕ → Mapping
map_area none len = record { base = none; len = 0 }
map_area (some a) len = record { base = some a; len = len }

-- What is passed to `munmap`.
abbrev pub released : Mapping → List (ℕ × ℕ)
released m = elim m.base [ none ↦ [] | some a ↦ (a, m.len) ∷ [] ]

-- `unmap`
pub unmap : Mapping → Mapping × List (ℕ × ℕ)
unmap m = (record m { base = none }, released m)

-- Calls of `unmap`, and then the destructor.
pub destroy_after : ℕ → Mapping → List (ℕ × ℕ)
unfolding unmap
destroy_after zero m = (unmap m).1
destroy_after (suc n) m = let (m', calls) = unmap m in calls ++ destroy_after n m'

gone : (n len : ℕ) → destroy_after n (record { base = none; len = len }) ≡ []
unfolding destroy_after
gone zero len = refl
gone (suc n) len = gone n len

-- However often a mapping is released before it is destroyed, it is unmapped once, with its own
-- address and size, and not at all where it failed.
destroy_after-map_area :
    (n len : ℕ) (result : Option ℕ)
    → destroy_after n (map_area result len) ≡ released (map_area result len)
unfolding destroy_after
destroy_after-map_area zero len none = refl
destroy_after-map_area zero len (some a) = refl
destroy_after-map_area (suc n) len none = gone n 0
destroy_after-map_area (suc n) len (some a) = ap (λ t. (a, len) ∷ t) (gone n len)
