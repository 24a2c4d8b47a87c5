-- ===== src/Payload/Sleep/Waits.antt =====
-- How long `usleep` of src/platform/zynqmp/executor/sleep.cpp takes.
use bmboot.Base.{
  ℕ, zero, suc, ◌+◌, ◌-◌, ◌*◌, ◌/◌, ◌%◌, ◌^◌, ◌≤◌, ◌<◌, ◌≡◌, inl, inr, refl, ap, ◌∙◌, arith,
  if◌then◌else◌, ltb, ltb→lt, ltb-false, some, Bool-cases,
}
use bmboot.Payload.Sleep.{divide_rounding_up, wait, usleep}

-- The timer never goes back, and goes on within `stall` loads.
pub record Ticks (now : ℕ → ℕ) (stall : ℕ) : Type 0 where
  pub forward : (k : ℕ) → now k ≤ now (k + 1)
  pub goes_on : (k : ℕ) → now k < now (k + stall)

-- Load `j` is the first from `k` on at which the timer has come to `end`.
pub record First (now : ℕ → ℕ) (k end j : ℕ) : Type 0 where
  pub after : k ≤ j
  pub reached : end ≤ now j
  pub before : (i : ℕ) → k ≤ i → i < j → now i < end

-- The timer's ticks in the time asked for, rounded up.
abbrev pub ticks : ℕ → ℕ → ℕ
ticks frequency useconds = (useconds * frequency + 999999) / 1000000

module _ (now : ℕ → ℕ) where
  reaches : (stall : ℕ) → Ticks now stall → (d k : ℕ) → now k + d ≤ now (k + d * stall)
  reaches stall t zero k = omega (arith, ap now {x = k + 0 * stall} {y = k} (omega arith))
  reaches stall t (suc d) k = omega (
    arith,
    reaches stall t d k,
    t.goes_on (k + d * stall),
    ap now {x = k + suc d * stall} {y = k + d * stall + stall} (omega arith),
  )

  later : (stall : ℕ) → Ticks now stall → (d k : ℕ) → now k ≤ now (k + d)
  later stall t zero k = omega (arith, ap now {x = k + 0} {y = k} (omega arith))
  later stall t (suc d) k = omega (
    arith,
    later stall t d k,
    t.forward (k + d),
    ap now {x = k + suc d} {y = k + d + 1} (omega arith),
  )

  over :
      (n k end : ℕ)
      → end ≤ now k
      → (j : ℕ) × (wait now (suc n) k end ≡ some (j + 1)) × First now k end j
  unfolding wait
  over n k end h = (
    k,
    rw (ltb-false (now k) end h, if◌then◌else◌) refl,
    record { after = omega arith; reached = h; before = λ i l m. absurd (omega arith) },
  )

  -- Fuel that lasts until the timer has come to `end` is enough.
  wait_lem :
      (n k end : ℕ)
      → end ≤ now (k + n)
      → (j : ℕ) × (wait now (suc n) k end ≡ some (j + 1)) × First now k end j
  unfolding wait
  wait_lem zero k end late = over 0 k end (omega (arith, ap now {x = k + 0} {y = k} (omega arith)))
  wait_lem (suc n) k end late = elim (Bool-cases (ltb (now k) end)) [
    | inr done ↦ over (suc n) k end (ground arith)
    | inl early ↦
        let (j, ended, f) =
          wait_lem n (k + 1) end
            (omega (arith, ap now {x = k + suc n} {y = k + 1 + n} (omega arith))) in
        (
          j,
          rw (early, if◌then◌else◌) ended,
          record {
            after = omega (arith, f.after);
            reached = f.reached;
            before = λ i l m. elim (Bool-cases (ltb k i)) [
              | inl next ↦ f.before i (omega (arith, ltb→lt k i next)) m
              | inr same ↦
                  omega (arith, ltb→lt (now k) end early, ap now {x = i} {y = k} (ground arith))
            ];
          },
        )
  ]

  module _ (frequency useconds k : ℕ) (fits : useconds * frequency + 999999 < 2 ^ 64)
      (no_wrap : now k + ticks frequency useconds < 2 ^ 64) where
    deadline :
        (now k + divide_rounding_up (useconds * frequency % 2 ^ 64) 1000000) % 2 ^ 64
        ≡ now k + ticks frequency useconds
    unfolding divide_rounding_up
    deadline = omega arith

    waited :
        (fuel : ℕ)
        → usleep now fuel frequency k useconds
          ≡ wait now fuel (k + 1) (now k + ticks frequency useconds)
    unfolding usleep
    waited fuel = ap (wait now fuel (k + 1)) deadline

    reached_in :
        (stall n : ℕ)
        → Ticks now stall
        → ticks frequency useconds * stall ≤ n
        → now k + ticks frequency useconds ≤ now (k + 1 + n)
    reached_in stall n t enough =
        let spare = n + 1 - ticks frequency useconds * stall in
        omega (
          arith,
          reaches stall t (ticks frequency useconds) k,
          later stall t spare (k + ticks frequency useconds * stall),
          ap now {x = k + ticks frequency useconds * stall + spare} {y = k + 1 + n} (omega arith),
        )

    -- Where neither the ticks nor the deadline wrap at 2 ^ 64, and the timer never goes back and
    -- goes on within each `stall` loads: `usleep` returns, with fuel for `stall` loads of each
    -- tick. The load that ends the loop is the first one after the start at which the time asked
    -- for has passed.
    pub usleep_lem :
        (stall n : ℕ)
        → Ticks now stall
        → ticks frequency useconds * stall ≤ n
        → (j : ℕ) × (usleep now (suc n) frequency k useconds ≡ some (j + 1))
          × (k < j)
          × (now k * 1000000 + useconds * frequency ≤ now j * 1000000)
          × ((i : ℕ) → k < i → i < j → now i * 1000000 < now k * 1000000 + useconds * frequency)
    usleep_lem stall n t enough =
        let (j, ended, f) =
          wait_lem n (k + 1) (now k + ticks frequency useconds) (reached_in stall n t enough) in
        (
          j,
          waited (suc n) ∙ ended,
          omega (arith, f.after),
          omega (arith, f.reached),
          λ i l m. omega (arith, f.before i (omega arith) m),
        )
