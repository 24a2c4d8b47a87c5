-- ===== src/Payload/Sleep.antt =====
-- src/platform/zynqmp/executor/sleep.cpp. The built-in timer is a parameter: `now k` is the value of
-- CNTPCT_EL0 at load k of it. A result is the number of loads so far; none stands for a loop that is
-- not over when the fuel is used up.
pub mod Waits
use bmboot.Base.{
  ℕ, zero, suc, ◌+◌, ◌-◌, ◌*◌, ◌/◌, ◌%◌, ◌^◌, ◌≤◌, ◌<◌, ◌≡◌, ◌⊎◌, inl, inr, refl, ap, ◌∙◌, arith,
  if◌then◌else◌, ltb, Option, none, some, Bool-cases,
}

-- `divideRoundingUp` on words of 64 bits.
pub divide_rounding_up : ℕ → ℕ → ℕ
divide_rounding_up dividend divisor = (dividend + divisor + (2 ^ 64 - 1)) % 2 ^ 64 / divisor

module _ (now : ℕ → ℕ) where
  -- The `while` loop, at load `k`.
  pub wait : ℕ → ℕ → ℕ → Option ℕ
  wait zero k end = none
  wait (suc fuel) k end =
      let rest = wait fuel (k + 1) end in if ltb (now k) end then rest else some (k + 1)

  -- `usleep`, at load `k`, where the timer has the frequency given.
  pub usleep : ℕ → ℕ → ℕ → ℕ → Option ℕ
  unfolding wait divide_rounding_up
  usleep fuel frequency k useconds =
      let end = (now k + divide_rounding_up (useconds * frequency % 2 ^ 64) 1000000) % 2 ^ 64 in
      wait fuel (k + 1) end

  -- `sleep`; it takes an `unsigned int`.
  pub sleep : ℕ → ℕ → ℕ → ℕ → Option ℕ
  unfolding usleep
  sleep fuel frequency k seconds = usleep fuel frequency k (seconds * 1000000 % 2 ^ 64)
