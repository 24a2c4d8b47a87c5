-- ===== src/Types/Enums.antt =====
-- The enumerations of include/bmboot.hpp, with the integers that C++ gives their members.
use bmboot.Base.{
  ℕ, zero, suc, ◌==◌, Bool, true, false, Bool-cases, inl, inr, ◌≢◌, ◌≡◌, refl, sym, ap, ◌∙◌, ==_iff,
}

pub data DomainState : Type 0 where
  in_reset monitor_ready starting_payload running_payload : DomainState
  crashed_payload crashed_monitor unavailable invalid_state : DomainState

pub data DomainIndex : Type 0 where
  cpu1 cpu2 cpu3 max_domain : DomainIndex

pub data ErrorCode : Type 0 where
  bad_domain_state configuration_file_error hw_resource_unavailable : ErrorCode
  payload_start_timed_out payload_checksum_mismatch payload_image_malformed : ErrorCode
  payload_abi_incompatible payload_crashed_during_startup program_too_large : ErrorCode
  monitor_start_timed_out unknown_error dev_mem_access_failed mmap_failed : ErrorCode

-- `(int) state`.
abbrev pub state_code : DomainState → ℕ
state_code in_reset = 0
state_code monitor_ready = 1
state_code starting_payload = 2
state_code running_payload = 3
state_code crashed_payload = 4
state_code crashed_monitor = 5
state_code unavailable = 6
state_code invalid_state = 7

-- `(DomainState) raw`, for a value up to 7.
abbrev pub state_of_code : ℕ → DomainState
state_of_code zero = in_reset
state_of_code (suc zero) = monitor_ready
state_of_code (suc (suc zero)) = starting_payload
state_of_code (suc (suc (suc zero))) = running_payload
state_of_code (suc (suc (suc (suc zero)))) = crashed_payload
state_of_code (suc (suc (suc (suc (suc zero))))) = crashed_monitor
state_of_code (suc (suc (suc (suc (suc (suc zero)))))) = unavailable
state_of_code (suc (suc (suc (suc (suc (suc (suc n))))))) = invalid_state

abbrev pub error_code : ErrorCode → ℕ
error_code bad_domain_state = 0
error_code configuration_file_error = 1
error_code hw_resource_unavailable = 2
error_code payload_start_timed_out = 3
error_code payload_checksum_mismatch = 4
error_code payload_image_malformed = 5
error_code payload_abi_incompatible = 6
error_code payload_crashed_during_startup = 7
error_code program_too_large = 8
error_code monitor_start_timed_out = 9
error_code unknown_error = 10
error_code dev_mem_access_failed = 11
error_code mmap_failed = 12

infix 50 ◌is◌
-- `state == DomainState::…`.
abbrev pub ◌is◌ : DomainState → DomainState → Bool
s is t = state_code s == state_code t

pub state_of_code-state_code : (s : DomainState) → state_of_code (state_code s) ≡ s
state_of_code-state_code in_reset = refl
state_of_code-state_code _ = refl

pub is_iff : (s t : DomainState) → (s is t) ≡ true → s ≡ t
is_iff s t h =
    sym (state_of_code-state_code s)
    ∙ ap state_of_code ((==_iff _ _).0 h)
    ∙ state_of_code-state_code t

pub is_not : (s t : DomainState) → (s is t) ≡ false → s ≢ t
is_not s t differ e = cc (differ, (==_iff (state_code s) (state_code t)).1 (ap state_code e))

pub other_state : (s t : DomainState) → s ≢ t → (s is t) ≡ false
other_state s t differ = elim (Bool-cases (s is t)) [
  | inl same ↦ absurd (differ (is_iff s t same))
  | inr e ↦ e
]
