-- ===== src/Types/Names.antt =====
-- src/utility/to_string.cpp: the text of each domain index, state and error code, and back.
use Prim.Native.String.{String, ◌++◌ as ◌<>◌}
use text.Mathlib.Text.{◌==◌ as str_eq}
use text.Mathlib.TextEquality.{eq_iff}
use bmboot.Base.{
  ℕ, zero, suc, ◌/◌, ◌%◌, ◌≡◌, ◌≢◌, refl, arith, Option, some, none, if◌then◌else◌, ltb, get_or,
  List, [], ◌∷◌,
}
use bmboot.Types.Enums.{DomainState, DomainIndex, ErrorCode, error_code}
use bmboot.Types.Enums.{cpu1, cpu2, cpu3, max_domain}
use bmboot.Types.Enums.{
  in_reset, monitor_ready, starting_payload, running_payload, crashed_payload, crashed_monitor,
  unavailable, invalid_state,
}
use bmboot.Types.Enums.{
  bad_domain_state, configuration_file_error, hw_resource_unavailable, payload_start_timed_out,
  payload_abi_incompatible, payload_crashed_during_startup, payload_image_malformed,
  program_too_large, monitor_start_timed_out, unknown_error,
}

unfoldable pub parse_domain_index : String → Option DomainIndex
parse_domain_index str =
    if str_eq str "cpu1"
    then some cpu1
    else if str_eq str "cpu2"
    then some cpu2
    else if str_eq str "cpu3"
    then some cpu3
    else none

-- `toString(DomainIndex)`
pub index_to_string : DomainIndex → String
index_to_string cpu1 = "cpu1"
index_to_string cpu2 = "cpu2"
index_to_string cpu3 = "cpu3"
index_to_string _ = "invalid"

-- `toString(DomainState)`; every value of the type has a case of its own.
pub state_to_string : DomainState → String
state_to_string in_reset = "in_reset"
state_to_string monitor_ready = "monitor_ready"
state_to_string starting_payload = "starting_payload"
state_to_string running_payload = "running_payload"
state_to_string crashed_payload = "crashed_payload"
state_to_string crashed_monitor = "crashed_monitor"
state_to_string unavailable = "unavailable"
state_to_string invalid_state = "invalid_state"

abbrev digits : List String
digits = "0" ∷ "1" ∷ "2" ∷ "3" ∷ "4" ∷ "5" ∷ "6" ∷ "7" ∷ "8" ∷ "9" ∷ []

-- `std::to_string` of an enumerator, which has at most as many digits as the fuel.
decimal : ℕ → ℕ → String
decimal zero n = ""
decimal (suc fuel) n =
    let more = decimal fuel (n / 10) in
    if ltb n 10 then get_or digits n "" else more <> get_or digits (n % 10) ""

-- `toString(ErrorCode)`
pub error_to_string : ErrorCode → String
unfolding decimal
error_to_string bad_domain_state = "bad domain state"
error_to_string configuration_file_error = "/etc/bmboot.conf not found or malformed (see docs)"
error_to_string hw_resource_unavailable = "a requested hardware resource is not available"
error_to_string payload_abi_incompatible = "payload was built against an incompatible ABI version"
error_to_string payload_crashed_during_startup = "payload crashed during startup"
error_to_string payload_image_malformed = "provided file is not a valid Bmboot payload"
error_to_string payload_start_timed_out = "payload startup timed out"
error_to_string program_too_large = "program too large, or wrong load address"
error_to_string monitor_start_timed_out = "monitor startup timed out"
error_to_string unknown_error = "unknown error"
error_to_string e = "error " <> decimal 2 (error_code e)

-- The name of a domain other than `max_domain` is parsed as that domain, and no other text is parsed
-- as it.
pub parse_domain_index-index_to_string :
    (s : String) (i : DomainIndex)
    → i ≢ max_domain
    → (parse_domain_index s ≡ some i → s ≡ index_to_string i)
      × (s ≡ index_to_string i → parse_domain_index s ≡ some i)
unfolding parse_domain_index index_to_string
parse_domain_index-index_to_string s cpu1 h =
    (ground (arith, eq_iff s "cpu1", eq_iff s "cpu2", eq_iff s "cpu3"), λ e. rw e)
parse_domain_index-index_to_string s cpu2 h =
    (ground (arith, eq_iff s "cpu1", eq_iff s "cpu2", eq_iff s "cpu3"), λ e. rw e)
parse_domain_index-index_to_string s cpu3 h =
    (ground (arith, eq_iff s "cpu1", eq_iff s "cpu2", eq_iff s "cpu3"), λ e. rw e)
parse_domain_index-index_to_string s max_domain h = absurd (h refl)
