-- ===== src/Platform/Os.antt =====
-- The error codes and services of the operating system's SDK that the components call.
use demo_iot_app_hw.Base.{ℕ, ◌≢◌, List, ℤ, pos}

-- `OS_SUCCESS` is 0: the code tests an `OS_Error_t` by `if (ret)` and returns 0 for it.
abbrev pub os_success : ℤ
os_success = pos 0

-- The other codes of `OS_Error_t` that the code names.
pub record OsErrors : Type 0 where
  pub generic : ℤ
  pub aborted : ℤ
  pub invalid_state : ℤ
  pub invalid_handle : ℤ
  pub invalid_parameter : ℤ
  pub would_block : ℤ
  pub conn_refused : ℤ
  pub connection_closed : ℤ
  pub domain_not_found : ℤ
  pub parameter_not_found : ℤ

-- None of them is `OS_SUCCESS`.
pub record AreErrors (e : OsErrors) : Type 0 where
  pub generic : e.generic ≢ os_success
  pub aborted : e.aborted ≢ os_success
  pub invalid_state : e.invalid_state ≢ os_success
  pub invalid_handle : e.invalid_handle ≢ os_success
  pub invalid_parameter : e.invalid_parameter ≢ os_success
  pub would_block : e.would_block ≢ os_success
  pub conn_refused : e.conn_refused ≢ os_success
  pub connection_closed : e.connection_closed ≢ os_success
  pub domain_not_found : e.domain_not_found ≢ os_success
  pub parameter_not_found : e.parameter_not_found ≢ os_success

-- `OS_ConfigService_*`: handles `H`, enumerators `E`, domains `D` and parameters `Q`. A name is the
-- `domain_name_size` or `parameter_name_size` bytes of its buffer. `parameter_get_value` gets the
-- length of the caller's buffer and returns the bytes that it writes at its front.
pub record ConfigService (W H E D Q : Type 0) : Type 0 where
  pub domain_name_size : ℕ
  pub parameter_name_size : ℕ
  pub enumerator_zero : E
  pub create_handle_remote : W → ℤ × H × W
  pub domain_enumerator_init : H → E → W → E × W
  pub domain_enumerator_get_element : H → E → W → ℤ × D × W
  pub domain_get_name : D → List ℕ
  pub domain_enumerator_increment : H → E → W → ℤ × E × W
  pub domain_get_element : H → D → List ℕ → W → ℤ × Q × W
  pub parameter_get_value : H → Q → ℕ → W → ℤ × List ℕ × W
