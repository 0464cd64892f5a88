-- ===== src/Config.antt =====
-- include/util/helper_func.c: reading a parameter from the configuration server. The search for a
-- domain is a `for (;;)`, so it runs on fuel: a round for each domain and one more.
pub mod Names
pub mod Search
pub mod Into
pub mod Setting
pub mod Contents
use demo_iot_app_hw.Base.{
  ℕ, zero, suc, Option, none, some, List, true, false, if◌then◌else◌, ℤ, ◌==ℤ◌, Run, ok,
  out_of_fuel, ◌>>=◌,
}
use demo_iot_app_hw.Platform.Os.{os_success, OsErrors, ConfigService}
use Names.{initialize_name, compare_domain_name}

module _ {W H E D Q : Type 0} (er : OsErrors) (cs : ConfigService W H E D Q) where
  -- The loop of `find_domain` from an enumerator on: the code, and the domain where it is found.
  unfoldable pub find_from : ℕ → H → E → List ℕ → W → Run (ℤ × Option D × W)
  find_from zero handle enumerator domain_name w = out_of_fuel
  find_from (suc fuel) handle enumerator domain_name w =
      let (ret, domain, w1) = cs.domain_enumerator_get_element handle enumerator w in
      let (ret', enumerator', w2) = cs.domain_enumerator_increment handle enumerator w1 in
      let again = find_from fuel handle enumerator' domain_name w2 in
      let next : Run (ℤ × Option D × W) =
        (if ret' ==ℤ os_success then again else ok (er.generic, none, w2)) in
      let name = cs.domain_get_name domain in
      if ret ==ℤ os_success
      then (if compare_domain_name er cs.domain_name_size name domain_name ==ℤ os_success
          then ok (os_success, some domain, w1)
          else next)
      else ok (er.generic, none, w1)

  -- `find_domain`
  unfoldable pub find_domain : ℕ → H → E → List ℕ → W → Run (ℤ × Option D × W)
  find_domain fuel handle enumerator domain_name w =
      let (enumerator', w') = cs.domain_enumerator_init handle enumerator w in
      find_from fuel handle enumerator' domain_name w'

  -- The parameter of a domain that was found, as `get_parameter_element` asks for it.
  unfoldable pub get_element : H → Option D → List ℕ → W → ℤ × Option Q × W
  get_element handle none parameter_name w = (er.domain_not_found, none, w)
  get_element handle (some domain) parameter_name w =
      let (ret, parameter, w') = cs.domain_get_element handle domain parameter_name w in
      if ret ==ℤ os_success
      then (os_success, some parameter, w')
      else (er.parameter_not_found, none, w')

  -- `get_parameter_element`
  unfoldable pub get_parameter_element : ℕ → H → List ℕ → List ℕ → W → Run (ℤ × Option Q × W)
  unfolding get_element
  get_parameter_element fuel handle domain parameter w = do
    (ret, found, w') ←
        find_domain fuel handle cs.enumerator_zero (initialize_name cs.domain_name_size domain) w
    ok (
        get_element handle (if ret ==ℤ os_success then found else none)
          (initialize_name cs.parameter_name_size parameter) w')

  -- The value of the parameter, where there is one.
  unfoldable pub get_value : H → ℕ → ℤ → Option Q → W → ℤ × Option (List ℕ) × W
  get_value handle len ret none w = (ret, none, w)
  get_value handle len ret (some parameter) w =
      let (ret', bytes, w') = cs.parameter_get_value handle parameter len w in
      if ret ==ℤ os_success
      then (if ret' ==ℤ os_success then (os_success, some bytes, w') else (ret', none, w'))
      else (ret, none, w)

  -- `helper_func_getConfigParameter`: the code, and what is written to the front of the caller's
  -- buffer of `len` bytes on success. The type of the parameter is asked for and not used.
  unfoldable pub get_config_parameter :
      ℕ → H → List ℕ → List ℕ → ℕ → W → Run (ℤ × Option (List ℕ) × W)
  unfolding get_value
  get_config_parameter fuel handle domain parameter len w = do
    (ret, found, w') ← get_parameter_element fuel handle domain parameter w
    ok (get_value handle len ret found w')
