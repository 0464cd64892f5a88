-- ===== src/Config/Setting.antt =====
-- What a configuration service holds, as a partial function from two names to a value.
use demo_iot_app_hw.Base.{ℕ, ◌≡◌, ◌≢◌, ◌≤◌, Option, none, some, List, length}
use demo_iot_app_hw.Base.Memory.{overwrite}
use demo_iot_app_hw.Platform.Os.{os_success, OsErrors, ConfigService}
use demo_iot_app_hw.Config.Names.{initialize_name}
use demo_iot_app_hw.Config.Search.{Listing, first_named}

-- Behind a handle there are domains with parameters, which do not change. A value fits into the
-- length that is asked for.
pub record Contents {W H E D Q : Type 0} (cs : ConfigService W H E D Q) (handle : H) : Type 0 where
  pub listing : Listing cs handle
  pub parameter : D → List ℕ → Option Q
  pub value : Q → ℕ → Option (List ℕ)
  pub has :
      (d : D) (name : List ℕ) (q : Q) (w : W)
      → parameter d name ≡ some q
      → ((cs.domain_get_element handle d name w).0 ≡ os_success)
        × ((cs.domain_get_element handle d name w).1 ≡ q)
  pub has_not :
      (d : D) (name : List ℕ) (w : W)
      → parameter d name ≡ none
      → (cs.domain_get_element handle d name w).0 ≢ os_success
  pub gives :
      (q : Q) (len : ℕ) (bytes : List ℕ) (w : W)
      → value q len ≡ some bytes
      → ((cs.parameter_get_value handle q len w).0 ≡ os_success)
        × ((cs.parameter_get_value handle q len w).1 ≡ bytes)
        × (length bytes ≤ len)
  pub gives_not :
      (q : Q) (len : ℕ) (w : W)
      → value q len ≡ none
      → (cs.parameter_get_value handle q len w).0 ≢ os_success

-- None of the calls changes what `view` shows of the outside.
pub record KeepsView {W H E D Q V : Type 0} (cs : ConfigService W H E D Q) (view : W → V)
    : Type 0 where
  pub create : (w : W) → view (cs.create_handle_remote w).2 ≡ view w
  pub init : (h : H) (e : E) (w : W) → view (cs.domain_enumerator_init h e w).1 ≡ view w
  pub element : (h : H) (e : E) (w : W) → view (cs.domain_enumerator_get_element h e w).2 ≡ view w
  pub increment : (h : H) (e : E) (w : W) → view (cs.domain_enumerator_increment h e w).2 ≡ view w
  pub parameter :
      (h : H) (d : D) (name : List ℕ) (w : W) → view (cs.domain_get_element h d name w).2 ≡ view w
  pub value : (h : H) (q : Q) (len : ℕ) (w : W) → view (cs.parameter_get_value h q len w).2 ≡ view w

abbrev pub then_option : {A B : Type 0} → Option A → (A → Option B) → Option B
then_option none f = none
then_option (some a) f = f a

-- The array with a value at its front.
abbrev pub filled : List ℕ → Option (List ℕ) → List ℕ
filled buf none = buf
filled buf (some bytes) = overwrite buf 0 bytes

module _ {W H E D Q : Type 0} (er : OsErrors) (cs : ConfigService W H E D Q) (handle : H)
    (c : Contents cs handle) where
  -- The value of a parameter, by its two names.
  unfoldable pub setting : List ℕ → List ℕ → ℕ → Option (List ℕ)
  setting domain parameter len =
      then_option (first_named er cs (initialize_name cs.domain_name_size domain) c.listing.domains)
        (λ d.
          then_option (c.parameter d (initialize_name cs.parameter_name_size parameter))
            (λ q. c.value q len))

  pub setting_fits :
      (domain parameter : List ℕ) (len : ℕ) (w : W) (bytes : List ℕ)
      → setting domain parameter len ≡ some bytes
      → length bytes ≤ len
  unfolding setting
  setting_fits domain parameter len w bytes h =
      value_fits (first_named er cs (initialize_name cs.domain_name_size domain) c.listing.domains)
        h
    where
      parameter_fits :
          (q : Option Q) → then_option q (λ q. c.value q len) ≡ some bytes → length bytes ≤ len
      parameter_fits none e = cc
      parameter_fits (some q) e = (c.gives q len bytes w e).2

      value_fits :
          (d : Option D)
          → then_option d (λ d.
            then_option
              (c.parameter d (initialize_name cs.parameter_name_size parameter))
              (λ q. c.value q len))
            ≡ some bytes
          → length bytes ≤ len
      value_fits none e = cc
      value_fits (some d) e =
          parameter_fits (c.parameter d (initialize_name cs.parameter_name_size parameter)) e
