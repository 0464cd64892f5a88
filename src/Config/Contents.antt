-- ===== src/Config/Contents.antt =====
-- The calls of include/util/helper_func.c against the contents of the configuration service.
use demo_iot_app_hw.Base.{
  ℕ, zero, suc, false, ◌≡◌, ◌<◌, inl, inr, refl, ◌∙◌, Option, none, some, Option-cases, List,
  length, if◌then◌else◌, ℤ, ◌==ℤ◌, ok, arith,
}
use demo_iot_app_hw.Base.Memory.{blit-ok, length-overwrite}
use demo_iot_app_hw.Platform.Os.{os_success, OsErrors, AreErrors, ConfigService}
use demo_iot_app_hw.Config.{
  find_from, find_domain, get_element, get_parameter_element, get_value, get_config_parameter,
}
use demo_iot_app_hw.Config.Names.{initialize_name}
use demo_iot_app_hw.Config.Search.{first_named, code_of, find_domain-first_named, IsAnswer}
use demo_iot_app_hw.Config.Into.{read_into}
use demo_iot_app_hw.Config.Setting.{Contents, KeepsView, then_option, filled, setting, setting_fits}

module _ {W H E D Q V : Type 0} (er : OsErrors) (cs : ConfigService W H E D Q) (handle : H)
    (c : Contents cs handle) (view : W → V) (keeps : KeepsView cs view) where
  find_from-view :
      (fuel : ℕ) (e : E) (name : List ℕ) (rc : ℤ) (found : Option D) (w w' : W)
      → find_from er cs fuel handle e name w ≡ ok (rc, found, w')
      → view w' ≡ view w
  unfolding find_from
  find_from-view zero e name rc found w w' h = cc
  find_from-view (suc fuel) e name rc found w w' h =
      let (ret, d, w1) = cs.domain_enumerator_get_element handle e w in
      let (ret', e', w2) = cs.domain_enumerator_increment handle e w1 in
      let kept = keeps.element handle e w in
      let kept' = keeps.increment handle e w1 in
      let again = find_from-view fuel e' name rc found w2 w' in ground (arith, again)

  find_domain-view :
      (fuel : ℕ) (e : E) (name : List ℕ) (rc : ℤ) (found : Option D) (w w' : W)
      → find_domain er cs fuel handle e name w ≡ ok (rc, found, w')
      → view w' ≡ view w
  unfolding find_domain
  find_domain-view fuel e name rc found w w' h =
      let (e', w1) = cs.domain_enumerator_init handle e w in
      find_from-view fuel e' name rc found w1 w' h ∙ keeps.init handle e w

  found_lem :
      (d : Option D) → AreErrors er → (if code_of er cs d ==ℤ os_success then d else none) ≡ d
  found_lem none bad = let failed = bad.generic in ground arith
  found_lem (some d) bad = refl

  get_value-setting :
      (d : Option D) (parameter : List ℕ) (len : ℕ) (w : W)
      → AreErrors er
      → let answer =
          then_option d (λ d. then_option (c.parameter d parameter) (λ q. c.value q len)) in
        let (ret, found, w1) = get_element er cs handle d parameter w in
        (rc : ℤ) × (w' : W) × (get_value er cs handle len ret found w1 ≡ (rc, answer, w'))
        × IsAnswer er cs rc answer
        × (view w' ≡ view w)
  unfolding get_value get_element
  get_value-setting none parameter len w bad =
      (er.domain_not_found, w, refl, inr (bad.domain_not_found, refl), refl)
  get_value-setting (some d) parameter len w bad =
      let (ret, q', w1) = cs.domain_get_element handle d parameter w in
      let kept = keeps.parameter handle d parameter w in
      elim (Option-cases (c.parameter d parameter)) [
        | inl missing ↦
            let failed = c.has_not d parameter w missing in
            let no : (ret ==ℤ os_success) ≡ false = ground arith in
            (
              er.parameter_not_found,
              w1,
              rw (missing, no) refl,
              rw missing (inr (bad.parameter_not_found, refl)),
              kept,
            )
        | inr (q, there) ↦
            let (good, same) = c.has d parameter q w there in
            let (ret', bytes', w2) = cs.parameter_get_value handle q len w1 in
            let kept' = keeps.value handle q len w1 in
            elim (Option-cases (c.value q len)) [
              | inl missing ↦
                  let failed = c.gives_not q len w1 missing in
                  let no : (ret' ==ℤ os_success) ≡ false = ground arith in
                  (
                    ret',
                    w2,
                    rw (there, good, same, missing, no) refl,
                    rw (there, missing) (inr (failed, refl)),
                    kept' ∙ kept,
                  )
              | inr (bytes, here) ↦
                  let (good', same', fits) = c.gives q len bytes w1 here in
                  (
                    os_success,
                    w2,
                    rw (there, good, same, here, good', same') refl,
                    rw (there, here) (inl (refl, (bytes, refl))),
                    kept' ∙ kept,
                  )
            ]
      ]

  -- `helper_func_getConfigParameter` looks up the service's contents: where the parameter has a value
  -- the call returns OS_SUCCESS with it, and where it has none an error code. A round for each domain
  -- and one more is enough.
  pub get_config_parameter-setting :
      (fuel : ℕ) (domain parameter : List ℕ) (len : ℕ) (w : W)
      → AreErrors er
      → length c.listing.domains < fuel
      → (rc : ℤ) × (w' : W) × (get_config_parameter er cs fuel handle domain parameter len w
          ≡ ok (rc, setting er cs handle c domain parameter len, w'))
        × IsAnswer er cs rc (setting er cs handle c domain parameter len)
        × (view w' ≡ view w)
  unfolding get_config_parameter get_parameter_element setting
  get_config_parameter-setting fuel domain parameter len w bad enough =
      let name = initialize_name cs.domain_name_size domain in
      let (w1, run) =
        find_domain-first_named er cs fuel handle c.listing cs.enumerator_zero name w enough in
      let d = first_named er cs name c.listing.domains in
      let kept = find_domain-view fuel cs.enumerator_zero name (code_of er cs d) d w w1 run in
      let found : (if code_of er cs d ==ℤ os_success then d else none) ≡ d = found_lem d bad in
      let (rc, w', run', answer, kept') =
        get_value-setting d (initialize_name cs.parameter_name_size parameter) len w1 bad in
      (rc, w', rw (run, found, run') refl, answer, kept' ∙ kept)

  -- Into an array of the length given, the value is stored at the front; without one the array is as
  -- it was.
  pub read_into-setting :
      (fuel : ℕ) (domain parameter : List ℕ) (len : ℕ) (buf : List ℕ) (w : W)
      → AreErrors er
      → length c.listing.domains < fuel
      → length buf ≡ len
      → (rc : ℤ) × (w' : W) × (read_into er cs fuel handle domain parameter len buf w
          ≡ ok (rc, filled buf (setting er cs handle c domain parameter len), w'))
        × IsAnswer er cs rc (setting er cs handle c domain parameter len)
        × (view w' ≡ view w)
        × (length (filled buf (setting er cs handle c domain parameter len)) ≡ len)
  unfolding read_into
  read_into-setting fuel domain parameter len buf w bad enough size =
      let (rc, w', run, answer, kept) =
        get_config_parameter-setting fuel domain parameter len w bad enough in
      elim (Option-cases (setting er cs handle c domain parameter len)) [
        | inl missing ↦ (rc, w', rw (run, missing) refl, answer, kept, rw missing size)
        | inr (bytes, here) ↦
            let fits = setting_fits er cs handle c domain parameter len w bytes here in
            (
              rc,
              w',
              rw (run, here, blit-ok buf 0 bytes (omega arith)) refl,
              answer,
              kept,
              rw here (length-overwrite buf 0 bytes (omega arith) ∙ size),
            )
      ]
