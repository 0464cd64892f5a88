-- ===== src/Config/Search.antt =====
-- The search for a domain against the list of domains that the server enumerates.
use demo_iot_app_hw.Base.{
  ℕ, zero, suc, ◌≡◌, ◌≢◌, ◌<◌, ◌⊎◌, inl, inr, refl, Option, none, some, List, [], ◌∷◌,
  if◌then◌else◌, length, ℤ, ◌==ℤ◌, ok, arith, Bool-cases,
}
use demo_iot_app_hw.Platform.Os.{os_success, OsErrors, AreErrors, ConfigService}
use demo_iot_app_hw.Config.{
  find_from, find_domain, get_element, get_parameter_element, get_value, get_config_parameter,
}
use demo_iot_app_hw.Config.Names.{initialize_name, compare_domain_name}

-- The server behind a handle enumerates `domains` in order: an enumerator stands before what is
-- left of them, and at the end there is no element.
pub record Listing {W H E D Q : Type 0} (cs : ConfigService W H E D Q) (handle : H) : Type 0 where
  pub domains : List D
  pub left : E → List D
  pub init : (e : E) (w : W) → left (cs.domain_enumerator_init handle e w).0 ≡ domains
  pub element :
      (e : E) (d : D) (ds : List D) (w : W)
      → left e ≡ d ∷ ds
      → ((cs.domain_enumerator_get_element handle e w).0 ≡ os_success)
        × ((cs.domain_enumerator_get_element handle e w).1 ≡ d)
  pub increment :
      (e : E) (d : D) (ds : List D) (w : W)
      → left e ≡ d ∷ ds
      → ((cs.domain_enumerator_increment handle e w).0 ≡ os_success)
        × (left (cs.domain_enumerator_increment handle e w).1 ≡ ds)
  pub at_end :
      (e : E) (w : W) → left e ≡ [] → (cs.domain_enumerator_get_element handle e w).0 ≢ os_success

module _ {W H E D Q : Type 0} (er : OsErrors) (cs : ConfigService W H E D Q) where
  -- The first domain of a list with the name in the buffer.
  abbrev pub first_named : List ℕ → List D → Option D
  first_named name [] = none
  first_named name (d ∷ ds) =
      let rest = first_named name ds in
      if compare_domain_name er cs.domain_name_size (cs.domain_get_name d) name ==ℤ os_success
      then some d
      else rest

  -- The code for the result of a search.
  abbrev pub code_of : Option D → ℤ
  code_of none = er.generic
  code_of (some d) = os_success

  find_from-first_named :
      (ds : List D) (fuel : ℕ) (handle : H) (l : Listing cs handle) (e : E) (name : List ℕ) (w : W)
      → length ds < fuel
      → l.left e ≡ ds
      → (w' : W) × (find_from er cs fuel handle e name w
          ≡ ok (code_of (first_named name ds), first_named name ds, w'))
  unfolding find_from
  find_from-first_named ds zero handle l e name w enough here = absurd (omega arith)
  find_from-first_named [] (suc fuel) handle l e name w enough here =
      let (ret, d, w1) = cs.domain_enumerator_get_element handle e w in
      (w1, ground (arith, l.at_end e w here))
  find_from-first_named (d ∷ ds) (suc fuel) handle l e name w enough here =
      let (ret, d', w1) = cs.domain_enumerator_get_element handle e w in
      let (ret', e', w2) = cs.domain_enumerator_increment handle e w1 in
      let (got, this) = l.element e d ds w here in
      let (went, next) = l.increment e d ds w1 here in
      let (w3, run) = find_from-first_named ds fuel handle l e' name w2 (omega arith) next in
      elim (Bool-cases
        (compare_domain_name er cs.domain_name_size (cs.domain_get_name d) name ==ℤ os_success)) [
          | inl same ↦ (w1, ground arith)
          | inr other ↦ (w3, ground arith)
        ]

  -- `find_domain` returns OS_SUCCESS with the first domain of that name, and OS_ERROR_GENERIC where
  -- there is none. One round more than there are domains is enough fuel.
  pub find_domain-first_named :
      (fuel : ℕ) (handle : H) (l : Listing cs handle) (e : E) (name : List ℕ) (w : W)
      → length l.domains < fuel
      → (w' : W) × (find_domain er cs fuel handle e name w
          ≡ ok (code_of (first_named name l.domains), first_named name l.domains, w'))
  unfolding find_domain
  find_domain-first_named fuel handle l e name w enough =
      let (e', w') = cs.domain_enumerator_init handle e w in
      find_from-first_named l.domains fuel handle l e' name w' enough (l.init e w)

  -- OS_SUCCESS with a value, or an error code with none.
  abbrev pub IsAnswer : ℤ → Option (List ℕ) → Type 0
  IsAnswer rc value =
      ((rc ≡ os_success) × ((bytes : List ℕ) × (value ≡ some bytes)))
      ⊎ ((rc ≢ os_success) × (value ≡ none))

  pub IsAnswer-some : (rc : ℤ) (bytes : List ℕ) → IsAnswer rc (some bytes) → rc ≡ os_success
  IsAnswer-some rc bytes (inl (good, _)) = good
  IsAnswer-some rc bytes (inr (bad, e)) = cc

  get_value-IsAnswer :
      (handle : H) (len : ℕ) (rc : ℤ) (found : Option Q) (w : W)
      → ((rc ≡ os_success) × ((q : Q) × (found ≡ some q))) ⊎ ((rc ≢ os_success) × (found ≡ none))
      → IsAnswer (get_value er cs handle len rc found w).0 (get_value er cs handle len rc found w).1
  unfolding get_value
  get_value-IsAnswer handle len rc none w (inl (good, (q, e))) = cc
  get_value-IsAnswer handle len rc none w (inr (bad, e)) = inr (bad, refl)
  get_value-IsAnswer handle len rc (some q) w (inr (bad, e)) = cc
  get_value-IsAnswer handle len rc (some q) w (inl (good, _)) =
      let (ret', bytes, w') = cs.parameter_get_value handle q len w in
      elim (Bool-cases (ret' ==ℤ os_success)) [
        | inl yes_ ↦ inl (ground arith, (bytes, ground arith))
        | inr no_ ↦ inr (ground arith, ground arith)
      ]

  get_element-found :
      (handle : H) (d : Option D) (name : List ℕ) (w : W)
      → AreErrors er
      → let (rc, found, w') = get_element er cs handle d name w in
        ((rc ≡ os_success) × ((q : Q) × (found ≡ some q))) ⊎ ((rc ≢ os_success) × (found ≡ none))
  unfolding get_element
  get_element-found handle none name w bad = inr (bad.domain_not_found, refl)
  get_element-found handle (some d) name w bad =
      let (ret, q, w') = cs.domain_get_element handle d name w in
      elim (Bool-cases (ret ==ℤ os_success)) [
        | inl yes_ ↦ inl (ground arith, (q, ground arith))
        | inr no_ ↦ inr (rw no_ bad.parameter_not_found, ground arith)
      ]

  -- Reading a parameter ends, and it returns OS_SUCCESS exactly when it hands over a value.
  pub get_config_parameter-IsAnswer :
      (fuel : ℕ) (handle : H) (l : Listing cs handle) (domain parameter : List ℕ) (len : ℕ) (w : W)
      → AreErrors er
      → length l.domains < fuel
      → (rc : ℤ) × (value : Option (List ℕ)) × (w' : W) × (get_config_parameter er cs fuel handle
            domain parameter len w
          ≡ ok (rc, value, w'))
        × IsAnswer rc value
  unfolding get_config_parameter get_parameter_element
  get_config_parameter-IsAnswer fuel handle l domain parameter len w bad enough =
      let name = initialize_name cs.domain_name_size domain in
      let (w1, run) = find_domain-first_named fuel handle l cs.enumerator_zero name w enough in
      let d = first_named name l.domains in
      let d' = if code_of d ==ℤ os_success then d else none in
      let (rc, found, w2) =
        get_element er cs handle d' (initialize_name cs.parameter_name_size parameter) w1 in
      let h =
        get_element-found handle d' (initialize_name cs.parameter_name_size parameter) w1 bad in
      let (rc', value, w3) = get_value er cs handle len rc found w2 in
      (rc', value, w3, rw run refl, get_value-IsAnswer handle len rc found w2 h)

  -- Where no domain has the name, the code is OS_ERROR_CONFIG_DOMAIN_NOT_FOUND and there is no value.
  get_config_parameter_no_domain :
      (fuel : ℕ) (handle : H) (l : Listing cs handle) (domain parameter : List ℕ) (len : ℕ) (w : W)
      → AreErrors er
      → length l.domains < fuel
      → first_named (initialize_name cs.domain_name_size domain) l.domains ≡ none
      → (w' : W) × (get_config_parameter er cs fuel handle domain parameter len w
          ≡ ok (er.domain_not_found, none, w'))
  unfolding get_config_parameter get_parameter_element get_element get_value
  get_config_parameter_no_domain fuel handle l domain parameter len w bad enough missing =
      let name = initialize_name cs.domain_name_size domain in
      let (w1, run) = find_domain-first_named fuel handle l cs.enumerator_zero name w enough in
      (w1, rw (run, missing) (ground arith))
