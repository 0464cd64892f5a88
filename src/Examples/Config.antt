-- ===== src/Examples/Config.antt =====
-- Runs of the theorems on include/util/helper_func.c.
use demo_iot_app_hw.Base.{
  ℕ, zero, suc, ◌<◌, ◌≤◌, ◌≡◌, ◌↔◌, refl, none, some, List, [], ◌∷◌, length, take, drop, get_or,
  ltb, leb, ◌==◌, if◌then◌else◌, ℤ, negsuc, ok, arith,
}
use demo_iot_app_hw.Platform.Os.{os_success, ConfigService}
use demo_iot_app_hw.Config.{get_config_parameter}
use demo_iot_app_hw.Config.Names.{
  initialize_name, compare_domain_name, c_string, initialize_name_lem, compare-initialize_name_iff,
}
use demo_iot_app_hw.Config.Search.{Listing, IsAnswer}
use demo_iot_app_hw.Config.Setting.{Contents, KeepsView, setting}
use demo_iot_app_hw.Config.Contents.{get_config_parameter-setting}
use demo_iot_app_hw.Examples.Fixture.{World, world, os_errors, are_errors}

-- A server with two domains, "a" and "b" in name buffers of four bytes. Domain 98 ("b") has one
-- parameter, whose value is four bytes. Enumerators are positions, and a domain is its letter.
abbrev pub letters : List ℕ
letters = 97 ∷ 98 ∷ []

abbrev pub service : {W : Type 0} → ConfigService W ℕ ℕ ℕ ℕ
service = record {
  domain_name_size = 4;
  parameter_name_size = 4;
  enumerator_zero = 0;
  create_handle_remote = λ w. (os_success, 0, w);
  domain_enumerator_init = λ handle e w. (0, w);
  domain_enumerator_get_element =
      λ handle e w. (if ltb e 2 then os_success else negsuc 0, get_or letters e 0, w);
  domain_get_name = λ d. d ∷ 0 ∷ 0 ∷ 0 ∷ [];
  domain_enumerator_increment = λ handle e w. (os_success, suc e, w);
  domain_get_element = λ handle d name w. (if d == 98 then os_success else negsuc 0, d, w);
  parameter_get_value =
      λ handle q len w. (if leb 4 len then os_success else negsuc 0, q ∷ 0 ∷ 0 ∷ 0 ∷ [], w);
}

pub drop-get_or :
    (e : ℕ) (xs : List ℕ) (d : ℕ) (ds : List ℕ)
    → drop e xs ≡ d ∷ ds
    → (e < length xs) × (get_or xs e 0 ≡ d) × (drop (suc e) xs ≡ ds)
drop-get_or zero [] d ds h = cc
drop-get_or (suc e) [] d ds h = cc
drop-get_or zero (x ∷ xs) d ds h = ground arith
drop-get_or (suc e) (x ∷ xs) d ds h = let (a, b, c) = drop-get_or e xs d ds h in (omega arith, b, c)

pub drop-nil : (e : ℕ) (xs : List ℕ) → drop e xs ≡ [] → length xs ≤ e
drop-nil zero [] h = omega arith
drop-nil (suc e) [] h = omega arith
drop-nil zero (x ∷ xs) h = cc
drop-nil (suc e) (x ∷ xs) h = omega (arith, drop-nil e xs h)

abbrev listing : {W : Type 0} → Listing (service {W = W}) 0
listing = record {
  domains = letters;
  left = λ e. drop e letters;
  init = λ e w. refl;
  element = λ e d ds w h. let (a, b, c) = drop-get_or e letters d ds h in (ground arith, b);
  increment = λ e d ds w h. let (a, b, c) = drop-get_or e letters d ds h in (refl, c);
  at_end = λ e w h. let a = drop-nil e letters h in ground arith;
}

-- Every parameter of the domain 98 has the same value, where four bytes fit.
abbrev pub contents : {W : Type 0} → Contents (service {W = W}) 0
contents = record {
  listing = listing;
  parameter = λ d name. if d == 98 then some d else none;
  value = λ q len. if leb 4 len then some (q ∷ 0 ∷ 0 ∷ 0 ∷ []) else none;
  has = λ d name q w h. ground arith;
  has_not = λ d name w h. ground arith;
  gives = λ q len bytes w h. ground arith;
  gives_not = λ q len w h. ground arith;
}

abbrev pub service_keeps : {W V : Type 0} (view : W → V) → KeepsView (service {W = W}) view
service_keeps view = record {
  create = λ w. refl;
  init = λ h e w. refl;
  element = λ h e w. refl;
  increment = λ h e w. refl;
  parameter = λ h d name w. refl;
  value = λ h q len w. refl;
}

-- "abcdef" is cut to "abc".
initialize_name_lem_example :
    (length (initialize_name 4 (97 ∷ 98 ∷ 99 ∷ 100 ∷ 101 ∷ 102 ∷ [])) ≡ 4)
    × (c_string (initialize_name 4 (97 ∷ 98 ∷ 99 ∷ 100 ∷ 101 ∷ 102 ∷ [])) ≡ 97 ∷ 98 ∷ 99 ∷ [])
initialize_name_lem_example = initialize_name_lem 3 (97 ∷ 98 ∷ 99 ∷ 100 ∷ 101 ∷ 102 ∷ []) (
  (λ e. omega arith),
  (
    (λ e. omega arith),
    ((λ e. omega arith), ((λ e. omega arith), ((λ e. omega arith), ((λ e. omega arith), tt)))),
  ),
)

compare-initialize_name_iff_example :
    (compare_domain_name os_errors 3
        (initialize_name 3 (97 ∷ 98 ∷ 99 ∷ []))
        (initialize_name 3 (97 ∷ 98 ∷ []))
      ≡ os_success)
    ↔ (take {A = ℕ} 2 (97 ∷ 98 ∷ 99 ∷ []) ≡ take {A = ℕ} 2 (97 ∷ 98 ∷ []))
compare-initialize_name_iff_example =
    compare-initialize_name_iff os_errors 2 (97 ∷ 98 ∷ 99 ∷ []) (97 ∷ 98 ∷ []) are_errors
      ((λ e. omega arith), ((λ e. omega arith), ((λ e. omega arith), tt)))
      ((λ e. omega arith), ((λ e. omega arith), tt))

get_config_parameter-setting_example :
    (rc : ℤ) × (w' : World) × (get_config_parameter os_errors service 3 0
        (98 ∷ [])
        (112 ∷ [])
        8
        (world [] [])
      ≡ ok (rc, setting os_errors (service {W = World}) 0 contents (98 ∷ []) (112 ∷ []) 8, w'))
    × IsAnswer os_errors
        (service {W = World})
        rc
        (setting os_errors (service {W = World}) 0 contents (98 ∷ []) (112 ∷ []) 8)
    × (w'.log ≡ [])
get_config_parameter-setting_example =
    get_config_parameter-setting os_errors service 0 contents (λ w. w.log)
      (service_keeps (λ w. w.log)) 3 (98 ∷ []) (112 ∷ []) 8 (world [] []) are_errors (omega arith)
