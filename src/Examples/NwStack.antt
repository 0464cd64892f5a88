-- ===== src/Examples/NwStack.antt =====
-- Runs of the theorems on components/NwStackConfigurator/NwStackConfigurator.c.
use demo_iot_app_hw.Base.{◌≡◌, refl, List, [], ◌∷◌, ◌++◌, ok, arith}
use demo_iot_app_hw.Platform.Os.{os_success}
use demo_iot_app_hw.NwStack.{AddressConfig, NetworkStack, NwStackNames, nw_stack_post_init}
use demo_iot_app_hw.NwStack.Addresses.{requested, address, nw_stack_post_init-requested}
use demo_iot_app_hw.Examples.Fixture.{os_errors, are_errors}
use demo_iot_app_hw.Examples.Config.{service, contents, service_keeps}

-- The outside is the list of the configurations that the network stack has been given.
abbrev stack : NetworkStack (List AddressConfig)
stack = record { address_size = 4; config_ip_addr = λ cfg w. (os_success, w ++ (cfg ∷ [])) }

abbrev names : NwStackNames
names = record {
  domain_nwstack = 98 ∷ [];
  eth_addr = 1 ∷ [];
  eth_gateway_addr = 2 ∷ [];
  eth_subnet_mask = 3 ∷ [];
}

abbrev blank : AddressConfig
blank = record {
  dev_addr = 1 ∷ 2 ∷ 3 ∷ 4 ∷ [];
  gateway_addr = 5 ∷ 6 ∷ 7 ∷ 8 ∷ [];
  subnet_mask = 0 ∷ 0 ∷ 0 ∷ 0 ∷ [];
}

nw_stack_post_init-requested_example :
    (w' : List AddressConfig) × (nw_stack_post_init os_errors service stack names 3 blank []
      ≡ ok w')
    × (w'
        ≡ requested blank
            (address os_errors service 0 contents stack names (1 ∷ []))
            (address os_errors service 0 contents stack names (2 ∷ []))
            (address os_errors service 0 contents stack names (3 ∷ [])))
nw_stack_post_init-requested_example =
    nw_stack_post_init-requested os_errors service 0 contents stack names (λ w. w)
      (service_keeps (λ w. w)) 3 blank [] are_errors (omega arith)
      (record { dev = refl; gateway = refl; mask = refl }) refl refl (λ cfg w. refl)
