-- ===== src/NwStack.antt =====
-- components/NwStackConfigurator/NwStackConfigurator.c: the addresses of the network stack come from
-- the configuration server.
pub mod Addresses
use demo_iot_app_hw.Base.{ℕ, List, if◌then◌else◌, ℤ, ◌==ℤ◌, Run, ok, ◌>>=◌}
use demo_iot_app_hw.Config.Into.{read_into}
use demo_iot_app_hw.Platform.Os.{os_success, OsErrors, ConfigService}

-- `OS_NetworkStack_AddressConfig_t`
pub record AddressConfig : Type 0 where
  pub dev_addr : List ℕ
  pub gateway_addr : List ℕ
  pub subnet_mask : List ℕ

-- The network stack: the size of an address array, and `networkStackConfig.configIpAddr`.
pub record NetworkStack (W : Type 0) : Type 0 where
  pub address_size : ℕ
  pub config_ip_addr : AddressConfig → W → ℤ × W

-- The name of the domain and the names of the three parameters.
pub record NwStackNames : Type 0 where
  pub domain_nwstack : List ℕ
  pub eth_addr : List ℕ
  pub eth_gateway_addr : List ℕ
  pub eth_subnet_mask : List ℕ

module _ {W H E D Q : Type 0} (er : OsErrors) (cs : ConfigService W H E D Q)
    (stack : NetworkStack W) (names : NwStackNames) where
  -- `read_ip_from_config_server`: the code and `*ipAddrConfig`.
  unfoldable pub read_ip_from_config_server :
      ℕ → AddressConfig → List ℕ → List ℕ → List ℕ → W → Run (ℤ × AddressConfig × W)
  read_ip_from_config_server fuel cfg dev_name gateway_name mask_name w = do
    let (ret, handle, w0) = cs.create_handle_remote w
    if ret ==ℤ os_success
        then (do
          (ret1, dev, w1) ←
              read_into er cs fuel handle names.domain_nwstack dev_name stack.address_size
                cfg.dev_addr w0
          let cfg1 = record cfg { dev_addr = dev }
          if ret1 ==ℤ os_success
              then (do
                (ret2, gateway, w2) ←
                    read_into er cs fuel handle names.domain_nwstack gateway_name stack.address_size
                      cfg1.gateway_addr w1
                let cfg2 = record cfg1 { gateway_addr = gateway }
                if ret2 ==ℤ os_success
                    then (do
                      (ret3, mask, w3) ←
                          read_into er cs fuel handle names.domain_nwstack mask_name
                            stack.address_size cfg2.subnet_mask w2
                      ok (ret3, record cfg2 { subnet_mask = mask }, w3))
                    else ok (ret2, cfg2, w2))
              else ok (ret1, cfg1, w1))
        else ok (ret, cfg, w0)

  -- `post_init`: `cfg` is what the struct on the stack happens to hold. Errors are only logged.
  unfoldable pub nw_stack_post_init : ℕ → AddressConfig → W → Run W
  nw_stack_post_init fuel cfg w = do
    (ret, cfg', w') ←
        read_ip_from_config_server fuel cfg names.eth_addr names.eth_gateway_addr
          names.eth_subnet_mask w
    ok (if ret ==ℤ os_success then (stack.config_ip_addr cfg' w').1 else w')
