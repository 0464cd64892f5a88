-- ===== src/NwStack/Addresses.antt =====
-- What NwStackConfigurator.c hands to the network stack, against the contents of the configuration
-- service.
use demo_iot_app_hw.Base.{
  Bool-cases, ℕ, ◌≡◌, ◌<◌, inl, inr, refl, ◌∙◌, Option, none, some, List, [], ◌∷◌, ◌++◌, length,
  false, if◌then◌else◌, ℤ, ◌==ℤ◌, ok, arith,
}
use mathlib.Core.List.{append-nil}
use demo_iot_app_hw.Base.Memory.{overwrite}
use demo_iot_app_hw.Platform.Os.{os_success, OsErrors, AreErrors, ConfigService}
use demo_iot_app_hw.Config.Setting.{Contents, KeepsView, setting}
use demo_iot_app_hw.Config.Contents.{read_into-setting}
use demo_iot_app_hw.NwStack.{
  AddressConfig, NetworkStack, NwStackNames, read_ip_from_config_server, nw_stack_post_init,
}

-- The three arrays have the size of an address.
pub record IsSized {W : Type 0} (stack : NetworkStack W) (cfg : AddressConfig) : Type 0 where
  pub dev : length cfg.dev_addr ≡ stack.address_size
  pub gateway : length cfg.gateway_addr ≡ stack.address_size
  pub mask : length cfg.subnet_mask ≡ stack.address_size

-- The configuration that is asked for, where all three addresses have values.
abbrev pub requested :
    AddressConfig → Option (List ℕ) → Option (List ℕ) → Option (List ℕ) → List AddressConfig
requested cfg (some dev) (some gateway) (some mask) =
    record {
      dev_addr = overwrite cfg.dev_addr 0 dev;
      gateway_addr = overwrite cfg.gateway_addr 0 gateway;
      subnet_mask = overwrite cfg.subnet_mask 0 mask;
    }
    ∷ []
requested cfg (some dev) (some gateway) none = []
requested cfg (some dev) none mask = []
requested cfg none gateway mask = []

module _ {W H E D Q : Type 0} (er : OsErrors) (cs : ConfigService W H E D Q) (handle : H)
    (c : Contents cs handle) (stack : NetworkStack W) (names : NwStackNames) where
  -- The value of a parameter in the domain of the network stack.
  abbrev pub address : List ℕ → Option (List ℕ)
  address name = setting er cs handle c names.domain_nwstack name stack.address_size

module _ {W H E D Q : Type 0} (er : OsErrors) (cs : ConfigService W H E D Q) (handle : H)
    (c : Contents cs handle) (stack : NetworkStack W) (names : NwStackNames)
    (calls : W → List AddressConfig) (keeps : KeepsView cs calls) where
  read_ip-requested :
      (fuel : ℕ) (cfg : AddressConfig) (dev gateway mask : List ℕ) (w : W)
      → AreErrors er
      → length c.listing.domains < fuel
      → IsSized stack cfg
      → (cs.create_handle_remote w).0 ≡ os_success
      → (cs.create_handle_remote w).1 ≡ handle
      → (rc : ℤ) × (cfg' : AddressConfig) × (w' : W) × (read_ip_from_config_server er cs stack names
            fuel cfg dev gateway mask w
          ≡ ok (rc, cfg', w'))
        × (calls w' ≡ calls w)
        × (requested cfg
              (address er cs handle c stack names dev)
              (address er cs handle c stack names gateway)
              (address er cs handle c stack names mask)
            ≡ (if rc ==ℤ os_success then cfg' ∷ [] else []))
  unfolding read_ip_from_config_server
  read_ip-requested fuel cfg dev gateway mask w bad enough sized made same =
      let w0 = (cs.create_handle_remote w).2 in
      let kept = keeps.create w in
      let (rc1, w1, run1, answer1, kept1, _) =
        read_into-setting er cs handle c calls keeps fuel names.domain_nwstack dev
          stack.address_size cfg.dev_addr w0 bad enough sized.dev in
      let (rc2, w2, run2, answer2, kept2, _) =
        read_into-setting er cs handle c calls keeps fuel names.domain_nwstack gateway
          stack.address_size cfg.gateway_addr w1 bad enough sized.gateway in
      let (rc3, w3, run3, answer3, kept3, _) =
        read_into-setting er cs handle c calls keeps fuel names.domain_nwstack mask
          stack.address_size cfg.subnet_mask w2 bad enough sized.mask in
      elim answer1 [
        | inr (failed, missing) ↦
            let no : (rc1 ==ℤ os_success) ≡ false = ground arith in
            (
              rc1,
              cfg,
              w1,
              rw (made, same, run1, missing, no) refl,
              kept1 ∙ kept,
              rw (missing, no) refl,
            )
        | inl (good1, (a, is_a)) ↦ elim answer2 [
          | inr (failed, missing) ↦
              let no : (rc2 ==ℤ os_success) ≡ false = ground arith in
              (
                rc2,
                record cfg { dev_addr = overwrite cfg.dev_addr 0 a },
                w2,
                rw (made, same, run1, is_a, good1, run2, missing, no) refl,
                kept2 ∙ kept1 ∙ kept,
                rw (is_a, missing, no) refl,
              )
          | inl (good2, (b, is_b)) ↦ elim answer3 [
            | inr (failed, missing) ↦
                let no : (rc3 ==ℤ os_success) ≡ false = ground arith in
                (
                  rc3,
                  record cfg {
                    dev_addr = overwrite cfg.dev_addr 0 a;
                    gateway_addr = overwrite cfg.gateway_addr 0 b;
                  },
                  w3,
                  rw (made, same, run1, is_a, good1, run2, is_b, good2, run3, missing) refl,
                  kept3 ∙ kept2 ∙ kept1 ∙ kept,
                  rw (is_a, is_b, missing, no) refl,
                )
            | inl (good3, (m, is_m)) ↦ (
              rc3,
              record {
                dev_addr = overwrite cfg.dev_addr 0 a;
                gateway_addr = overwrite cfg.gateway_addr 0 b;
                subnet_mask = overwrite cfg.subnet_mask 0 m;
              },
              w3,
              rw (made, same, run1, is_a, good1, run2, is_b, good2, run3, is_m) refl,
              kept3 ∙ kept2 ∙ kept1 ∙ kept,
              rw (is_a, is_b, is_m, good3) refl,
            )
          ]
        ]
      ]

  -- The network stack is configured once, with the three addresses of the configuration server at the
  -- front of the arrays, where all three have values; where one has none it is not configured at all.
  -- The component never fails or loops: this needs a handle to the server, arrays of the size of an
  -- address, and a round for each domain and one more.
  pub nw_stack_post_init-requested :
      (fuel : ℕ) (cfg : AddressConfig) (w : W)
      → AreErrors er
      → length c.listing.domains < fuel
      → IsSized stack cfg
      → (cs.create_handle_remote w).0 ≡ os_success
      → (cs.create_handle_remote w).1 ≡ handle
      → ((cfg' : AddressConfig) (w' : W)
          → calls (stack.config_ip_addr cfg' w').1 ≡ calls w' ++ (cfg' ∷ []))
      → (w' : W) × (nw_stack_post_init er cs stack names fuel cfg w ≡ ok w')
        × (calls w'
            ≡ calls w
              ++ requested cfg
                  (address er cs handle c stack names names.eth_addr)
                  (address er cs handle c stack names names.eth_gateway_addr)
                  (address er cs handle c stack names names.eth_subnet_mask))
  unfolding nw_stack_post_init
  nw_stack_post_init-requested fuel cfg w bad enough sized made same logs =
      let (rc, cfg', w', run, kept, asked) =
        read_ip-requested fuel cfg names.eth_addr names.eth_gateway_addr names.eth_subnet_mask w bad
          enough sized made same in
      elim (Bool-cases (rc ==ℤ os_success)) [
        | inl good ↦ (
          (stack.config_ip_addr cfg' w').1,
          rw (run, good) refl,
          logs cfg' w' ∙ rw (asked, good, kept) refl,
        )
        | inr failed ↦
            (w', rw (run, failed) refl, kept ∙ rw (asked, failed, append-nil (calls w)) refl)
      ]
