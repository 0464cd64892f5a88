-- ===== src/System.antt =====
-- DemoIotApp.camkes: the Sensor and the CloudConnector, connected. The dataport of the one is that of the
-- other, and the remote call of the sensor runs cloudConnector_rpc_write.
pub mod Replies
pub mod Call
pub mod Forwarding
pub mod OverTls
pub mod Started
pub mod Whole
pub mod Offline
use demo_iot_app_hw.Base.{ℕ, ok, ◌>>=◌}
use demo_iot_app_hw.Platform.{Timers, Paho}
use demo_iot_app_hw.Platform.Os.{OsErrors}
use demo_iot_app_hw.Platform.Camkes.{Semaphore, ManagedBuffer}
use demo_iot_app_hw.Platform.Sensing.{Device, Sensing}
use demo_iot_app_hw.Connector.State.{CcFsm}
use demo_iot_app_hw.Connector.Handlers.{cloud_connector_rpc_write}

module _ {W T M : Type 0} (ts : Timers W T) (p : Paho) (mb : ManagedBuffer M) (sem : Semaphore W)
    (er : OsErrors) (device : Device W) where
  -- What the sensor calls, where the state beside the outside is that of the CloudConnector.
  abbrev pub connected : ℕ → Sensing (CcFsm W T × W)
  connected fuel = record {
    device = record {
      periodic = λ id ns (self, w). let (rc, w') = device.periodic id ns w in (rc, (self, w'));
      notify_wait = λ (self, w). (self, device.notify_wait w);
      port_size = device.port_size;
      put = λ bytes (self, w). (self, device.put bytes w);
    };
    rpc_write = λ (self, w).
        (cloud_connector_rpc_write ts p mb sem er fuel self w >>= λ (rc, self', w').
        ok (rc, (self', w')));
  }
