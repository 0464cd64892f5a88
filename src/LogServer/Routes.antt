-- ===== src/LogServer/Routes.antt =====
-- Where the log entries of each component go once `pre_init` of LogServer.c has run.
use demo_iot_app_hw.Base.{◌≡◌, ◌≢◌, ◌⊎◌, inl, inr, refl, ap, ◌∙◌, [], Bool-cases, ◌==ℤ◌, arith}
use demo_iot_app_hw.Platform.Os.{os_success}
use demo_iot_app_hw.Platform.Files.{FileSystem}
use demo_iot_app_hw.Platform.Logging.{
  config_srv, cloud_con, sensor_temp, nic, nw_stack, log_server, config_server_port,
  cloud_connector_port, sensor_port, nw_driver_port, nw_stack_port, buf_log_server, subject,
  subject_log_server, filesystem, console, console_log_server, Logger, TimeServer,
}
use demo_iot_app_hw.LogServer.{
  config_server_name, cloud_connector_name, sensor_temp_name, nic_name, nw_stack_name,
  log_server_name, init_file_system, set_up_outputs, set_up_filters, set_up_consumers, set_up_chain,
  pre_init,
}
use demo_iot_app_hw.LogServer.Logs.{
  Logs, set_outputs, set_level, register, append, attach, IsLogger, routes_of, log_routes,
}

module _ {W F : Type 0} (fs : FileSystem W F) (time : TimeServer W) (log : Logger W F)
    (law : IsLogger fs log) where
  outputs_made : Logs → Logs
  outputs_made logs = attach subject_log_server console_log_server (
      attach subject console (
        attach subject filesystem
          (set_outputs subject_log_server [] (set_outputs subject [] logs))))

  filters_made : Logs → Logs
  filters_made logs = set_level log_server log.level_info (
      set_level nw_stack log.level_info (
        set_level nic log.level_info (
          set_level sensor_temp log.level_info
            (set_level cloud_con log.level_info (set_level config_srv log.level_info logs)))))

  consumers_made : Logs → Logs
  consumers_made logs =
      register log_server
        (record {
          buffer = buf_log_server;
          filter = log_server;
          observed = subject_log_server;
          id = 0;
          name = log_server_name;
        })
        (register nw_stack
          (record {
            buffer = nw_stack_port;
            filter = nw_stack;
            observed = subject;
            id = 50;
            name = nw_stack_name;
          })
          (register nic
            (record {
              buffer = nw_driver_port;
              filter = nic;
              observed = subject;
              id = 40;
              name = nic_name;
            })
            (register sensor_temp
              (record {
                buffer = sensor_port;
                filter = sensor_temp;
                observed = subject;
                id = 30;
                name = sensor_temp_name;
              })
              (register cloud_con
                (record {
                  buffer = cloud_connector_port;
                  filter = cloud_con;
                  observed = subject;
                  id = 20;
                  name = cloud_connector_name;
                })
                (register config_srv
                  (record {
                    buffer = config_server_port;
                    filter = config_srv;
                    observed = subject;
                    id = 10;
                    name = config_server_name;
                  })
                  logs)))))

  chain_made : Logs → Logs
  chain_made logs = append log_server (
      append nw_stack (append nic (append sensor_temp (append cloud_con (append config_srv logs)))))

  set_up_outputs-logs :
      (h : F) (w : W) → law.logs (set_up_outputs fs time log h w) ≡ outputs_made (law.logs w)
  unfolding set_up_outputs outputs_made
  set_up_outputs-logs h w = simp (
    law.subject_attach, law.output_console_ctor, law.output_file_system_ctor, law.file_ctor,
    law.subject_ctor, law.chain_get_instance,
  )

  set_up_filters-logs :
      (w : W) → law.logs (set_up_filters fs time log w) ≡ filters_made (law.logs w)
  unfolding set_up_filters filters_made
  set_up_filters-logs w = simp (law.callback_ctor, law.filter_ctor)

  set_up_consumers-logs :
      (w : W) → law.logs (set_up_consumers fs time log w) ≡ consumers_made (law.logs w)
  unfolding set_up_consumers consumers_made
  set_up_consumers-logs w = simp (law.emitter_get_instance, law.consumer_ctor)

  set_up_chain-logs : (w : W) → law.logs (set_up_chain fs time log w) ≡ chain_made (law.logs w)
  unfolding set_up_chain chain_made
  set_up_chain-logs w = simp (law.file_create, law.chain_append)

  made-routes :
      (logs : Logs)
      → logs.chain ≡ []
      → let made = chain_made (consumers_made (filters_made (outputs_made logs))) in
        routes_of made made.chain ≡ log_routes log.level_info
  unfolding outputs_made filters_made consumers_made chain_made set_outputs set_level register
      append attach
  made-routes logs empty = rw empty refl

  init_file_system-logs : (w : W) → law.logs (init_file_system fs w).2 ≡ law.logs w
  unfolding init_file_system
  init_file_system-logs w =
      let (err, h, w1) = fs.fs_init w in
      let (err', w2) = fs.fs_mount h w1 in
      let kept1 = law.fs_init w in
      let kept2 = law.fs_mount h w1 in let kept3 = law.fs_free h w2 in ground arith

  -- The file system decides. Where `initFileSystem` returns OS_SUCCESS, each of the five clients and the
  -- log server has its own data buffer in the chain, with its id, its name, the level INFO and its
  -- outputs, in this order; where it fails the logger is as it was. The chain is empty before.
  pub pre_init-routes :
      (w : W)
      → (law.logs w).chain ≡ []
      → let code = (init_file_system fs w).0 in
        let logs = law.logs (pre_init fs time log w) in
        ((code ≡ os_success) × (routes_of logs logs.chain ≡ log_routes log.level_info))
        ⊎ ((code ≢ os_success) × (logs ≡ law.logs w))
  unfolding pre_init
  pre_init-routes w empty =
      let (code, h, w1) = init_file_system fs w in
      let w2 = set_up_outputs fs time log h w1 in
      let w3 = set_up_filters fs time log w2 in
      let w4 = set_up_consumers fs time log w3 in
      elim (Bool-cases (code ==ℤ os_success)) [
        | inl good ↦ inl (
          ground arith,
          rw
              (
                good,
                set_up_chain-logs w4,
                set_up_consumers-logs w3,
                set_up_filters-logs w2,
                set_up_outputs-logs h w1,
              )
              (made-routes (law.logs w1) (ap (λ l. l.chain) (init_file_system-logs w) ∙ empty)),
        )
        | inr failed ↦ inr (ground arith, rw failed (init_file_system-logs w))
      ]
