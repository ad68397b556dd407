-- ===== src/Sql/Errors/Distinct.antt =====
-- Each enumerator of sql/error.hpp has a code of its own, where the constants of MySQL have.
use otservpp.Base.{ℕ, ◌≤◌, ◌≡◌, refl, sym, ap, ◌∙◌, arith}
use otservpp.Sql.Mysql
use otservpp.Sql.Errors.{ClientCodes, error_code}
use otservpp.Sql.Errors.Enumerators.{
  Enumerator, Constant, Initialiser, initialiser, initial_value, value, unknown_error,
  socket_create_error, connection_error, conn_host_error, ipsock_error, unknown_host,
  server_gone_error, version_error, out_of_memory, wrong_host_info, localhost_connection,
  tcp_connection, server_handshake_err, server_lost, commands_out_of_sync, named_pipe_connection,
  named_pipe_wait_error, named_pipe_open_error, named_pipe_setstate_error, cant_read_charset,
  net_packet_too_large, embedded_connection, probe_slave_status, probe_slave_hosts,
  probe_slave_connect, probe_master_connect, ssl_connection_error, malformed_packet, wrong_license,
  null_pointer, no_prepare_stmt, params_not_bound, data_truncated, no_parameters_exists,
  invalid_parameter_no, invalid_buffer_use, unsupported_param_type, shared_memory_connection,
  shared_memory_connect_request_error, shared_memory_connect_answer_error,
  shared_memory_connect_file_map_error, shared_memory_connect_map_error,
  shared_memory_file_map_error, shared_memory_map_error, shared_memory_event_error,
  shared_memory_connect_abandoned_error, shared_memory_connect_set_error, conn_unknow_protocol,
  invalid_conn_handle, secure_auth, fetch_canceled, no_data, no_stmt_metadata, no_result_set,
  not_implemented, bad_field_count, result_is_too_big, cr_unknown_error, cr_socket_create_error,
  cr_connection_error, cr_conn_host_error, cr_ipsock_error, cr_unknown_host, cr_server_gone_error,
  cr_version_error, cr_out_of_memory, cr_wrong_host_info, cr_localhost_connection,
  cr_tcp_connection, cr_server_handshake_err, cr_server_lost, cr_commands_out_of_sync,
  cr_namedpipe_connection, cr_namedpipewait_error, cr_namedpipeopen_error,
  cr_namedpipesetstate_error, cr_cant_read_charset, cr_net_packet_too_large, cr_embedded_connection,
  cr_probe_slave_status, cr_probe_slave_hosts, cr_probe_slave_connect, cr_probe_master_connect,
  cr_ssl_connection_error, cr_malformed_packet, cr_wrong_license, cr_null_pointer,
  cr_no_prepare_stmt, cr_params_not_bound, cr_data_truncated, cr_no_parameters_exists,
  cr_invalid_parameter_no, cr_invalid_buffer_use, cr_unsupported_param_type,
  cr_shared_memory_connection, cr_shared_memory_connect_request_error,
  cr_shared_memory_connect_answer_error, cr_shared_memory_connect_file_map_error,
  cr_shared_memory_connect_map_error, cr_shared_memory_file_map_error, cr_shared_memory_map_error,
  cr_shared_memory_event_error, cr_shared_memory_connect_abandoned_error,
  cr_shared_memory_connect_set_error, cr_conn_unknow_protocol, cr_invalid_conn_handle,
  cr_secure_auth, cr_fetch_canceled, cr_no_data, cr_no_stmt_metadata, cr_no_result_set,
  cr_not_implemented, client, error_last_plus_one, one_more,
}

-- The enumerator that is made equal to a constant.
of_constant : Constant → Enumerator
of_constant cr_unknown_error = unknown_error
of_constant cr_socket_create_error = socket_create_error
of_constant cr_connection_error = connection_error
of_constant cr_conn_host_error = conn_host_error
of_constant cr_ipsock_error = ipsock_error
of_constant cr_unknown_host = unknown_host
of_constant cr_server_gone_error = server_gone_error
of_constant cr_version_error = version_error
of_constant cr_out_of_memory = out_of_memory
of_constant cr_wrong_host_info = wrong_host_info
of_constant cr_localhost_connection = localhost_connection
of_constant cr_tcp_connection = tcp_connection
of_constant cr_server_handshake_err = server_handshake_err
of_constant cr_server_lost = server_lost
of_constant cr_commands_out_of_sync = commands_out_of_sync
of_constant cr_namedpipe_connection = named_pipe_connection
of_constant cr_namedpipewait_error = named_pipe_wait_error
of_constant cr_namedpipeopen_error = named_pipe_open_error
of_constant cr_namedpipesetstate_error = named_pipe_setstate_error
of_constant cr_cant_read_charset = cant_read_charset
of_constant cr_net_packet_too_large = net_packet_too_large
of_constant cr_embedded_connection = embedded_connection
of_constant cr_probe_slave_status = probe_slave_status
of_constant cr_probe_slave_hosts = probe_slave_hosts
of_constant cr_probe_slave_connect = probe_slave_connect
of_constant cr_probe_master_connect = probe_master_connect
of_constant cr_ssl_connection_error = ssl_connection_error
of_constant cr_malformed_packet = malformed_packet
of_constant cr_wrong_license = wrong_license
of_constant cr_null_pointer = null_pointer
of_constant cr_no_prepare_stmt = no_prepare_stmt
of_constant cr_params_not_bound = params_not_bound
of_constant cr_data_truncated = data_truncated
of_constant cr_no_parameters_exists = no_parameters_exists
of_constant cr_invalid_parameter_no = invalid_parameter_no
of_constant cr_invalid_buffer_use = invalid_buffer_use
of_constant cr_unsupported_param_type = unsupported_param_type
of_constant cr_shared_memory_connection = shared_memory_connection
of_constant cr_shared_memory_connect_request_error = shared_memory_connect_request_error
of_constant cr_shared_memory_connect_answer_error = shared_memory_connect_answer_error
of_constant cr_shared_memory_connect_file_map_error = shared_memory_connect_file_map_error
of_constant cr_shared_memory_connect_map_error = shared_memory_connect_map_error
of_constant cr_shared_memory_file_map_error = shared_memory_file_map_error
of_constant cr_shared_memory_map_error = shared_memory_map_error
of_constant cr_shared_memory_event_error = shared_memory_event_error
of_constant cr_shared_memory_connect_abandoned_error = shared_memory_connect_abandoned_error
of_constant cr_shared_memory_connect_set_error = shared_memory_connect_set_error
of_constant cr_conn_unknow_protocol = conn_unknow_protocol
of_constant cr_invalid_conn_handle = invalid_conn_handle
of_constant cr_secure_auth = secure_auth
of_constant cr_fetch_canceled = fetch_canceled
of_constant cr_no_data = no_data
of_constant cr_no_stmt_metadata = no_stmt_metadata
of_constant cr_no_result_set = no_result_set
of_constant cr_not_implemented = not_implemented

of_initialiser : Initialiser → Enumerator
of_initialiser (client c) = of_constant c
of_initialiser error_last_plus_one = bad_field_count
of_initialiser one_more = result_is_too_big

of_initialiser-initialiser : (e : Enumerator) → of_initialiser (initialiser e) ≡ e
unfolding initialiser of_constant of_initialiser
of_initialiser-initialiser unknown_error = refl
of_initialiser-initialiser socket_create_error = refl
of_initialiser-initialiser connection_error = refl
of_initialiser-initialiser conn_host_error = refl
of_initialiser-initialiser ipsock_error = refl
of_initialiser-initialiser unknown_host = refl
of_initialiser-initialiser server_gone_error = refl
of_initialiser-initialiser version_error = refl
of_initialiser-initialiser out_of_memory = refl
of_initialiser-initialiser wrong_host_info = refl
of_initialiser-initialiser localhost_connection = refl
of_initialiser-initialiser tcp_connection = refl
of_initialiser-initialiser server_handshake_err = refl
of_initialiser-initialiser server_lost = refl
of_initialiser-initialiser commands_out_of_sync = refl
of_initialiser-initialiser named_pipe_connection = refl
of_initialiser-initialiser named_pipe_wait_error = refl
of_initialiser-initialiser named_pipe_open_error = refl
of_initialiser-initialiser named_pipe_setstate_error = refl
of_initialiser-initialiser cant_read_charset = refl
of_initialiser-initialiser net_packet_too_large = refl
of_initialiser-initialiser embedded_connection = refl
of_initialiser-initialiser probe_slave_status = refl
of_initialiser-initialiser probe_slave_hosts = refl
of_initialiser-initialiser probe_slave_connect = refl
of_initialiser-initialiser probe_master_connect = refl
of_initialiser-initialiser ssl_connection_error = refl
of_initialiser-initialiser malformed_packet = refl
of_initialiser-initialiser wrong_license = refl
of_initialiser-initialiser null_pointer = refl
of_initialiser-initialiser no_prepare_stmt = refl
of_initialiser-initialiser params_not_bound = refl
of_initialiser-initialiser data_truncated = refl
of_initialiser-initialiser no_parameters_exists = refl
of_initialiser-initialiser invalid_parameter_no = refl
of_initialiser-initialiser invalid_buffer_use = refl
of_initialiser-initialiser unsupported_param_type = refl
of_initialiser-initialiser shared_memory_connection = refl
of_initialiser-initialiser shared_memory_connect_request_error = refl
of_initialiser-initialiser shared_memory_connect_answer_error = refl
of_initialiser-initialiser shared_memory_connect_file_map_error = refl
of_initialiser-initialiser shared_memory_connect_map_error = refl
of_initialiser-initialiser shared_memory_file_map_error = refl
of_initialiser-initialiser shared_memory_map_error = refl
of_initialiser-initialiser shared_memory_event_error = refl
of_initialiser-initialiser shared_memory_connect_abandoned_error = refl
of_initialiser-initialiser shared_memory_connect_set_error = refl
of_initialiser-initialiser conn_unknow_protocol = refl
of_initialiser-initialiser invalid_conn_handle = refl
of_initialiser-initialiser secure_auth = refl
of_initialiser-initialiser fetch_canceled = refl
of_initialiser-initialiser no_data = refl
of_initialiser-initialiser no_stmt_metadata = refl
of_initialiser-initialiser no_result_set = refl
of_initialiser-initialiser not_implemented = refl
of_initialiser-initialiser bad_field_count = refl
of_initialiser-initialiser result_is_too_big = refl

initialiser_injective : (e f : Enumerator) → initialiser e ≡ initialiser f → e ≡ f
initialiser_injective e f same =
    sym (of_initialiser-initialiser e) ∙ ap of_initialiser same ∙ of_initialiser-initialiser f

module _ (constant : Constant → ℕ) (error_last : ℕ) where
  -- The errors of the service are posted with the codes of these enumerators.
  pub error_code_lem :
      (c : ClientCodes)
      → c.error_last ≡ error_last
      → c.out_of_memory_code ≡ constant cr_out_of_memory
      → (error_code c Mysql.bad_field_count ≡ value constant error_last bad_field_count)
        × (error_code c Mysql.result_is_too_big ≡ value constant error_last result_is_too_big)
        × (error_code c Mysql.out_of_memory ≡ value constant error_last out_of_memory)
  unfolding error_code value initial_value initialiser
  error_code_lem c last memory = (omega (arith, last), omega (arith, last), memory)

  -- Where the constants are different numbers up to CR_ERROR_LAST.
  module _ (distinct : (c d : Constant) → constant c ≡ constant d → c ≡ d)
      (bounded : (c : Constant) → constant c ≤ error_last) where
    initial_value_injective :
        (a b : Initialiser)
        → initial_value constant error_last a ≡ initial_value constant error_last b
        → a ≡ b
    unfolding initial_value
    initial_value_injective (client c) (client d) e = ap client (distinct c d e)
    initial_value_injective (client c) error_last_plus_one e = absurd (omega (arith, bounded c, e))
    initial_value_injective (client c) one_more e = absurd (omega (arith, bounded c, e))
    initial_value_injective error_last_plus_one (client d) e = absurd (omega (arith, bounded d, e))
    initial_value_injective error_last_plus_one error_last_plus_one e = refl
    initial_value_injective error_last_plus_one one_more e = absurd (omega (arith, e))
    initial_value_injective one_more (client d) e = absurd (omega (arith, bounded d, e))
    initial_value_injective one_more error_last_plus_one e = absurd (omega (arith, e))
    initial_value_injective one_more one_more e = refl

    -- A code tells the enumerator.
    pub value_injective :
        (e f : Enumerator) → value constant error_last e ≡ value constant error_last f → e ≡ f
    unfolding value
    value_injective e f same =
        initialiser_injective e f (initial_value_injective (initialiser e) (initialiser f) same)
