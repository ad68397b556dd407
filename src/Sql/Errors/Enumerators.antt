-- ===== src/Sql/Errors/Enumerators.antt =====
-- The enumerators of Error in sql/error.hpp, with the constants of mysql/errmsg.h that they are given.
use otservpp.Base.{ℕ, ◌+◌}

pub data Enumerator : Type 0 where
  unknown_error : Enumerator
  socket_create_error : Enumerator
  connection_error : Enumerator
  conn_host_error : Enumerator
  ipsock_error : Enumerator
  unknown_host : Enumerator
  server_gone_error : Enumerator
  version_error : Enumerator
  out_of_memory : Enumerator
  wrong_host_info : Enumerator
  localhost_connection : Enumerator
  tcp_connection : Enumerator
  server_handshake_err : Enumerator
  server_lost : Enumerator
  commands_out_of_sync : Enumerator
  named_pipe_connection : Enumerator
  named_pipe_wait_error : Enumerator
  named_pipe_open_error : Enumerator
  named_pipe_setstate_error : Enumerator
  cant_read_charset : Enumerator
  net_packet_too_large : Enumerator
  embedded_connection : Enumerator
  probe_slave_status : Enumerator
  probe_slave_hosts : Enumerator
  probe_slave_connect : Enumerator
  probe_master_connect : Enumerator
  ssl_connection_error : Enumerator
  malformed_packet : Enumerator
  wrong_license : Enumerator
  null_pointer : Enumerator
  no_prepare_stmt : Enumerator
  params_not_bound : Enumerator
  data_truncated : Enumerator
  no_parameters_exists : Enumerator
  invalid_parameter_no : Enumerator
  invalid_buffer_use : Enumerator
  unsupported_param_type : Enumerator
  shared_memory_connection : Enumerator
  shared_memory_connect_request_error : Enumerator
  shared_memory_connect_answer_error : Enumerator
  shared_memory_connect_file_map_error : Enumerator
  shared_memory_connect_map_error : Enumerator
  shared_memory_file_map_error : Enumerator
  shared_memory_map_error : Enumerator
  shared_memory_event_error : Enumerator
  shared_memory_connect_abandoned_error : Enumerator
  shared_memory_connect_set_error : Enumerator
  conn_unknow_protocol : Enumerator
  invalid_conn_handle : Enumerator
  secure_auth : Enumerator
  fetch_canceled : Enumerator
  no_data : Enumerator
  no_stmt_metadata : Enumerator
  no_result_set : Enumerator
  not_implemented : Enumerator
  bad_field_count : Enumerator
  result_is_too_big : Enumerator

pub data Constant : Type 0 where
  cr_unknown_error : Constant
  cr_socket_create_error : Constant
  cr_connection_error : Constant
  cr_conn_host_error : Constant
  cr_ipsock_error : Constant
  cr_unknown_host : Constant
  cr_server_gone_error : Constant
  cr_version_error : Constant
  cr_out_of_memory : Constant
  cr_wrong_host_info : Constant
  cr_localhost_connection : Constant
  cr_tcp_connection : Constant
  cr_server_handshake_err : Constant
  cr_server_lost : Constant
  cr_commands_out_of_sync : Constant
  cr_namedpipe_connection : Constant
  cr_namedpipewait_error : Constant
  cr_namedpipeopen_error : Constant
  cr_namedpipesetstate_error : Constant
  cr_cant_read_charset : Constant
  cr_net_packet_too_large : Constant
  cr_embedded_connection : Constant
  cr_probe_slave_status : Constant
  cr_probe_slave_hosts : Constant
  cr_probe_slave_connect : Constant
  cr_probe_master_connect : Constant
  cr_ssl_connection_error : Constant
  cr_malformed_packet : Constant
  cr_wrong_license : Constant
  cr_null_pointer : Constant
  cr_no_prepare_stmt : Constant
  cr_params_not_bound : Constant
  cr_data_truncated : Constant
  cr_no_parameters_exists : Constant
  cr_invalid_parameter_no : Constant
  cr_invalid_buffer_use : Constant
  cr_unsupported_param_type : Constant
  cr_shared_memory_connection : Constant
  cr_shared_memory_connect_request_error : Constant
  cr_shared_memory_connect_answer_error : Constant
  cr_shared_memory_connect_file_map_error : Constant
  cr_shared_memory_connect_map_error : Constant
  cr_shared_memory_file_map_error : Constant
  cr_shared_memory_map_error : Constant
  cr_shared_memory_event_error : Constant
  cr_shared_memory_connect_abandoned_error : Constant
  cr_shared_memory_connect_set_error : Constant
  cr_conn_unknow_protocol : Constant
  cr_invalid_conn_handle : Constant
  cr_secure_auth : Constant
  cr_fetch_canceled : Constant
  cr_no_data : Constant
  cr_no_stmt_metadata : Constant
  cr_no_result_set : Constant
  cr_not_implemented : Constant

-- What an enumerator is made equal to: a constant, the number behind CR_ERROR_LAST, and, without an
-- initialiser, one more than the enumerator before it.
pub data Initialiser : Type 0 where
  client : Constant → Initialiser
  error_last_plus_one : Initialiser
  one_more : Initialiser

unfoldable pub initialiser : Enumerator → Initialiser
initialiser unknown_error = client cr_unknown_error
initialiser socket_create_error = client cr_socket_create_error
initialiser connection_error = client cr_connection_error
initialiser conn_host_error = client cr_conn_host_error
initialiser ipsock_error = client cr_ipsock_error
initialiser unknown_host = client cr_unknown_host
initialiser server_gone_error = client cr_server_gone_error
initialiser version_error = client cr_version_error
initialiser out_of_memory = client cr_out_of_memory
initialiser wrong_host_info = client cr_wrong_host_info
initialiser localhost_connection = client cr_localhost_connection
initialiser tcp_connection = client cr_tcp_connection
initialiser server_handshake_err = client cr_server_handshake_err
initialiser server_lost = client cr_server_lost
initialiser commands_out_of_sync = client cr_commands_out_of_sync
initialiser named_pipe_connection = client cr_namedpipe_connection
initialiser named_pipe_wait_error = client cr_namedpipewait_error
initialiser named_pipe_open_error = client cr_namedpipeopen_error
initialiser named_pipe_setstate_error = client cr_namedpipesetstate_error
initialiser cant_read_charset = client cr_cant_read_charset
initialiser net_packet_too_large = client cr_net_packet_too_large
initialiser embedded_connection = client cr_embedded_connection
initialiser probe_slave_status = client cr_probe_slave_status
initialiser probe_slave_hosts = client cr_probe_slave_hosts
initialiser probe_slave_connect = client cr_probe_slave_connect
initialiser probe_master_connect = client cr_probe_master_connect
initialiser ssl_connection_error = client cr_ssl_connection_error
initialiser malformed_packet = client cr_malformed_packet
initialiser wrong_license = client cr_wrong_license
initialiser null_pointer = client cr_null_pointer
initialiser no_prepare_stmt = client cr_no_prepare_stmt
initialiser params_not_bound = client cr_params_not_bound
initialiser data_truncated = client cr_data_truncated
initialiser no_parameters_exists = client cr_no_parameters_exists
initialiser invalid_parameter_no = client cr_invalid_parameter_no
initialiser invalid_buffer_use = client cr_invalid_buffer_use
initialiser unsupported_param_type = client cr_unsupported_param_type
initialiser shared_memory_connection = client cr_shared_memory_connection
initialiser shared_memory_connect_request_error = client cr_shared_memory_connect_request_error
initialiser shared_memory_connect_answer_error = client cr_shared_memory_connect_answer_error
initialiser shared_memory_connect_file_map_error = client cr_shared_memory_connect_file_map_error
initialiser shared_memory_connect_map_error = client cr_shared_memory_connect_map_error
initialiser shared_memory_file_map_error = client cr_shared_memory_file_map_error
initialiser shared_memory_map_error = client cr_shared_memory_map_error
initialiser shared_memory_event_error = client cr_shared_memory_event_error
initialiser shared_memory_connect_abandoned_error = client cr_shared_memory_connect_abandoned_error
initialiser shared_memory_connect_set_error = client cr_shared_memory_connect_set_error
initialiser conn_unknow_protocol = client cr_conn_unknow_protocol
initialiser invalid_conn_handle = client cr_invalid_conn_handle
initialiser secure_auth = client cr_secure_auth
initialiser fetch_canceled = client cr_fetch_canceled
initialiser no_data = client cr_no_data
initialiser no_stmt_metadata = client cr_no_stmt_metadata
initialiser no_result_set = client cr_no_result_set
initialiser not_implemented = client cr_not_implemented
initialiser bad_field_count = error_last_plus_one
initialiser result_is_too_big = one_more

-- `constant` is the numbers of errmsg.h, and `error_last` CR_ERROR_LAST.
module _ (constant : Constant → ℕ) (error_last : ℕ) where
  unfoldable pub initial_value : Initialiser → ℕ
  initial_value (client c) = constant c
  initial_value error_last_plus_one = error_last + 1
  initial_value one_more = error_last + 1 + 1

  unfoldable pub value : Enumerator → ℕ
  value e = initial_value (initialiser e)
