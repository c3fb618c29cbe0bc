-- ===== src/Error.antt =====
-- src/seabolt/src/bolt/error.h: the status codes that the routing and the connection pools use.
use seabolt.Prelude.{ℕ}

abbrev pub success : ℕ
success = 0

abbrev pub interrupted : ℕ
interrupted = 3

abbrev pub connection_reset : ℕ
connection_reset = 4

abbrev pub no_valid_address : ℕ
no_valid_address = 5

abbrev pub timed_out : ℕ
timed_out = 6

abbrev pub permission_denied : ℕ
permission_denied = 7

abbrev pub connection_refused : ℕ
connection_refused = 11

abbrev pub network_unreachable : ℕ
network_unreachable = 12

abbrev pub tls_error : ℕ
tls_error = 13

abbrev pub end_of_transmission : ℕ
end_of_transmission = 15

abbrev pub server_failure : ℕ
server_failure = 16

abbrev pub protocol_violation : ℕ
protocol_violation = 0x500

abbrev pub protocol_unsupported_type : ℕ
protocol_unsupported_type = 0x501

abbrev pub protocol_not_implemented_type : ℕ
protocol_not_implemented_type = 0x502

abbrev pub protocol_unexpected_marker : ℕ
protocol_unexpected_marker = 0x503

abbrev pub protocol_unsupported : ℕ
protocol_unsupported = 0x504

abbrev pub pool_full : ℕ
pool_full = 0x600

abbrev pub pool_acquisition_timed_out : ℕ
pool_acquisition_timed_out = 0x601

abbrev pub address_not_resolved : ℕ
address_not_resolved = 0x700

abbrev pub unable_to_retrieve_routing_table : ℕ
unable_to_retrieve_routing_table = 0x800

abbrev pub no_servers_to_select : ℕ
no_servers_to_select = 0x801

abbrev pub unable_to_construct_pool_for_server : ℕ
unable_to_construct_pool_for_server = 0x802

abbrev pub unable_to_refresh_routing_table : ℕ
unable_to_refresh_routing_table = 0x803

abbrev pub unexpected_discovery_response : ℕ
unexpected_discovery_response = 0x804

abbrev pub connection_has_more_info : ℕ
connection_has_more_info = 0xFFE

abbrev pub status_set : ℕ
status_set = 0xFFF
