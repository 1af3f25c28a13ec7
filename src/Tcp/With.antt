-- ===== src/Tcp/With.antt =====
-- tcp_client/types.ts, `REVISIONS`: the first protocol revision with each feature.
use chwire.Prelude.{ℕ}

abbrev pub server_timezone : ℕ
server_timezone = 54058

abbrev pub quota_key_in_client_info : ℕ
quota_key_in_client_info = 54060

abbrev pub server_display_name : ℕ
server_display_name = 54372

abbrev pub version_patch : ℕ
version_patch = 54401

abbrev pub server_logs : ℕ
server_logs = 54406

abbrev pub settings_serialized_as_strings : ℕ
settings_serialized_as_strings = 54429

abbrev pub interserver_secret : ℕ
interserver_secret = 54441

abbrev pub opentelemetry : ℕ
opentelemetry = 54442

abbrev pub distributed_depth : ℕ
distributed_depth = 54448

abbrev pub initial_query_start_time : ℕ
initial_query_start_time = 54449

abbrev pub parallel_replicas : ℕ
parallel_replicas = 54453

abbrev pub custom_serialization : ℕ
custom_serialization = 54454

abbrev pub quota_key : ℕ
quota_key = 54458

abbrev pub parameters : ℕ
parameters = 54459

abbrev pub password_complexity_rules : ℕ
password_complexity_rules = 54461

abbrev pub interserver_secret_v2 : ℕ
interserver_secret_v2 = 54462

abbrev pub chunked_packets : ℕ
chunked_packets = 54470

abbrev pub versioned_parallel_replicas_protocol : ℕ
versioned_parallel_replicas_protocol = 54471

abbrev pub externally_granted_roles : ℕ
externally_granted_roles = 54472

abbrev pub server_settings : ℕ
server_settings = 54474

abbrev pub query_and_line_numbers : ℕ
query_and_line_numbers = 54475

abbrev pub jwt_in_interserver : ℕ
jwt_in_interserver = 54476

abbrev pub query_plan_serialization : ℕ
query_plan_serialization = 54477

abbrev pub versioned_cluster_function_protocol : ℕ
versioned_cluster_function_protocol = 54479
