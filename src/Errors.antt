-- ===== src/Errors.antt =====
-- mcp_fuzzer/exceptions.py: the exception classes, their base classes, their codes, and the registry
-- of codes.
pub mod Codes
pub mod Tests
use mcp_server_fuzzer.Prelude.Text.{text_lt}
use mcp_server_fuzzer.Prelude.{
  ◌++◌, ℕ, String, Bool, true, false, ◌||◌, List, [], ◌∷◌, Option, none, some, nat_beq, ◌==◌,
  if◌then◌else◌, any,
}

pub data ErrorClass : Type 0 where
  mcp_error transport_error connection_error : ErrorClass
  response_error server_crash_error oversized_response_error : ErrorClass
  authentication_error network_error payload_validation_error : ErrorClass
  transport_registration_error auth_error auth_config_error : ErrorClass
  auth_provider_error timeout_error process_timeout_error : ErrorClass
  request_timeout_error runtime_subsystem_error process_start_error : ErrorClass
  process_stop_error process_signal_error process_registration_error : ErrorClass
  watchdog_start_error safety_violation_error network_policy_violation : ErrorClass
  system_command_violation file_system_violation server_error : ErrorClass
  server_unavailable_error protocol_error cli_error : ErrorClass
  argument_validation_error report_error report_validation_error : ErrorClass
  configuration_error config_file_error validation_error : ErrorClass
  fuzzing_error strategy_error executor_error : ErrorClass

-- The classes in the order of their definition.
abbrev pub error_classes : List ErrorClass
error_classes =
    mcp_error ∷ transport_error ∷ connection_error ∷ response_error ∷ server_crash_error
    ∷ oversized_response_error ∷ authentication_error ∷ network_error ∷ payload_validation_error
    ∷ transport_registration_error ∷ auth_error ∷ auth_config_error ∷ auth_provider_error
    ∷ timeout_error ∷ process_timeout_error ∷ request_timeout_error ∷ runtime_subsystem_error
    ∷ process_start_error ∷ process_stop_error ∷ process_signal_error ∷ process_registration_error
    ∷ watchdog_start_error ∷ safety_violation_error ∷ network_policy_violation
    ∷ system_command_violation ∷ file_system_violation ∷ server_error ∷ server_unavailable_error
    ∷ protocol_error ∷ cli_error ∷ argument_validation_error ∷ report_error
    ∷ report_validation_error ∷ configuration_error ∷ config_file_error ∷ validation_error
    ∷ fuzzing_error ∷ strategy_error ∷ executor_error ∷ []

-- The place of a class in that order.
abbrev pub place : ErrorClass → ℕ
place mcp_error = 0
place transport_error = 1
place connection_error = 2
place response_error = 3
place server_crash_error = 4
place oversized_response_error = 5
place authentication_error = 6
place network_error = 7
place payload_validation_error = 8
place transport_registration_error = 9
place auth_error = 10
place auth_config_error = 11
place auth_provider_error = 12
place timeout_error = 13
place process_timeout_error = 14
place request_timeout_error = 15
place runtime_subsystem_error = 16
place process_start_error = 17
place process_stop_error = 18
place process_signal_error = 19
place process_registration_error = 20
place watchdog_start_error = 21
place safety_violation_error = 22
place network_policy_violation = 23
place system_command_violation = 24
place file_system_violation = 25
place server_error = 26
place server_unavailable_error = 27
place protocol_error = 28
place cli_error = 29
place argument_validation_error = 30
place report_error = 31
place report_validation_error = 32
place configuration_error = 33
place config_file_error = 34
place validation_error = 35
place fuzzing_error = 36
place strategy_error = 37
place executor_error = 38

abbrev pub same_class : ErrorClass → ErrorClass → Bool
same_class a b = nat_beq (place a) (place b)

-- The base class; the base of `MCPError` is `Exception`.
abbrev pub base : ErrorClass → Option ErrorClass
base mcp_error = none
base transport_error = some mcp_error
base connection_error = some transport_error
base response_error = some transport_error
base server_crash_error = some transport_error
base oversized_response_error = some transport_error
base authentication_error = some transport_error
base network_error = some transport_error
base payload_validation_error = some transport_error
base transport_registration_error = some transport_error
base auth_error = some mcp_error
base auth_config_error = some auth_error
base auth_provider_error = some auth_error
base timeout_error = some mcp_error
base process_timeout_error = some timeout_error
base request_timeout_error = some timeout_error
base runtime_subsystem_error = some mcp_error
base process_start_error = some runtime_subsystem_error
base process_stop_error = some runtime_subsystem_error
base process_signal_error = some runtime_subsystem_error
base process_registration_error = some runtime_subsystem_error
base watchdog_start_error = some runtime_subsystem_error
base safety_violation_error = some mcp_error
base network_policy_violation = some safety_violation_error
base system_command_violation = some safety_violation_error
base file_system_violation = some safety_violation_error
base server_error = some mcp_error
base server_unavailable_error = some server_error
base protocol_error = some server_error
base cli_error = some mcp_error
base argument_validation_error = some cli_error
base report_error = some mcp_error
base report_validation_error = some report_error
base configuration_error = some mcp_error
base config_file_error = some configuration_error
base validation_error = some configuration_error
base fuzzing_error = some mcp_error
base strategy_error = some fuzzing_error
base executor_error = some fuzzing_error

abbrev base_of : Option ErrorClass → Option ErrorClass
base_of none = none
base_of (some c) = base c

abbrev is_class : Option ErrorClass → ErrorClass → Bool
is_class none d = false
is_class (some c) d = same_class c d

-- issubclass(c, d): no class stands more than two steps below `MCPError`.
abbrev pub is_subclass : ErrorClass → ErrorClass → Bool
is_subclass c d = same_class c d || (is_class (base c) d || is_class (base_of (base c)) d)

abbrev pub code : ErrorClass → String
code mcp_error = "MCP-000"
code transport_error = "10001"
code connection_error = "10002"
code response_error = "10003"
code server_crash_error = "10004"
code oversized_response_error = "10005"
code authentication_error = "10004"
code network_error = "10005"
code payload_validation_error = "10006"
code transport_registration_error = "10007"
code auth_error = "20001"
code auth_config_error = "20002"
code auth_provider_error = "20003"
code timeout_error = "30001"
code process_timeout_error = "30002"
code request_timeout_error = "30003"
code runtime_subsystem_error = "95001"
code process_start_error = "95002"
code process_stop_error = "95003"
code process_signal_error = "95004"
code process_registration_error = "95005"
code watchdog_start_error = "95006"
code safety_violation_error = "40001"
code network_policy_violation = "40002"
code system_command_violation = "40003"
code file_system_violation = "40004"
code server_error = "50001"
code server_unavailable_error = "50002"
code protocol_error = "50003"
code cli_error = "60001"
code argument_validation_error = "60002"
code report_error = "70001"
code report_validation_error = "70002"
code configuration_error = "80001"
code config_file_error = "80002"
code validation_error = "80003"
code fuzzing_error = "90001"
code strategy_error = "90002"
code executor_error = "90003"

abbrev pub description : ErrorClass → String
description mcp_error = "Generic MCP error"
description transport_error = "Transport failure"
description connection_error = "Unable to establish connection with the server"
description response_error = "Malformed or unexpected server response"
description server_crash_error = "Server process crashed during a request"
description oversized_response_error = "Server returned an oversized response"
description authentication_error = "Authentication with the server failed"
description network_error = "Network connectivity or policy failure"
description payload_validation_error = "Invalid transport payload"
description transport_registration_error = "Transport registration or selection error"
description auth_error = "Authentication subsystem error"
description auth_config_error = "Authentication configuration is invalid"
description auth_provider_error = "Authentication provider is misconfigured"
description timeout_error = "Operation timed out"
description process_timeout_error = "Subprocess execution timed out"
description request_timeout_error = "Network request timed out"
description runtime_subsystem_error = "Runtime management error"
description process_start_error = "Failed to start managed process"
description process_stop_error = "Failed to stop managed process"
description process_signal_error = "Failed to send process signal"
description process_registration_error = "Process registration failed"
description watchdog_start_error = "Process watchdog failed to start"
description safety_violation_error = "Safety policy violated"
description network_policy_violation = "Network access blocked by safety policy"
description system_command_violation = "System command blocked by safety policy"
description file_system_violation = "Filesystem access blocked by safety policy"
description server_error = "Server returned an error"
description server_unavailable_error = "Server is unavailable or not responding"
description protocol_error = "Protocol negotiation failed"
description cli_error = "CLI error"
description argument_validation_error = "Invalid CLI arguments"
description report_error = "Reporting error"
description report_validation_error = "Report validation failed"
description configuration_error = "Configuration error"
description config_file_error = "Configuration file could not be read"
description validation_error = "Configuration validation failed"
description fuzzing_error = "Fuzzing engine error"
description strategy_error = "Fuzzing strategy failed"
description executor_error = "Async executor encountered an error"

abbrev insert_code : ErrorClass → List (String × String) → List (String × String)
insert_code c registry =
    if any (λ entry. entry.0 == code c) registry
    then registry
    else registry ++ (code c, description c) ∷ []

-- The loop over the classes: the first class with a code gives its description.
abbrev registry_from : List (String × String) → List ErrorClass → List (String × String)
registry_from registry [] = registry
registry_from registry (c ∷ cs) = registry_from (insert_code c registry) cs

-- `sorted` on the entries, whose codes differ
insert_sorted : String × String → List (String × String) → List (String × String)
insert_sorted entry [] = entry ∷ []
insert_sorted entry (other ∷ rest) =
    if text_lt entry.0 other.0 then entry ∷ other ∷ rest else other ∷ insert_sorted entry rest

sort_entries : List (String × String) → List (String × String)
unfolding insert_sorted
sort_entries [] = []
sort_entries (entry ∷ rest) = insert_sorted entry (sort_entries rest)

pub get_error_registry : List (String × String)
unfolding sort_entries
get_error_registry = sort_entries (registry_from [] error_classes)
