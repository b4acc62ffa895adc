-- ===== src/SpecGuard.antt =====
-- mcp_fuzzer/spec_guard/helpers.py: the records that the spec checks report, and the specs that
-- they cite.
pub mod Shape
pub mod Resources
pub mod Prompts
pub mod Misc
pub mod Notifications
pub mod Tools
pub mod Content
pub mod Tasks
pub mod Tests
use mcp_server_fuzzer.Prelude.{
  ℕ, String, Bool, true, false, List, [], ◌∷◌, ◌++◌, Option, none, some, ◌==◌, if◌then◌else◌,
  extend_from,
}
use mcp_server_fuzzer.Prelude.Text.{◌+++◌}
use mcp_server_fuzzer.Json.{Value, null, arr, elems}

-- What the checks read from outside: the variable MCP_SPEC_SCHEMA_VERSION when the modules were
-- imported and when the check runs, and `date.fromisoformat` (as a day number, `none` for
-- ValueError).
pub record Env : Type 0 where
  pub import_version : String
  pub version : String
  pub iso_date : String → Option ℕ

-- A URL in which "{version}" stands once, or one without it.
pub data Url : Type 0 where
  template : (before after : String) → Url
  fixed : String → Url

pub record Spec : Type 0 where
  pub spec_id : String
  pub spec_url : Url
  pub experimental : Option Bool

pub record SpecCheck : Type 0 where
  pub id : String
  pub status : String
  pub message : String
  pub spec_id : String
  pub spec_url : String
  pub experimental : Option Bool

-- spec_url.format(version=version)
abbrev pub format : Url → String → String
format (template before after) version = before +++ version +++ after
format (fixed url) version = url

abbrev override : Option String → String → String
override none s = s
override (some new) s = if new == "" then s else new

abbrev override_url : Option Url → Url → Url
override_url none u = u
override_url (some new) u = new

abbrev override_flag : Option Bool → Option Bool → Option Bool
override_flag none b = b
override_flag (some new) b = some new

-- `spec_variant` runs when a module is imported, so it fills in the version of that time.
abbrev pub spec_variant : Env → Spec → Option String → Option Url → Option Bool → Spec
spec_variant env spec id url flag = record {
  spec_id = override id spec.spec_id;
  spec_url = fixed (format (override_url url spec.spec_url) env.import_version);
  experimental = override_flag flag spec.experimental;
}

make_check : Env → String → String → String → Spec → SpecCheck
make_check env status id message spec = record {
  id = id;
  status = status;
  message = message;
  spec_id = spec.spec_id;
  spec_url = format spec.spec_url env.version;
  experimental = spec.experimental;
}

unfoldable pub fail : Env → String → String → Spec → SpecCheck
unfolding make_check
fail env = make_check env "FAIL"

unfoldable pub warn : Env → String → String → Spec → SpecCheck
unfolding make_check
warn env = make_check env "WARN"

-- if found: checks.append(check)
abbrev pub when : Bool → SpecCheck → List SpecCheck
when found check = if found then check ∷ [] else []

-- The checks of a member that must be an array: one report where it is missing, one where it is no
-- array, and else the reports of its items in order.
abbrev pub check_items :
    (missing wrong_type : SpecCheck) → (ℕ → Value → List SpecCheck) → Value → List SpecCheck
check_items missing wrong_type item null = missing ∷ []
check_items missing wrong_type item (arr xs) = extend_from item 0 (elems xs)
check_items missing wrong_type item _ = wrong_type ∷ []

abbrev pub tools_spec : Spec
tools_spec = record {
  spec_id = "MCP-Tools";
  spec_url = template "https://modelcontextprotocol.io/specification/" "/server/tools";
  experimental = none;
}

abbrev pub schema_spec : Spec
schema_spec = record {
  spec_id = "MCP-Schema";
  spec_url = template "https://modelcontextprotocol.io/specification/" "/schema";
  experimental = none;
}

abbrev pub resources_spec : Spec
resources_spec = record {
  spec_id = "MCP-Resources";
  spec_url = template "https://modelcontextprotocol.io/specification/" "/server/resources";
  experimental = none;
}

abbrev pub prompts_spec : Spec
prompts_spec = record {
  spec_id = "MCP-Prompts";
  spec_url = template "https://modelcontextprotocol.io/specification/" "/server/prompts";
  experimental = none;
}

abbrev pub roots_spec : Spec
roots_spec = record {
  spec_id = "MCP-Roots";
  spec_url = template "https://modelcontextprotocol.io/specification/" "/client/roots";
  experimental = some true;
}

abbrev pub sampling_spec : Spec
sampling_spec = record {
  spec_id = "MCP-Sampling";
  spec_url = template "https://modelcontextprotocol.io/specification/" "/client/sampling";
  experimental = some true;
}

abbrev pub elicitation_spec : Spec
elicitation_spec = record {
  spec_id = "MCP-Elicitation";
  spec_url = template "https://modelcontextprotocol.io/specification/" "/client/elicitation";
  experimental = some true;
}

abbrev pub tasks_spec : Spec
tasks_spec = record {
  spec_id = "MCP-Tasks";
  spec_url = template "https://modelcontextprotocol.io/specification/" "/basic/utilities/tasks";
  experimental = some true;
}

abbrev pub completions_spec : Spec
completions_spec = record {
  spec_id = "MCP-Completions";
  spec_url = template "https://modelcontextprotocol.io/specification/" "/server/completions";
  experimental = none;
}

abbrev pub logging_spec : Spec
logging_spec = record {
  spec_id = "MCP-Logging";
  spec_url = template "https://modelcontextprotocol.io/specification/" "/server/utilities/logging";
  experimental = none;
}

abbrev pub sse_spec : Spec
sse_spec = record {
  spec_id = "MCP-SSE";
  spec_url = template "https://modelcontextprotocol.io/specification/" "/basic/transports";
  experimental = none;
}

abbrev pub protocol_spec : Spec
protocol_spec = record {
  spec_id = "MCP-Protocol";
  spec_url = template "https://modelcontextprotocol.io/specification/" "/basic/utilities";
  experimental = none;
}
