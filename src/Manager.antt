-- ===== src/Manager.antt =====
-- cmd/main.go: the flags, the options of the manager and its servers, and the start of the process; with
-- SetupWithManager of internal/controller/solrcollectionset_controller.go. The packages `flag`, `tls` and
-- controller-runtime are parameters.
use mathlib.Core.Option.{get_or}
use solr_collections_operato.Base.{
  ℕ, ◌≡◌, String, Bool, true, false, not, Option, none, some, List, [], ◌∷◌, ◌++◌, ◌==◌,
  if◌then◌else◌,
}
pub mod Protected
pub mod Started

-- The variables that the flags set.
pub record Flags : Type 0 where
  pub metrics_addr : String
  pub metrics_cert_path : String
  pub metrics_cert_name : String
  pub metrics_cert_key : String
  pub webhook_cert_path : String
  pub webhook_cert_name : String
  pub webhook_cert_key : String
  pub enable_leader_election : Bool
  pub probe_addr : String
  pub secure_metrics : Bool
  pub enable_http2 : Bool

-- What package `flag` reads from the command line under the name of a flag, where it is given.
pub record CommandLine : Type 0 where
  pub text : String → Option String
  pub switch : String → Option Bool

-- flag.StringVar and flag.BoolVar: the default stands where the flag is not given.
unfoldable pub string_var : CommandLine → String → String → String
string_var line name default = get_or (line.text name) default

unfoldable pub bool_var : CommandLine → String → Bool → Bool
bool_var line name default = get_or (line.switch name) default

unfoldable pub parse_flags : CommandLine → Flags
unfolding string_var bool_var
parse_flags line = record {
  metrics_addr = string_var line "metrics-bind-address" "0";
  metrics_cert_path = string_var line "metrics-cert-path" "";
  metrics_cert_name = string_var line "metrics-cert-name" "tls.crt";
  metrics_cert_key = string_var line "metrics-cert-key" "tls.key";
  webhook_cert_path = string_var line "webhook-cert-path" "";
  webhook_cert_name = string_var line "webhook-cert-name" "tls.crt";
  webhook_cert_key = string_var line "webhook-cert-key" "tls.key";
  enable_leader_election = bool_var line "leader-elect" false;
  probe_addr = string_var line "health-probe-bind-address" ":8081";
  secure_metrics = bool_var line "metrics-secure" true;
  enable_http2 = bool_var line "enable-http2" false;
}

-- A tls.Config: the protocols that it offers, and what main.go does not read or write.
pub record TlsConfig (R : Type 0) : Type 0 where
  pub next_protos : List String
  pub rest : R

abbrev pub TlsOption : Type 0 → Type 0
TlsOption R = TlsConfig R → TlsConfig R

-- The library function that protects the endpoint of the metrics.
pub data FilterProvider : Type 0 where
  with_authentication_and_authorization : FilterProvider

pub record WebhookOptions (R : Type 0) : Type 0 where
  pub tls_opts : List (TlsOption R)
  pub cert_dir : String
  pub cert_name : String
  pub key_name : String

pub record MetricsOptions (R : Type 0) : Type 0 where
  pub bind_address : String
  pub secure_serving : Bool
  pub tls_opts : List (TlsOption R)
  pub filter_provider : Option FilterProvider
  pub cert_dir : String
  pub cert_name : String
  pub key_name : String

pub record ManagerOptions (R : Type 0) : Type 0 where
  pub metrics : MetricsOptions R
  pub webhook_server : WebhookOptions R
  pub health_probe_bind_address : String
  pub leader_election : Bool
  pub leader_election_id : String

module _ {R : Type 0} where
  unfoldable pub disable_http2 : TlsOption R
  disable_http2 c = record c { next_protos = "http/1.1" ∷ [] }

  unfoldable pub tls_opts : Flags → List (TlsOption R)
  unfolding disable_http2
  tls_opts flags = if not flags.enable_http2 then disable_http2 ∷ [] else []

  unfoldable pub webhook_options : Flags → WebhookOptions R
  unfolding tls_opts
  webhook_options flags =
      let options : WebhookOptions R = record {
        tls_opts = tls_opts flags;
        cert_dir = "";
        cert_name = "";
        key_name = "";
      } in
      if not (flags.webhook_cert_path == "")
      then record options {
        cert_dir = flags.webhook_cert_path;
        cert_name = flags.webhook_cert_name;
        key_name = flags.webhook_cert_key;
      }
      else options

  -- The options before the certificate is set.
  unfoldable pub served_metrics : Flags → MetricsOptions R
  unfolding tls_opts
  served_metrics flags =
      let options : MetricsOptions R = record {
        bind_address = flags.metrics_addr;
        secure_serving = flags.secure_metrics;
        tls_opts = tls_opts flags;
        filter_provider = none;
        cert_dir = "";
        cert_name = "";
        key_name = "";
      } in
      if flags.secure_metrics
      then record options { filter_provider = some with_authentication_and_authorization }
      else options

  unfoldable pub metrics_options : Flags → MetricsOptions R
  unfolding served_metrics
  metrics_options flags =
      if not (flags.metrics_cert_path == "")
      then record (served_metrics flags) {
        cert_dir = flags.metrics_cert_path;
        cert_name = flags.metrics_cert_name;
        key_name = flags.metrics_cert_key;
      }
      else served_metrics flags

  unfoldable pub manager_options : Flags → ManagerOptions R
  unfolding metrics_options webhook_options
  manager_options flags = record {
    metrics = metrics_options flags;
    webhook_server = webhook_options flags;
    health_probe_bind_address = flags.probe_addr;
    leader_election = flags.enable_leader_election;
    leader_election_id = "32dfa4a4.solr.sis.uw.edu";
  }

-- The controller that SetupWithManager builds: the kind of the resource, and its name.
pub record ControllerOptions : Type 0 where
  pub for : String
  pub named : String

-- controller-runtime: each call may fail with an error, and changes the state of the process.
pub record Runtime (R : Type 0) : Type 1 where
  pub State : Type 0
  pub get_config : State → Option String × State
  pub new_manager : ManagerOptions R → State → Option String × State
  pub complete : ControllerOptions → State → Option String × State
  pub add_healthz_check : String → State → Option String × State
  pub add_readyz_check : String → State → Option String × State
  pub start : State → Option String × State

module _ {R : Type 0} (M : Runtime R) where
  unfoldable pub setup_with_manager : M.State → Option String × M.State
  setup_with_manager =
      M.complete (record { for = "SolrCollectionSet"; named = "solrcollectionset" })

  -- A call whose error ends the process with status 1.
  unfoldable pub or_exit :
      (M.State → Option String × M.State) → (M.State → ℕ × M.State) → M.State → ℕ × M.State
  or_exit call next s = elim (call s).0 [ none ↦ next (call s).1 | some e ↦ (1, (call s).1) ]

  -- The process from the flags on, with the status that it ends with.
  unfoldable pub main : Flags → M.State → ℕ × M.State
  unfolding manager_options setup_with_manager or_exit
  main flags = or_exit M.get_config (
      or_exit (M.new_manager (manager_options flags)) (
        or_exit setup_with_manager (
          or_exit (M.add_healthz_check "healthz")
            (or_exit (M.add_readyz_check "readyz") (or_exit M.start λ s. (0, s))))))
