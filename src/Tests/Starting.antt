-- ===== src/Tests/Starting.antt =====
-- The start of the process on a small controller-runtime.
use solr_collections_operato.Base.{
  ◌≡◌, refl, String, ◌<>◌, true, false, Option, none, some, List, [], ◌∷◌, ◌==◌, if◌then◌else◌,
  String-discrete,
}
use mathlib.Core.Option.{get_or}
use solr_collections_operato.Manager.{
  ManagerOptions, CommandLine, TlsConfig, Runtime, parse_flags, manager_options, metrics_options,
  webhook_options, served_metrics, tls_opts, string_var, bool_var, setup_with_manager, or_exit,
  main,
}
use solr_collections_operato.Manager.Protected.{IsProtected, parse_flags-IsProtected}
use solr_collections_operato.Manager.Started.{IsRequested, Runs, calls, main-Runs}

-- The metrics are served over HTTPS with a certificate of their own.
abbrev line : CommandLine
line = record {
  text = λ name.
      if name == "metrics-bind-address"
      then some ":8443"
      else if name == "metrics-cert-path"
      then some "/certs"
      else none;
  switch = λ name. none;
}

abbrev defaults : TlsConfig String
defaults = record { next_protos = "h2" ∷ "http/1.1" ∷ []; rest = "min" }

parse_flags-IsProtected_example :
    IsProtected String defaults
      (get_or (line.switch "enable-http2") false)
      (get_or (line.switch "metrics-secure") true)
      (manager_options (parse_flags line))
parse_flags-IsProtected_example = parse_flags-IsProtected String line defaults

-- The state lists the calls; the check of the readiness cannot be added.
abbrev noted : String → Option String → List String → Option String × List String
noted call e s = (e, call ∷ s)

abbrev unready : Runtime String
unready = record {
  State = List String;
  get_config = noted "config" none;
  new_manager = λ options. noted ("manager on " <> options.metrics.bind_address) none;
  complete = λ options. noted options.named none;
  add_healthz_check = λ name. noted name none;
  add_readyz_check = λ name. noted name (some "refused");
  start = noted "start" none;
}

stops :
    main unready (parse_flags line) []
    ≡ (1, "readyz" ∷ "healthz" ∷ "solrcollectionset" ∷ "manager on :8443" ∷ "config" ∷ [])
unfolding main or_exit setup_with_manager manager_options metrics_options served_metrics
    webhook_options parse_flags string_var bool_var tls_opts String-discrete
stops = refl

main-Runs_example :
    (options : ManagerOptions String) × IsRequested line options
    × Runs unready
        (calls unready options)
        []
        (main unready (parse_flags line) []).0
        (main unready (parse_flags line) []).1
main-Runs_example = main-Runs unready line []
