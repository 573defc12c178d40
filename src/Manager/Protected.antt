-- ===== src/Manager/Protected.antt =====
-- How the servers of the process are protected.
use solr_collections_operato.Base.{
  ◌≡◌, ap, ◌∙◌, Bool, true, false, none, some, List, [], ◌∷◌, arith, if◌then◌else◌,
}
use mathlib.Core.Option.{get_or}
use solr_collections_operato.Manager.{
  CommandLine, ManagerOptions, parse_flags, bool_var, Flags, TlsConfig, TlsOption,
  with_authentication_and_authorization, disable_http2, tls_opts, webhook_options, served_metrics,
  metrics_options, manager_options,
}

-- A server applies its TLS options one after the other.
abbrev pub configured : {R : Type 0} → List (TlsOption R) → TlsConfig R → TlsConfig R
configured [] c = c
configured (option ∷ options) c = configured options (option c)

-- With HTTP/2 both servers keep the protocols of the configuration `c` that they are made from; without
-- it they offer http/1.1 only. The metrics are served by HTTPS and behind the filter, or neither.
pub record IsProtected (R : Type 0) (c : TlsConfig R) (is_http2 is_secure : Bool)
    (options : ManagerOptions R) : Type 0 where
  pub metrics_protos :
      configured options.metrics.tls_opts c
      ≡ (if is_http2 then c else record c { next_protos = "http/1.1" ∷ [] })
  pub webhook_protos :
      configured options.webhook_server.tls_opts c
      ≡ (if is_http2 then c else record c { next_protos = "http/1.1" ∷ [] })
  pub secure : options.metrics.secure_serving ≡ is_secure
  pub filtered :
      options.metrics.filter_provider
      ≡ (if is_secure then some with_authentication_and_authorization else none)

module _ (R : Type 0) (flags : Flags) where
  tls_opts-webhook : (webhook_options {R = R} flags).tls_opts ≡ tls_opts flags
  unfolding webhook_options
  tls_opts-webhook = ground arith

  tls_opts-metrics : (metrics_options {R = R} flags).tls_opts ≡ tls_opts flags
  unfolding metrics_options served_metrics
  tls_opts-metrics = ground arith

  filter_provider-metrics :
      (metrics_options {R = R} flags).filter_provider
      ≡ (if flags.secure_metrics then some with_authentication_and_authorization else none)
  unfolding metrics_options served_metrics
  filter_provider-metrics = ground arith

  secure_serving-metrics : (metrics_options {R = R} flags).secure_serving ≡ flags.secure_metrics
  unfolding metrics_options served_metrics
  secure_serving-metrics = ground arith

  tls_opts-configured :
      (c : TlsConfig R)
      → configured (tls_opts flags) c
        ≡ (if flags.enable_http2 then c else record c { next_protos = "http/1.1" ∷ [] })
  unfolding tls_opts disable_http2
  tls_opts-configured c = ground arith

  manager_options-IsProtected :
      (c : TlsConfig R)
      → IsProtected R c flags.enable_http2 flags.secure_metrics (manager_options flags)
  unfolding manager_options
  manager_options-IsProtected c = record {
    metrics_protos =
        ap (λ options. configured options c) (tls_opts-metrics) ∙ tls_opts-configured c;
    webhook_protos =
        ap (λ options. configured options c) (tls_opts-webhook) ∙ tls_opts-configured c;
    secure = secure_serving-metrics;
    filtered = filter_provider-metrics;
  }

-- Whatever the flags on the command line, the certificates included: unless HTTP/2 is enabled,
-- both servers offer http/1.1 only and keep the rest of the TLS configuration that they are
-- made from; if it is enabled, they keep all of it. The metrics are served by HTTPS and behind
-- the authentication filter unless the secure metrics are switched off, and then by neither.
pub parse_flags-IsProtected :
    (R : Type 0) (line : CommandLine) (c : TlsConfig R)
    → IsProtected R c
        (get_or (line.switch "enable-http2") false)
        (get_or (line.switch "metrics-secure") true)
        (manager_options (parse_flags line))
unfolding parse_flags bool_var
parse_flags-IsProtected R line c = manager_options-IsProtected R (parse_flags line) c
