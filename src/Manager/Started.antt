-- ===== src/Manager/Started.antt =====
-- How the process starts and ends.
use solr_collections_operato.Base.{
  false, arith, ==→≡, ◌==◌, if◌then◌else◌, ℕ, ◌≡◌, refl, String, Option, none, some, List, [], ◌∷◌,
  Option-cases, inl, inr,
}
use solr_collections_operato.Base.Exec.{is-pair}
use mathlib.Core.Option.{get_or}
use solr_collections_operato.Manager.{
  CommandLine, ManagerOptions, parse_flags, metrics_options, served_metrics, webhook_options,
  string_var, bool_var, Flags, manager_options, Runtime, setup_with_manager, or_exit, main,
}

-- A value from a certificate's flags, where its directory is given.
abbrev pub with_certificate : CommandLine → String → String → String
with_certificate line path value = if get_or (line.text path) "" == "" then "" else value

-- What the command line says of the manager and its servers, with the defaults of the flags.
pub record IsRequested {R : Type 0} (line : CommandLine) (options : ManagerOptions R) : Type 0 where
  pub probes :
      options.health_probe_bind_address ≡ get_or (line.text "health-probe-bind-address") ":8081"
  pub elects : options.leader_election ≡ get_or (line.switch "leader-elect") false
  pub election : options.leader_election_id ≡ "32dfa4a4.solr.sis.uw.edu"
  pub address : options.metrics.bind_address ≡ get_or (line.text "metrics-bind-address") "0"
  pub metrics_dir : options.metrics.cert_dir ≡ get_or (line.text "metrics-cert-path") ""
  pub metrics_name :
      options.metrics.cert_name
      ≡ with_certificate line "metrics-cert-path" (get_or (line.text "metrics-cert-name") "tls.crt")
  pub metrics_key :
      options.metrics.key_name
      ≡ with_certificate line "metrics-cert-path" (get_or (line.text "metrics-cert-key") "tls.key")
  pub webhook_dir : options.webhook_server.cert_dir ≡ get_or (line.text "webhook-cert-path") ""
  pub webhook_name :
      options.webhook_server.cert_name
      ≡ with_certificate line "webhook-cert-path" (get_or (line.text "webhook-cert-name") "tls.crt")
  pub webhook_key :
      options.webhook_server.key_name
      ≡ with_certificate line "webhook-cert-path" (get_or (line.text "webhook-cert-key") "tls.key")

manager_options-IsRequested :
    {R : Type 0} (line : CommandLine)
    → IsRequested {R = R} line (manager_options (parse_flags line))
unfolding manager_options metrics_options served_metrics webhook_options parse_flags string_var
    bool_var
manager_options-IsRequested line = record {
  probes = refl;
  elects = refl;
  election = refl;
  address = ground arith;
  metrics_dir = ground (arith, ==→≡ (get_or (line.text "metrics-cert-path") "") "");
  metrics_name = ground arith;
  metrics_key = ground arith;
  webhook_dir = ground (arith, ==→≡ (get_or (line.text "webhook-cert-path") "") "");
  webhook_name = ground arith;
  webhook_key = ground arith;
}

module _ {R : Type 0} (M : Runtime R) where
  abbrev pub Call : Type 0
  Call = M.State → Option String × M.State

  -- A process that makes some calls in their order: with the first error it ends with status 1, and
  -- after all of them with status 0.
  pub data Runs : List Call → M.State → ℕ → M.State → Type 0 where
    finished : (s : M.State) → Runs [] s 0 s
    failed :
        (call : Call) (calls : List Call) (s t : M.State) (e : String)
        → call s ≡ (some e, t)
        → Runs (call ∷ calls) s 1 t
    went_on :
        (call : Call) (calls : List Call) (s t u : M.State) (status : ℕ)
        → call s ≡ (none, t)
        → Runs calls t status u
        → Runs (call ∷ calls) s status u

  or_exit-Runs :
      (call : Call) (calls : List Call) (next : M.State → ℕ × M.State)
      → ((s : M.State) → Runs calls s (next s).0 (next s).1)
      → (s : M.State) → Runs (call ∷ calls) s (or_exit M call next s).0 (or_exit M call next s).1
  unfolding or_exit
  or_exit-Runs call calls next rest s = elim (Option-cases (call s).0) [
    | inl e ↦
        rw (e, or_exit)
          (went_on call calls s (call s).1 _ _ (is-pair (call s) e refl) (rest (call s).1))
    | inr (text, e) ↦
        rw (e, or_exit) (failed call calls s (call s).1 text (is-pair (call s) e refl))
  ]

  -- The calls, with the options of the manager.
  abbrev pub calls : ManagerOptions R → List Call
  calls options =
      M.get_config
      ∷ M.new_manager options
      ∷ M.complete (record { for = "SolrCollectionSet"; named = "solrcollectionset" })
      ∷ M.add_healthz_check "healthz"
      ∷ M.add_readyz_check "readyz"
      ∷ M.start
      ∷ []

  main-calls :
      (flags : Flags) (s : M.State)
      → Runs (calls (manager_options flags)) s (main M flags s).0 (main M flags s).1
  unfolding main setup_with_manager
  main-calls flags = or_exit-Runs _ _ _ (
      or_exit-Runs _ _ _ (
        or_exit-Runs _ _ _
          (or_exit-Runs _ _ _ (or_exit-Runs _ _ _ (or_exit-Runs _ _ _ λ s. finished s)))))

  -- The process makes its calls in their order: it reads the cluster's configuration, makes the
  -- manager, sets up the controller of the resource, adds the two checks, and starts the
  -- manager. With the first error it ends with status 1 and makes no further call; with status 0
  -- it ends only after all calls returned no error. The manager is made with the addresses, the
  -- leader election and the certificates that the command line asks for, or with their defaults,
  -- and no certificate where no directory for it is given.
  pub main-Runs :
      (line : CommandLine) (s : M.State)
      → (options : ManagerOptions R) × IsRequested line options
        × Runs (calls options) s (main M (parse_flags line) s).0 (main M (parse_flags line) s).1
  main-Runs line s = (
    manager_options (parse_flags line),
    manager_options-IsRequested line,
    main-calls (parse_flags line) s,
  )
