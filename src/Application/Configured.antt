-- ===== src/Application/Configured.antt =====
-- What a configuration can and cannot ask for.
use lb.Common.{
  String, List, Outcome, ℕ, ◌<◌, ◌≤◌, Bool, true, false, ◌≡◌, sym, ap, ◌∙◌, ok, throws,
  >>=-returned, ok_injective, bad_conversion, Bool-cases, inl, inr, ◌==◌, if◌then◌else◌, arith,
}
use lb.Platform.{Yaml}
use lb.Application.{
  Configuration, Sink, console_sink, file_sink, read_ip_version, config_from_yaml, read_truncate,
  read_file_sink, text_or, configure_logging, default_pattern, read_threads_number,
  configure_thread_pool,
}

module _ ⦃yaml : Yaml⦄ where
  read_ip_version-undefined :
      (node : yaml.Node)
      → yaml.is_defined (yaml.child node "ip_version") ≡ false
      → read_ip_version node ≡ throws bad_conversion
  unfolding read_ip_version
  read_ip_version-undefined node e = rw (yaml.as_int_undefined (yaml.child node "ip_version") e)

  -- Where ConfigFromYAML returns, the configuration has an ip_version, and IPv6 is not used,
  -- whichever version it is; the port is the one of the configuration.
  pub config_from_yaml_lem :
      (config : yaml.Node) (c : Configuration)
      → config_from_yaml config ≡ ok c
      → (c.use_ipv6 ≡ false)
        × (yaml.is_defined (yaml.child (yaml.child config "acceptor") "ip_version") ≡ true)
        × (yaml.as_unsigned (yaml.child (yaml.child config "acceptor") "port") ≡ ok c.port)
  unfolding config_from_yaml
  config_from_yaml_lem config c h =
      let node : yaml.Node = yaml.child config "acceptor" in
      elim (Bool-cases (yaml.is_defined node)) [
        | inr missing ↦ let thrown : throws _ ≡ ok c = rw missing at h in cc
        | inl there ↦ elim (Bool-cases (yaml.is_map node)) [
          | inr no_map ↦ let thrown : throws _ ≡ ok c = rw (there, no_map) at h in cc
          | inl is_map ↦ elim (Bool-cases (yaml.is_defined (yaml.child node "ip_version"))) [
            | inr unset ↦
                let thrown : throws bad_conversion ≡ ok c =
                  rw (there, is_map, unset, read_ip_version-undefined node unset) at h in
                cc
            | inl set ↦
                let (port, read, made) =
                  >>=-returned (yaml.as_unsigned (yaml.child node "port")) _
                    (rw (there, is_map, set) at h) in
                (
                  sym (ap (λ (x : Configuration). x.use_ipv6) (ok_injective made)),
                  set,
                  read ∙ ap (λ (x : Configuration). ok x.port) (ok_injective made),
                )
          ]
        ]
      ]

  -- ConfigureLogging returns only where `logging` is a map.
  pub configure_logging-map :
      (open_file : String → Bool → Outcome (Unit {0})) (config : yaml.Node) (sinks : List Sink)
      → configure_logging open_file config ≡ ok sinks
      → (yaml.is_defined (yaml.child config "logging") ≡ true)
        × (yaml.is_map (yaml.child config "logging") ≡ true)
  unfolding configure_logging
  configure_logging-map open_file config sinks h =
      let node : yaml.Node = yaml.child config "logging" in
      elim (Bool-cases (yaml.is_scalar config)) [
        | inl scalar ↦ let thrown : throws _ ≡ ok sinks = rw scalar at h in cc
        | inr no_scalar ↦ elim (Bool-cases (yaml.is_defined node)) [
          | inr missing ↦ let thrown : throws _ ≡ ok sinks = rw (no_scalar, missing) at h in cc
          | inl there ↦ elim (Bool-cases (yaml.is_map node)) [
            | inr no_map ↦
                let thrown : throws _ ≡ ok sinks = rw (no_scalar, there, no_map) at h in cc
            | inl is_map ↦ (there, is_map)
          ]
        ]
      ]

  abbrev pub truncates : Sink → Bool
  truncates (console_sink level pattern) = false
  truncates (file_sink name truncate level pattern) = truncate

  -- A file sink that is read without a key trucncate empties its file, whatever truncate says.
  pub read_file_sink-truncates :
      (open_file : String → Bool → Outcome (Unit {0})) (node : yaml.Node) (sink : Sink)
      → yaml.is_defined (yaml.child node "trucncate") ≡ false
      → read_file_sink open_file node ≡ ok sink
      → truncates sink ≡ true
  unfolding read_file_sink read_truncate
  read_file_sink-truncates open_file node sink unset h = elim (Bool-cases (yaml.is_map node)) [
    | inr no_map ↦ let thrown : throws _ ≡ ok sink = rw no_map at h in cc
    | inl is_map ↦
        let (name, named, h1) = >>=-returned (text_or node "name" "logs.txt") _ (rw is_map at h) in
        let (opened, done, h2) = >>=-returned (open_file name true) _ (rw unset at h1) in
        let (level, leveled, h3) = >>=-returned (yaml.as_string (yaml.child node "level")) _ h2 in
        let (pattern, patterned, made) =
          >>=-returned (text_or node "pattern" default_pattern) _ h3 in
        sym (ap truncates (ok_injective made))
  ]

  -- With a map thread_pool whose threads_number is the text auto, ConfigureThreadPool returns at
  -- least one thread, and at least as many as the machine runs at a time.
  pub configure_thread_pool-auto :
      (hardware : ℕ) (config : yaml.Node)
      → yaml.is_map (yaml.child config "thread_pool") ≡ true
      → yaml.as_string (yaml.child (yaml.child config "thread_pool") "threads_number") ≡ ok "auto"
      → (threads : ℕ) × (configure_thread_pool hardware config ≡ ok threads)
        × (0 < threads)
        × (hardware ≤ threads)
  unfolding configure_thread_pool read_threads_number
  configure_thread_pool-auto hardware config is_map auto =
      let tp : yaml.Node = yaml.child config "thread_pool" in
      let n : ℕ = if hardware == 0 then 1 else hardware in
      let some_threads : 0 < n = ground arith in
      let enough : hardware ≤ n = ground arith in
      elim (Bool-cases (yaml.is_defined tp)) [
        | inl there ↦ (n, rw (there, is_map, auto), some_threads, enough)
        | inr missing ↦ (n, rw missing, some_threads, enough)
      ]
