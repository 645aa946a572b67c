-- ===== src/Application/Run.antt =====
-- run, ConfigureApplication and HandleInterruptSignal of src/lb/application.cpp: from the command line
-- to the exit code.
use lb.Common.{
  >>=-returned, ok_injective, ℕ, String, Bool, true, false, ◌≡◌, ◌↔◌, refl, sym, ap, arith, ◌∙◌,
  List, Option, none, some, Outcome, ok, throws, undefined, ◌>>=◌, Exception, if◌then◌else◌,
  Bool-cases, inl, inr,
}
use lb.Platform.{Asio, Ctre, Yaml, StdHash, StdSort, LexicalCast, Double}
use lb.Platform.Heap.{PairingHeap}
use lb.Platform.Router.{Router}
use lb.Backend.{Backend}
use lb.ConsistentHash.{backend_traits}
use lb.LeastConnections.{CounterWrapper, connections_compare}
use lb.LeastResponseTime.{AverageTimeWrapper, ema_compare}
use lb.Acceptor.{ListenEndpoint}
use lb.Application.{
  Ending, Sink, Application, application, configure_logging, terminate, run_threads,
}
use lb.Application.Start.{Running, start}
use lb.Application.Configured.{configure_logging-map}
use lb.Application.Threads.{any_failed, run_threads_lem}

-- What boost::program_options made of the command line: whether it has `help`, and `config`, which
-- has a default.
pub record Options : Type 0 where
  pub help : Bool
  pub config : Option String

-- How the process ends: main returns an exit code, std::abort is called, an exception leaves main, or
-- the behaviour is undefined.
pub data Exit : Type 0 where
  exits : ℕ → Exit
  aborted : Exit
  escaped : Exception → Exit
  unspecified : Exit

exits_injective : {m n : ℕ} → exits m ≡ exits n → m ≡ n
exits_injective h = cc

-- Application::GetExitCode
abbrev pub get_exit_code : Application → ℕ
get_exit_code app = app.exit_code

abbrev pub code : List Ending → ℕ
code es = get_exit_code (run_threads es application)

code_lem : (es : List Ending) → code es ≡ (if any_failed es then 1 else 0)
code_lem es = ap get_exit_code (run_threads_lem es)

-- HandleInterruptSignal
unfoldable pub handle_interrupt_signal : Application → Application
unfolding terminate
handle_interrupt_signal app = terminate app

module _ ⦃yaml : Yaml⦄ where
  -- ConfigureApplication, up to the registration of the logger: `load_file` is YAML::LoadFile, and
  -- `open_file` makes the file of a sink.
  unfoldable pub configure_application :
      (String → Outcome yaml.Node)
      → (String → Bool → Outcome (Unit {0}))
      → String
      → Outcome yaml.Node
  unfolding configure_logging
  configure_application load_file open_file config_path = do
    config ← load_file config_path
    sinks ← configure_logging open_file config
    ok config

module _ ⦃asio : Asio⦄ ⦃hash : StdHash⦄ ⦃ctre : Ctre⦄ ⦃lexical : LexicalCast⦄ ⦃sort : StdSort⦄
    ⦃double : Double⦄ ⦃yaml : Yaml⦄ ⦃router : Router Backend backend_traits⦄
    ⦃counts : PairingHeap CounterWrapper connections_compare⦄
    ⦃times : PairingHeap AverageTimeWrapper ema_compare⦄ where
  -- The end of run, where the threads end as `endings` tells of what Start has made.
  abbrev pub finished : (Running → List Ending) → Outcome Running → Exit
  finished endings undefined = unspecified
  finished endings (throws e) = escaped e
  finished endings (ok r) = exits (code (endings r))

  -- app.Start() behind spdlog::register_logger, which throws where the name is taken: then the
  -- handler of ConfigureApplication has a logger for its messages, and calls std::abort.
  abbrev pub registered :
      (ListenEndpoint → Outcome (Unit {0}))
      → ℕ
      → (Running → List Ending)
      → yaml.Node
      → Outcome (Unit {0})
      → Exit
  registered bind hardware endings config undefined = unspecified
  registered bind hardware endings config (throws e) = aborted
  registered bind hardware endings config (ok u) = finished endings (start bind hardware config)

  -- What follows ConfigureApplication. An exception before the registration comes to a handler
  -- whose CRITICAL calls a member of the null pointer that spdlog::get returns.
  abbrev pub started :
      Outcome (Unit {0})
      → (ListenEndpoint → Outcome (Unit {0}))
      → ℕ
      → (Running → List Ending)
      → Outcome yaml.Node
      → Exit
  started register_logger bind hardware endings undefined = unspecified
  started register_logger bind hardware endings (throws e) = unspecified
  started register_logger bind hardware endings (ok config) =
      registered bind hardware endings config register_logger

  -- What run does with the option config.
  abbrev pub with_config :
      (String → Outcome yaml.Node)
      → (String → Bool → Outcome (Unit {0}))
      → Outcome (Unit {0})
      → (ListenEndpoint → Outcome (Unit {0}))
      → ℕ
      → (Running → List Ending)
      → Option String
      → Exit
  with_config load_file open_file register_logger bind hardware endings none = exits 1
  with_config load_file open_file register_logger bind hardware endings (some config_path) =
      started register_logger bind hardware endings
        (configure_application load_file open_file config_path)

  -- run, from the parsed options on.
  unfoldable pub run :
      (String → Outcome yaml.Node)
      → (String → Bool → Outcome (Unit {0}))
      → Outcome (Unit {0})
      → (ListenEndpoint → Outcome (Unit {0}))
      → ℕ
      → (Running → List Ending)
      → Options
      → Exit
  unfolding configure_application start run_threads
  run load_file open_file register_logger bind hardware endings options =
      let served =
        with_config load_file open_file register_logger bind hardware endings options.config in
      if options.help then exits 1 else served

  module _ (load_file : String → Outcome yaml.Node) (open_file : String → Bool → Outcome (Unit {0}))
      (register_logger : Outcome (Unit {0})) (bind : ListenEndpoint → Outcome (Unit {0}))
      (hardware : ℕ) (endings : Running → List Ending) where
    -- The threads of Start have run and none has failed.
    abbrev pub Served : yaml.Node → Type 1
    Served config =
        (r : Running) × (start bind hardware config ≡ ok r) × (any_failed (endings r) ≡ false)

    -- The configuration of the path was loaded, has a map `logging`, whose sinks were made and
    -- registered, and was served.
    abbrev pub Configured : String → yaml.Node → Type 1
    Configured config_path config =
        (load_file config_path ≡ ok config)
        × (yaml.is_defined (yaml.child config "logging") ≡ true)
        × (yaml.is_map (yaml.child config "logging") ≡ true)
        × ((sinks : List Sink) × (configure_logging open_file config ≡ ok sinks))
        × (register_logger ≡ ok tt)
        × Served config

    -- Everything went well.
    abbrev pub Succeeds : Options → Type 1
    Succeeds options =
        (options.help ≡ false)
        × ((config_path : String) × (options.config ≡ some config_path)
            × ((config : yaml.Node) × Configured config_path config))

    succeeded : (es : List Ending) → exits (code es) ≡ exits 0 → any_failed es ≡ false
    succeeded es h = elim (Bool-cases (any_failed es)) [
      | inl e ↦
          let one : code es ≡ 1 = rw e at (code_lem es) in
          absurd (let no : 1 ≡ 0 = sym one ∙ exits_injective h in omega arith)
      | inr e ↦ e
    ]

    from_finished :
        (o : Outcome Running)
        → finished endings o ≡ exits 0
        → (r : Running) × (o ≡ ok r) × (any_failed (endings r) ≡ false)
    from_finished undefined h = cc
    from_finished (throws e) h = cc
    from_finished (ok r) h = (r, refl, succeeded (endings r) h)

    from_registered :
        (config : yaml.Node) (o : Outcome (Unit {0}))
        → registered bind hardware endings config o ≡ exits 0
        → (o ≡ ok tt) × Served config
    from_registered config undefined h = cc
    from_registered config (throws e) h = cc
    from_registered config (ok tt) h = (refl, from_finished (start bind hardware config) h)

    from_started :
        (o : Outcome yaml.Node)
        → started register_logger bind hardware endings o ≡ exits 0
        → (config : yaml.Node) × (o ≡ ok config) × (register_logger ≡ ok tt) × Served config
    from_started undefined h = cc
    from_started (throws e) h = cc
    from_started (ok config) h =
        let (done, served) = from_registered config register_logger h in
        (config, refl, done, served)

    from_path :
        (o : Option String)
        → with_config load_file open_file register_logger bind hardware endings o ≡ exits 0
        → (config_path : String) × (o ≡ some config_path)
          × ((config : yaml.Node) × Configured config_path config)
    unfolding configure_application
    from_path none h = absurd (let no : 1 ≡ 0 = exits_injective h in omega arith)
    from_path (some path) h =
        let (config, configured, done, served) =
          from_started (configure_application load_file open_file path) h in
        let (loaded_config, loaded, h1) = >>=-returned (load_file path) _ configured in
        let (sinks, made, same) = >>=-returned (configure_logging open_file loaded_config) _ h1 in
        let e : loaded_config ≡ config = ok_injective same in
        let sinks_of : configure_logging open_file config ≡ ok sinks = rw e at made in
        (
          path,
          refl,
          (
            config,
            (
              loaded ∙ ap ok e,
              (configure_logging-map open_file config sinks sinks_of).0,
              (configure_logging-map open_file config sinks sinks_of).1,
              (sinks, sinks_of),
              done,
              served,
            ),
          ),
        )

    -- The process returns EXIT_SUCCESS exactly when no help was asked for, there is a path of a
    -- configuration that was loaded and has a map logging, the sinks of the logger were made and
    -- registered, Start has got its threads to the barrier, and none of them has ended with an
    -- exception.
    pub run-Succeeds :
        (options : Options)
        → (run load_file open_file register_logger bind hardware endings options ≡ exits 0)
          ↔ Succeeds options
    unfolding run configure_application
    run-Succeeds options = (there options.help options.config, back)
      where
        there :
            (help : Bool) (config : Option String)
            → run load_file open_file register_logger bind hardware endings
                (record { help = help; config = config })
              ≡ exits 0
            → Succeeds (record { help = help; config = config })
        there true config h = absurd (let no : 1 ≡ 0 = exits_injective h in omega arith)
        there false config h = (refl, from_path config h)

        back :
            Succeeds options
            → run load_file open_file register_logger bind hardware endings options ≡ exits 0
        back
              (
                no_help,
                (
                  path,
                  named,
                  (config, (loaded, has_logging, is_map, (sinks, made), done, (r, ran, all_well))),
                ),
              ) =
            rw (no_help, named)
              (rw loaded (rw made (rw (done, ran) (ap exits (code_lem (endings r) ∙ rw all_well)))))
