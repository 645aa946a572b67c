-- ===== src/Application.antt =====
-- src/lb/application.hpp and application.cpp: what the configuration means for the acceptor, the
-- thread pool and the logger, and how the threads end.
pub mod Configured
pub mod Threads
pub mod Start
pub mod Run
pub mod Refused
mod Tests
use lb.Common.{
  ℕ, zero, suc, ◌+◌, ◌%◌, String, Bool, true, false, not, ◌||◌, List, [], ◌∷◌, ◌++◌, Outcome, ok,
  throws, ◌>>=◌, ℤ, pos, negsuc, str_eq, ltb, ◌==◌, if◌then◌else◌, size_mod, thread_pool_not_map,
  acceptor_missing, acceptor_not_map, invalid_ip_version, logging_missing, logging_not_map,
  console_not_map, file_not_map, bad_subscript,
}
use lb.Platform.{Yaml}

-- Acceptor::Configuration
pub record Configuration : Type 0 where
  pub port : ℕ
  pub use_ipv6 : Bool

-- The sinks of the logger; the level is the text that spdlog reads.
pub data Sink : Type 0 where
  console_sink : (level pattern : String) → Sink
  file_sink : (name : String) (truncate : Bool) (level pattern : String) → Sink

abbrev pub int_eq : ℤ → ℕ → Bool
int_eq (pos n) k = n == k
int_eq (negsuc n) k = false

module _ ⦃yaml : Yaml⦄ where
  -- What is read where `ip_version` is not defined.
  unfoldable pub read_ip_version : yaml.Node → Outcome Bool
  read_ip_version acceptor_node = do
    version ← yaml.as_int (yaml.child acceptor_node "ip_version")
    if not (int_eq version 4) || not (int_eq version 6)
        then throws (invalid_ip_version version)
        else ok (int_eq version 6)

  -- ConfigFromYAML
  unfoldable pub config_from_yaml : yaml.Node → Outcome Configuration
  unfolding read_ip_version
  config_from_yaml config =
      let acceptor_node = yaml.child config "acceptor" in
      if not (yaml.is_defined acceptor_node)
      then throws acceptor_missing
      else if not (yaml.is_map acceptor_node)
      then throws acceptor_not_map
      else (do
        use_ipv6 ←
            if not (yaml.is_defined (yaml.child acceptor_node "ip_version"))
            then read_ip_version acceptor_node
            else ok false
        port ← yaml.as_unsigned (yaml.child acceptor_node "port")
        ok (record { port = port; use_ipv6 = use_ipv6 }))

  -- The number that `threads_number` gives, or `detected`.
  unfoldable pub read_threads_number : yaml.Node → ℕ → Outcome ℕ
  read_threads_number tp_config detected = do
    text ← yaml.as_string (yaml.child tp_config "threads_number")
    if str_eq text "auto"
        then ok detected
        else if yaml.is_scalar (yaml.child tp_config "threads_number")
        then yaml.as_size (yaml.child tp_config "threads_number")
        else ok detected

  -- ConfigureThreadPool, with boost::thread::hardware_concurrency(), an unsigned.
  unfoldable pub configure_thread_pool : ℕ → yaml.Node → Outcome ℕ
  unfolding read_threads_number
  configure_thread_pool hardware_concurrency config =
      let threads_num = if hardware_concurrency == 0 then 1 else hardware_concurrency in
      let tp_config = yaml.child config "thread_pool" in
      if yaml.is_defined tp_config
      then (if not (yaml.is_map tp_config)
          then throws thread_pool_not_map
          else read_threads_number tp_config threads_num)
      else ok threads_num

  -- A text that has a default.
  abbrev pub text_or : yaml.Node → String → String → Outcome String
  text_or node key fallback =
      if yaml.is_defined (yaml.child node key)
      then yaml.as_string (yaml.child node key)
      else ok fallback

  abbrev pub default_pattern : String
  default_pattern = "[%H:%M:%S][%t][%^%l%$][%s:%#] %v"

  -- The sink of `console`.
  unfoldable pub read_console_sink : yaml.Node → Outcome Sink
  read_console_sink console_node =
      if not (yaml.is_map console_node) then throws console_not_map else (do
        level ← yaml.as_string (yaml.child console_node "level")
        pattern ← text_or console_node "pattern" default_pattern
        ok (console_sink level pattern))

  -- Whether the file is emptied: the key that is tested is misspelt.
  unfoldable pub read_truncate : yaml.Node → Outcome Bool
  read_truncate file_node =
      if yaml.is_defined (yaml.child file_node "trucncate")
      then yaml.as_bool (yaml.child file_node "truncate")
      else ok true

  -- The sink of `file`; `open_file` is what the constructor of spdlog's basic_file_sink does with the
  -- name and the flag, which throws where the file cannot be opened.
  unfoldable pub read_file_sink : (String → Bool → Outcome (Unit {0})) → yaml.Node → Outcome Sink
  unfolding read_truncate
  read_file_sink open_file file_node =
      if not (yaml.is_map file_node) then throws file_not_map else (do
        name ← text_or file_node "name" "logs.txt"
        truncate ← read_truncate file_node
        opened ← open_file name truncate
        level ← yaml.as_string (yaml.child file_node "level")
        pattern ← text_or file_node "pattern" default_pattern
        ok (file_sink name truncate level pattern))

  -- A sink that the configuration may leave out.
  abbrev pub optional : yaml.Node → (yaml.Node → Outcome Sink) → Outcome (List Sink)
  optional node read = if yaml.is_defined node then (do sink ← read node; ok (sink ∷ [])) else ok []

  -- ConfigureLogging, up to the registration: the sinks of the logger.
  unfoldable pub configure_logging :
      (String → Bool → Outcome (Unit {0})) → yaml.Node → Outcome (List Sink)
  unfolding read_console_sink read_file_sink
  configure_logging open_file config =
      let logging_node = yaml.child config "logging" in
      if yaml.is_scalar config
      then throws bad_subscript
      else if not (yaml.is_defined logging_node)
      then throws logging_missing
      else if not (yaml.is_map logging_node)
      then throws logging_not_map
      else (do
        console ← optional (yaml.child logging_node "console") read_console_sink
        file ← optional (yaml.child logging_node "file") (read_file_sink open_file)
        ok (console ++ file))

-- What the threads change of the application: `stopped` tells that the io_context was stopped.
pub record Application : Type 0 where
  pub exit_code : ℕ
  pub stopped : Bool

-- Application::Application
unfoldable pub application : Application
application = record { exit_code = 0; stopped = false }

-- Application::SetExitCode; EXIT_SUCCESS is 0 and EXIT_FAILURE 1.
unfoldable pub set_exit_code : ℕ → Application → Application
set_exit_code code app = if not (code == 0) then record app { exit_code = code } else app

-- Application::Terminate
unfoldable pub terminate : Application → Application
terminate app = record app { stopped = true }

-- How ioc.run() ends.
pub data Ending : Type 0 where
  returned std_exception unknown_exception : Ending

-- ThreadRoutine, from the end of ioc.run().
unfoldable pub thread_routine : Ending → Application → Application
unfolding set_exit_code terminate
thread_routine returned app = set_exit_code 0 app
thread_routine std_exception app = set_exit_code 0 (terminate (set_exit_code 1 app))
thread_routine unknown_exception app = set_exit_code 0 (set_exit_code 1 (terminate app))

-- The threads of Start, in the order in which they end.
unfoldable pub run_threads : List Ending → Application → Application
unfolding thread_routine
run_threads [] app = app
run_threads (e ∷ es) app = run_threads es (thread_routine e app)

-- The loop of Start from `i`, with `fuel` rounds at most: how many threads it creates.
unfoldable pub create_threads : ℕ → ℕ → ℕ → ℕ
create_threads zero i threads_num = 0
create_threads (suc fuel) i threads_num =
    let rest = create_threads fuel ((i + 1) % size_mod) threads_num in
    if ltb ((i + 1) % size_mod) threads_num then suc rest else 0
