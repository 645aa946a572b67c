-- ===== src/Application/Start.antt =====
-- Application::Start of src/lb/application.cpp, up to the point where the threads run.
use lb.Common.{
  zero, subst, unsigned_mod, In, ℕ, suc, ◌%◌, port_mod, ◌<◌, String, false, ◌≡◌, refl, sym, ap, ◌∙◌,
  Option, none, some, undefined, Outcome, ok, throws, ◌>>=◌, >>=-returned, ok_injective,
  barrier_zero, size_mod, arith, ◌==◌, if◌then◌else◌, Bool-cases, inl, inr,
}
use lb.Platform.{Asio, Ctre, Yaml, StdHash, StdSort, LexicalCast, Double}
use lb.Platform.Heap.{PairingHeap}
use lb.Platform.Router.{Router}
use lb.Backend.{Backend}
use lb.ConsistentHash.{backend_traits}
use lb.LeastConnections.{CounterWrapper, connections_compare}
use lb.LeastResponseTime.{AverageTimeWrapper, ema_compare}
use lb.Selector.{Selector, detect_selector}
use lb.Selector.Detection.{algorithms, detect_selector-kind}
use lb.Acceptor.{ListenEndpoint, acceptor_endpoint}
use lb.Application.{Configuration, config_from_yaml, configure_thread_pool, create_threads}
use lb.Application.Configured.{config_from_yaml_lem}
use lb.Application.Threads.{create_threads_lem}

module _ ⦃asio : Asio⦄ where
  -- The member connector_ptr of the application: none before Application::RegisterConnector.
  pub record Registry : Type 1 where
    pub connector_ptr : Option Selector

  -- Application::RegisterConnector, of the connector of a selector
  unfoldable pub register_connector : Selector → Registry → Registry
  register_connector selector app = record { connector_ptr = some selector }

  -- Application::Connector, as the handler of async_accept calls it
  unfoldable pub connector : Registry → Outcome Selector
  connector app = elim app.connector_ptr [ none ↦ undefined | some selector ↦ ok selector ]

  -- What Start has made before the threads meet at the barrier: `barrier` is how many it waits for,
  -- `threads` how many run ThreadRoutine, the calling one among them.
  pub record Running : Type 1 where
    pub listens : Configuration
    pub selector : Selector
    pub registry : Registry
    pub barrier : ℕ
    pub threads : ℕ

module _ ⦃asio : Asio⦄ ⦃hash : StdHash⦄ ⦃ctre : Ctre⦄ ⦃lexical : LexicalCast⦄ ⦃sort : StdSort⦄
    ⦃double : Double⦄ ⦃yaml : Yaml⦄ ⦃router : Router Backend backend_traits⦄
    ⦃counts : PairingHeap CounterWrapper connections_compare⦄
    ⦃times : PairingHeap AverageTimeWrapper ema_compare⦄ where
  -- The pool of `n` threads, a std::size_t: the constructor of boost::barrier takes an unsigned and
  -- throws on 0.
  unfoldable pub start_threads : Configuration → Selector → ℕ → Outcome Running
  unfolding register_connector
  start_threads listens selector n =
      if n % unsigned_mod == 0
      then throws barrier_zero
      else ok (record {
        listens = listens;
        selector = selector;
        registry = register_connector selector (record { connector_ptr = none });
        barrier = n % unsigned_mod;
        threads = suc (create_threads n 0 n);
      })

  -- Application::Start; `bind` is what the constructor of Boost.Asio's acceptor does
  -- with the endpoint.
  unfoldable pub start : (ListenEndpoint → Outcome (Unit {0})) → ℕ → yaml.Node → Outcome Running
  unfolding start_threads acceptor_endpoint
  start bind hardware_concurrency config = do
    listens ← config_from_yaml config
    bound ← bind (acceptor_endpoint listens.port listens.use_ipv6)
    selector ← detect_selector config
    threads_num ← configure_thread_pool hardware_concurrency config
    start_threads listens selector threads_num

  positive : (n : ℕ) → 0 < n % unsigned_mod → 0 < n
  positive zero h = h
  positive (suc n) h = omega arith

  start_threads_lem :
      (listens : Configuration) (selector : Selector) (n : ℕ) (r : Running)
      → start_threads listens selector n ≡ ok r
      → n < size_mod
      → (r.listens ≡ listens)
        × (r.selector ≡ selector)
        × (r.threads ≡ n)
        × (r.barrier ≡ n % unsigned_mod)
        × (0 < r.barrier)
        × (connector r.registry ≡ ok r.selector)
  unfolding start_threads connector register_connector
  start_threads_lem listens selector n r h fits = elim (Bool-cases (n % unsigned_mod == 0)) [
    | inl empty ↦ let thrown : throws barrier_zero ≡ ok r = rw empty at h in cc
    | inr some_asked ↦
        let made = ok_injective (rw some_asked at h) in
        let same : n % unsigned_mod ≡ r.barrier = ap (λ (x : Running). x.barrier) made in
        let left : 0 < n % unsigned_mod = ground arith in
        (
          sym (ap (λ (x : Running). x.listens) made),
          sym (ap (λ (x : Running). x.selector) made),
          sym (ap (λ (x : Running). x.threads) made) ∙ create_threads_lem n (positive n left) fits,
          sym same,
          rw same at left,
          rw (← made) refl,
        )
  ]

  -- Where Start gets to the barrier, with a number of threads that is a std::size_t, the selector
  -- is of the class that has the name of the configuration's algorithm, the acceptor listens on
  -- IPv4 at the port modulo 65536, its handler finds the connector of that selector, and as many
  -- threads as ConfigureThreadPool tells arrive at the barrier. It waits for that number modulo
  -- 2^32, which is not 0: for exactly those threads where the number fits in an unsigned, and for
  -- fewer otherwise.
  pub start_lem :
      (bind : ListenEndpoint → Outcome (Unit {0})) (hardware : ℕ) (config : yaml.Node) (r : Running)
      → start bind hardware config ≡ ok r
      → ((n : ℕ) → configure_thread_pool hardware config ≡ ok n → n < size_mod)
      → (name : String) × (yaml.as_string
            (yaml.child (yaml.child config "load_balancing") "algorithm")
          ≡ ok name)
        × In (name, r.selector.0.kind) algorithms
        × (bind (record { v6 = false; port = r.listens.port % port_mod }) ≡ ok tt)
        × (connector r.registry ≡ ok r.selector)
        × (configure_thread_pool hardware config ≡ ok r.threads)
        × (r.barrier ≡ r.threads % unsigned_mod)
        × (0 < r.barrier)
  unfolding start
  start_lem bind hardware config r h fits =
      let (listens, read, h1) = >>=-returned (config_from_yaml config) _ h in
      let (u, bound, h2) =
        >>=-returned (bind (acceptor_endpoint listens.port listens.use_ipv6)) _ h1 in
      let (selector, detected, h3) = >>=-returned (detect_selector config) _ h2 in
      let (n, counted, h4) = >>=-returned (configure_thread_pool hardware config) _ h3 in
      let (same_listens, same_selector, all, waits, some_wait, found) =
        start_threads_lem listens selector n r h4 (fits n counted) in
      let (name, named, known) = detect_selector-kind config selector detected in
      let v4 = (config_from_yaml_lem config listens read).0 in
      (
        name,
        named,
        subst (λ (x : Selector). In (name, x.0.kind) algorithms) (sym same_selector) known,
        rw same_listens (rw (acceptor_endpoint, v4) at bound),
        found,
        counted ∙ ap ok (sym all),
        waits ∙ ap (λ (m : ℕ). m % unsigned_mod) (sym all),
        some_wait,
      )
