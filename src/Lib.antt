-- ===== src/Lib.antt =====
-- lb2, an HTTP load balancer: what its selectors hand out, and what its sessions do.
--
-- The program accepts a client (src/lb/tcp/acceptor.cpp), asks the selector that the configuration
-- names for a backend (src/lb/tcp/selectors.cpp), connects to it (src/lb/tcp/connector.cpp) and
-- forwards requests and responses (src/lb/tcp/session.cpp). A backend that refuses the connection is
-- excluded from the selector, and another one is asked for.
--
-- Modules and what they model:
--   Common             helpers: Outcome, with exceptions and undefined behaviour as values, Action, a
--                      call on an object that it leaves in a state also where it throws, machine
--                      integers, lists over the native numbers, association lists
--   Platform           what the program takes from libraries, as records that the definitions take as
--                      instance arguments: Boost.Asio addresses, CTRE, yaml-cpp, std::sort, std::hash,
--                      boost::heap::pairing_heap (Platform/Heap), and the router of third_party/pumba
--                      (Platform/Router)
--   Url                src/lb/url.hpp, src/lb/url.cpp: the URL of a text against the groups of the match
--                      and the registered ports (Url/Parts)
--   Backend            class Backend of src/lb/tcp/selectors.hpp and selectors.cpp
--   Endpoints          the loop over the endpoints that the Configure methods share, and what the keys
--                      of an endpoint stand for (Endpoints/Reading)
--   Vectors            what the selectors do with a vector of backends
--   RoundRobin, Weighted, IpHash, ConsistentHash, LeastConnections, LeastResponseTime
--                      the selector of that name of src/lb/tcp/selectors.hpp and selectors.cpp:
--                      SelectBackend is select_backend, ExcludeBackend exclude_backend, Configure
--                      configure
--   Pool               the pool of handles and the heap of the last two, seen as one map
--   Session            class HttpSession of src/lb/tcp/session.hpp and session.cpp
--   Selector           ISelector and DetectSelector of src/lb/tcp/selectors.hpp and selectors.cpp
--   Connector          src/lb/tcp/connector.hpp, src/lb/tcp/connector.cpp: one client, the retries
--                      (Connector/Retry, Connector/AllRefused), the selectors that let them end
--                      (Connector/Promise, Connector/WeightedPromise, Connector/HeapPromise), the
--                      notifications (Connector/Callbacks, Connector/ResponseTimes), the whole
--                      life of a client (Connector/Life), endpoints that are given twice
--                      (Connector/Duplicates) and the time between an exception and the stop
--                      (Connector/Window)
--   Connector/Ledger   the counts of the least-connections selector against what its clients hold
--   Connector/Clients  many clients of one selector on one thread, an event at a time: what they need
--                      of it (Shared), what a handler leaves (Handlers, Totals, Safety), how many
--                      completions they cause (Quiet), and the selectors (OfVectors, OfWeighted,
--                      OfHeaps)
--   Acceptor           src/lb/tcp/acceptor.hpp, src/lb/tcp/acceptor.cpp
--   Application        src/lb/application.hpp, src/lb/application.cpp: Start up to the barrier
--                      (Application/Start), run (Application/Run), and how a client that every
--                      backend refuses ends the process (Application/Refused)
--   Fixtures           concrete stand-ins for the libraries, for the tests
--
-- The selectors' methods hold a mutex from their beginning to their end, so that concurrent calls are
-- a sequence of calls. std::size_t is 64 bits wide, and sums of it are taken modulo size_mod. Loops
-- are structural recursion on the list, or on the number of rounds that are left; create_threads takes
-- rounds as fuel, of which as many as there are threads suffice, and `decimal` writes a number with
-- as many rounds as the number is large, which is more than it has digits. top() of an empty heap, an
-- index out of range and a division by 0 have the outcome undefined.
--
-- LeastConnections/Specification says what that selector promises as a map of counts, without handles
-- and heap.
--
-- Connector/Clients runs on one thread, so that an exception stops the io_context before the next
-- handler; what other threads can do in between is in Connector/Window. A client's remote_endpoint()
-- is taken to return, at each call: that it throws for a client that is gone by then is not modelled.
-- That local_endpoint() throws in the acceptor is (Acceptor/Accepted).
--
-- Not modelled: log output, the usage text, the parsing of the command line, the text of exceptions,
-- the bytes of messages, which are what Boost.Beast parses and writes, memory, the priority of
-- threads, the destruction of an io_context with handlers that have not run, after which a session's
-- destructor calls OnDisconnect once, and the insides of the libraries.
--
-- Of the consistent hash no promise to the connector is stated: what erase leaves of a node whose
-- hashes meet another's is the router's. The order of a heap is taken from the documentation of
-- Boost.Heap, which promises it after decrease only for an element that has become smaller, and after
-- increase only for one that has become greater.
pub mod Common
pub mod Platform
pub mod Url
pub mod Backend
pub mod Endpoints
pub mod Vectors
pub mod RoundRobin
pub mod Weighted
pub mod IpHash
pub mod ConsistentHash
pub mod Pool
pub mod LeastConnections
pub mod LeastResponseTime
pub mod Session
pub mod Acceptor
pub mod Application
pub mod Connector
pub mod Selector
mod Fixtures
