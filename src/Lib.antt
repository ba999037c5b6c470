-- ===== src/Lib.antt =====
-- The client of the lsd balancer: models of its C++ classes, and theorems about them.
--
-- A client (library/client_impl.cpp) has services; a service (include/details/service.hpp) has
-- hosts and handles; a handle (include/details/handle.hpp) has a cache of messages, a socket to
-- the hosts and a thread. A message goes from the client to its service, from there into the
-- cache of its handle (or into a queue of the service, if there is no such handle), and from the
-- thread of the handle to a host. A reply becomes a response, which the handle passes to the
-- service and the service to a callback. Heartbeats tell a service which hosts and handles exist.
--
-- The files, and what they model; operations keep the names of the source:
--   Common         tests, lists, integers of type `long`, and how calls end
--   OrderedMap     std::map: entries in the order of their keys
--   Structs        include/lsd/structs.hpp
--   TimeValue      library/time_value.cpp, and `elapsed` of library/progress_timer.cpp; what is
--                  proved of its loop is in Distance
--   DataContainer  library/data_container.cpp: values, and the blocks that copies share (Sharing);
--                  proofs are in Comparison, Signing, and Sharing/Counting and Safety
--   Message        library/cached_message.cpp
--   CachedResponse library/cached_response.cpp
--   MessageCache   library/message_cache.cpp; View is an abstract specification of it; proofs
--                  are in Ledger, Index, Conservation, Shedding, Runs, Permitted, Refinement and
--                  Expiry
--   Json           the calls of the JSON library: reading, and in Building what is written
--   Statistics     library/statistics_collector.cpp: state and updates; the values that are sent in
--                  answer to remote requests (Requests), and the thread's handling of one (Remote);
--                  proofs are in Answers
--   Hosts          include/details/host_info.hpp, handle_info.hpp and service_info.hpp
--   Handle         include/details/handle.hpp: State, the wire form of commands (Wire), commands
--                  and connections (Controls), Sending, Receiving and the thread (Loop); proofs
--                  are in Delivery, Drain, Quiet, Answers, Responses, Batches, Resending, Commands,
--                  Sockets and Connected
--   Configuration  library/configuration.cpp: state and settings, one entry of the services (Entry),
--                  their list (Services), the file (Load), and the printed forms (Printed); proofs
--                  are in Listed, Accepted and Loaded
--   Heartbeats     library/http_heartbeats_collector.cpp, and interval_func of
--                  library/curl_hosts_fetcher.cpp: one request (Exchange), what a host answers
--                  (Response), the loop over the hosts (Pings), Validation, and the callback; the
--                  life of a fetcher of hosts (Fetcher); proofs are in Membership, Summary, Own,
--                  Calls and Reports
--   Service        include/details/service.hpp: state and sending, Responses, and Refresh, with what
--                  the thread of a handle that is removed does (Meanwhile); proofs are in
--                  Emptying, Steps, Simulated, Handover and Callbacks
--   Logger         include/details/smart_logger.hpp; proofs are in History
--   Error          include/details/error.hpp, library/error.cpp
--   Refresher      library/refresher.cpp; proofs are in Stops
--   Context        library/context.cpp
--   Client         library/client_impl.cpp: sending, callbacks and hosts; the overloads for texts
--                  (Texts), the life of a client with its context (Opened), and library/client.cpp
--                  (Facade); proofs are in Sizes, Served, Accepting and Composed
--   Examples       concrete objects, to which the theorems are applied
--
-- State is passed explicitly: a method takes the object and returns it, with a result that may be
-- an exception or undefined behaviour (Common/Outcome.antt); what was written before a throw stays
-- written. A method runs as one step, as the mutex of its object has it. The statistics object of
-- the context is shared by all; a caller hands it to the object that it calls.
--
-- `size_t` is a natural number, and sums are taken modulo 2 ^ 64. Arithmetic on `long` does not
-- wrap. The loop of time_value::distance runs on fuel: the magnitude of its microseconds, and each
-- round adds 1000000 of them, so it ends before the fuel does. Doubles, SHA-1, generated uuids and
-- sizeof of the objects are arguments. What ZeroMQ, msgpack and the JSON parser answer comes with
-- each round of a thread.
--
-- The thread of a refresher runs on fuel, one unit for each wait; each wait is followed by two
-- readings of the flag, so the reading at which it is told to stop bounds the waits. What strftime
-- and vsnprintf write is given to the logger, which cuts texts between characters, where the code
-- cuts between bytes.
--
-- While a service removes a handle, the thread of the handle runs on, and takes any steps: its calls
-- on the cache, the responses that it passes on and the statistics that it reports are given for
-- each interval between the calls of the service.
--
-- Not modelled: what the other components write to the log, the JSON library (a copy of jsoncpp), of
-- which the calls are parameters, failing allocations, and what clients send to a handle while it is
-- removed.
pub mod Common
pub mod OrderedMap
pub mod Json
pub mod Structs
pub mod TimeValue
pub mod DataContainer
pub mod Message
pub mod CachedResponse
pub mod MessageCache
pub mod Hosts
pub mod Statistics
pub mod Handle
pub mod Configuration
pub mod Logger
pub mod Error
pub mod Refresher
pub mod Context
pub mod Heartbeats
pub mod Service
pub mod Client
pub mod Examples
