-- ===== src/Client/Opened.antt =====
-- library/client_impl.cpp, its life: the constructor with the context, and the destructor.
use lsd.Common.{String, Result, ok, err, thrown, undefined, throw, Done, Exec}
use lsd.Json.{Json}
use lsd.Configuration.{Texts}
use lsd.Logger.{Logger, log}
use lsd.Context.{System, Context, new_context}
use lsd.Client.{Client, new_client, disconnect}

-- A client with its context; the statistics of the context are the client's `collector`.
pub record Opened (D : Type 0) : Type 0 where
  pub context : Context
  pub client : Client D

module _ {D : Type 0} where
  -- What follows the first message to the log.
  unfoldable pub with_log : Context → Done × Logger → Result (Opened D)
  unfolding new_client
  with_log context (err e, logger) = err e
  with_log context (ok u, logger) = ok (record {
    context = record context { logger = logger };
    client =
        new_client context.config.max_message_cache_size context.config.services_list context.stats;
  })

  -- What follows the context; an exception is caught, and thrown as one of the client.
  unfoldable pub with_context : System → Result Context → Result (Opened D)
  unfolding with_log log
  with_context system (err (thrown type)) = throw
  with_context system (err undefined) = err undefined
  with_context system (ok context) =
      with_log context (log system.time "client created." context.logger)

  -- client_impl::client_impl
  unfoldable pub open_client : Json → Texts → System → String → Result (Opened D)
  unfolding new_context with_context
  open_client j texts system config_path =
      with_context system (new_context j texts system config_path)

  abbrev logged : Opened D → Done × Logger → Done × Opened D
  logged o (r, logger) = (r, record o { context = record o.context { logger = logger } })

  -- client_impl::~client_impl, which throws what disconnect throws.
  unfoldable pub close_client : (time : String) → Exec (Opened D) (Unit {0})
  unfolding disconnect log
  close_client time o = elim (disconnect o.client).0 [
    | err e ↦ (err e, o)
    | ok u ↦ logged o (log time "client destroyed." o.context.logger)
  ]
