-- ===== src/Examples/Loggers.antt =====
-- The theorems on loggers and on the refresher, applied to concrete ones.
use lsd.Common.{
  ℕ, ◌≡◌, ◌≤◌, refl, arith, Bool, true, false, leb, some, List, [], ◌∷◌, ◌++◌, ok, Done,
}
use lsd.Configuration.{plog_info, plog_error}
use lsd.Logger.{Logger, new_logger, stdout_policy}
use lsd.Logger.History.{
  Call, logs, formats, logs_as, sets_flags, sets_paused, run, lines, IsReady, to_stdout, run-lines,
}
use lsd.Refresher.{refreshing_thread}
use lsd.Refresher.Stops.{refreshing_thread-ends}

abbrev a_logger : Logger
a_logger = new_logger "Mon" stdout_policy plog_info

abbrev some_calls : List Call
some_calls =
    logs "12:00:00" "one"
    ∷ formats "12:00:01" plog_error "two"
    ∷ logs_as "12:00:01" plog_error "two again"
    ∷ sets_paused true
    ∷ logs "12:00:02" "three"
    ∷ sets_paused false
    ∷ sets_flags plog_error
    ∷ formats "12:00:03" plog_error "four"
    ∷ []

a_logger-IsReady : IsReady a_logger
unfolding new_logger
a_logger-IsReady = to_stdout refl

run-lines_example :
    ((run some_calls a_logger).0 ≡ ok tt)
    × ((run some_calls a_logger).1.written
        ≡ a_logger.written ++ lines a_logger.flags a_logger.is_paused some_calls)
run-lines_example = run-lines some_calls a_logger a_logger-IsReady

abbrev stops : ℕ → Bool
stops i = leb 4 i

stops-stay : (i j : ℕ) → i ≤ j → stops i ≡ true → stops j ≡ true
stops-stay i j le stopped = ground arith

-- The function counts its calls.
refreshing_thread-ends_example :
    (r : Done × ℕ) × (refreshing_thread stops true (λ n. (ok tt, Prim.Native.Nat.suc n)) 5 0
      ≡ some r)
refreshing_thread-ends_example =
    refreshing_thread-ends stops true (λ n. (ok tt, Prim.Native.Nat.suc n)) stops-stay 4 refl 0
