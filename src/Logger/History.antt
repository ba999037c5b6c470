-- ===== src/Logger/History.antt =====
-- What a logger writes over its life.
use Prim.Native.String.{◌++◌ as append}
use mathlib.Core.List.{append-nil, append_assoc}
use lsd.Common.{
  ℕ, String, Bool, true, false, ◌≡◌, refl, sym, ◌∙◌, ap, not, ◌&&◌, ◌||◌, List, [], ◌∷◌, ◌++◌,
  if◌then◌else◌, ok, err, throw, Done,
}
use lsd.Configuration.{plog_info}
use lsd.Logger.{
  write_line, Logger, stdout_policy, file_policy, syslog_policy, has_flag, formatted,
  get_message_prefix, policy_log, log, log_format, log_info_format, set_flags, set_paused,
}

tested_twice :
    {A : Type 0} (b : Bool) (x y : A) → (if b then x else if b then x else y) ≡ (if b then x else y)
tested_twice true x y = refl
tested_twice false x y = refl

-- The first test of log_format decides nothing that the policy does not test again.
log_format-policy_log :
    (time : String) (type : ℕ) (text : String) (l : Logger)
    → log_format time type text l ≡ policy_log time type (formatted text) l
unfolding log_format policy_log
log_format-policy_log time type text l =
    tested_twice (not (has_flag l.flags type) || l.is_paused) _ _

-- The calls on a logger.
pub data Call : Type 0 where
  logs : (time : String) → String → Call
  logs_as : (time : String) → ℕ → String → Call
  formats : (time : String) → ℕ → String → Call
  formats_info : (time : String) → String → Call
  sets_flags : ℕ → Call
  sets_paused : Bool → Call

unfoldable pub step : Call → Logger → Done × Logger
step (logs time message) l = log time message l
step (logs_as time type message) l = policy_log time type message l
step (formats time type text) l = log_format time type text l
step (formats_info time text) l = log_info_format time text l
step (sets_flags flags) l = (ok tt, set_flags flags l)
step (sets_paused value) l = (ok tt, set_paused value l)

abbrev after : Done × Logger → (Logger → Done × Logger) → Done × Logger
after (ok u, l) rest = rest l
after (err e, l) rest = (err e, l)

-- Until a call throws.
unfoldable pub run : List Call → Logger → Done × Logger
run [] l = (ok tt, l)
run (call ∷ calls) l = after (step call l) (run calls)

-- The line of a message, if its type is among the flags and the logger is not paused.
unfoldable pub lines_of : ℕ → Bool → (time : String) → ℕ → String → List String
lines_of flags is_paused time type message =
    if has_flag flags type && not is_paused
    then append (get_message_prefix time type flags) (append message "\n") ∷ []
    else []

-- The lines of the messages, under the flags and the pause that were set last.
unfoldable pub lines : ℕ → Bool → List Call → List String
lines flags is_paused [] = []
lines flags is_paused (logs time message ∷ calls) =
    lines_of flags is_paused time plog_info message ++ lines flags is_paused calls
lines flags is_paused (logs_as time type message ∷ calls) =
    lines_of flags is_paused time type message ++ lines flags is_paused calls
lines flags is_paused (formats time type text ∷ calls) =
    lines_of flags is_paused time type (formatted text) ++ lines flags is_paused calls
lines flags is_paused (formats_info time text ∷ calls) =
    lines_of flags is_paused time plog_info (formatted text) ++ lines flags is_paused calls
lines flags is_paused (sets_flags now ∷ calls) = lines now is_paused calls
lines flags is_paused (sets_paused now ∷ calls) = lines flags now calls

-- The logger writes somewhere, and can.
pub data IsReady (l : Logger) : Type 0 where
  to_stdout : l.policy ≡ stdout_policy → IsReady l
  to_file : l.policy ≡ file_policy → l.is_open ≡ true → IsReady l
  to_syslog : l.policy ≡ syslog_policy → IsReady l

abbrev adds : List String → Logger → Logger
adds more l = record l { written = l.written ++ more }

kept_or_written :
    (wanted is_paused : Bool) (l : Logger) (line : String)
    → write_line l.policy line l ≡ (ok tt, adds (line ∷ []) l)
    → (if not wanted || is_paused then (ok tt, l) else write_line l.policy line l)
      ≡ (ok tt, adds (if wanted && not is_paused then line ∷ [] else []) l)
kept_or_written true true l line e =
    ap (λ w. (ok tt, record l { written = w })) (sym (append-nil l.written))
kept_or_written true false l line e = e
kept_or_written false is_paused l line e =
    ap (λ w. (ok tt, record l { written = w })) (sym (append-nil l.written))

write_line-IsReady :
    (line : String) (l : Logger)
    → IsReady l
    → write_line l.policy line l ≡ (ok tt, adds (line ∷ []) l)
unfolding write_line
write_line-IsReady line l (to_stdout e) = ap (λ p. write_line p line l) e
write_line-IsReady line l (to_file e opened) =
    ap (λ p. write_line p line l) e
    ∙ ap (λ (b : Bool). if b then (ok tt, adds (line ∷ []) l) else (throw, l)) opened
write_line-IsReady line l (to_syslog e) = ap (λ p. write_line p line l) e

policy_log-IsReady :
    (time : String) (type : ℕ) (message : String) (l : Logger)
    → IsReady l
    → policy_log time type message l
      ≡ (ok tt, adds (lines_of l.flags l.is_paused time type message) l)
unfolding policy_log lines_of
policy_log-IsReady time type message l ready =
    kept_or_written (has_flag l.flags type) l.is_paused l
      (append (get_message_prefix time type l.flags) (append message "\n"))
      (write_line-IsReady _ l ready)

IsReady-policy :
    (l l' : Logger) → l'.policy ≡ l.policy → l'.is_open ≡ l.is_open → IsReady l → IsReady l'
IsReady-policy l l' same_policy same_open (to_stdout e) = to_stdout (same_policy ∙ e)
IsReady-policy l l' same_policy same_open (to_file e opened) =
    to_file (same_policy ∙ e) (same_open ∙ opened)
IsReady-policy l l' same_policy same_open (to_syslog e) = to_syslog (same_policy ∙ e)

-- What a call adds, and what the others do on the logger that it leaves.
run-step :
    (call : Call) (calls : List Call) (l : Logger) (now : List String) (later : List String)
    → step call l ≡ (ok tt, adds now l)
    → ((run calls (adds now l)).0 ≡ ok tt)
      × ((run calls (adds now l)).1.written ≡ (l.written ++ now) ++ later)
    → ((run (call ∷ calls) l).0 ≡ ok tt)
      × ((run (call ∷ calls) l).1.written ≡ l.written ++ (now ++ later))
unfolding run
run-step call calls l now later e (ends, writes) =
    let same_run = ap (λ p. after p (run calls)) e in
    (
      ap (λ (p : Done × Logger). p.0) same_run ∙ ends,
      ap (λ (p : Done × Logger). p.1.written) same_run ∙ writes ∙ append_assoc l.written now later,
    )

-- Whatever is called on a logger that writes to the output, to syslog or to an open file: no call
-- throws, and what it has written in the end is what it had written and, in order, the lines of the
-- messages that came while it was not paused and their type was among the flags; of a message with
-- a format at most 2046 bytes.
pub run-lines :
    (calls : List Call) (l : Logger)
    → IsReady l
    → ((run calls l).0 ≡ ok tt)
      × ((run calls l).1.written ≡ l.written ++ lines l.flags l.is_paused calls)
unfolding run lines step log log_info_format set_flags set_paused
run-lines [] l ready = (refl, sym (append-nil l.written))
run-lines (logs time message ∷ calls) l ready =
    run-step (logs time message) calls l _ _ (policy_log-IsReady time plog_info message l ready)
      (run-lines calls _ (IsReady-policy l _ refl refl ready))
run-lines (logs_as time type message ∷ calls) l ready =
    run-step (logs_as time type message) calls l _ _ (policy_log-IsReady time type message l ready)
      (run-lines calls _ (IsReady-policy l _ refl refl ready))
run-lines (formats time type text ∷ calls) l ready =
    run-step (formats time type text) calls l _ _
      (log_format-policy_log time type text l
        ∙ policy_log-IsReady time type (formatted text) l ready)
      (run-lines calls _ (IsReady-policy l _ refl refl ready))
run-lines (formats_info time text ∷ calls) l ready =
    run-step (formats_info time text) calls l _ _
      (log_format-policy_log time plog_info text l
        ∙ policy_log-IsReady time plog_info (formatted text) l ready)
      (run-lines calls _ (IsReady-policy l _ refl refl ready))
run-lines (sets_flags flags ∷ calls) l ready =
    run-lines calls (set_flags flags l) (IsReady-policy l _ refl refl ready)
run-lines (sets_paused value ∷ calls) l ready =
    run-lines calls (set_paused value l) (IsReady-policy l _ refl refl ready)
