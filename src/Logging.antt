-- ===== src/Logging.antt =====
-- The log filter of pkg/controllers/support.go: `logSink`, which turns conflict errors into messages
-- of level 1. It is a sink over a sink, so it is built from an interface and fills the same.
pub mod Filter
use codeflare_operator.Base.{
  ℕ, String, Bool, List, [], ◌∷◌, ◌++◌, Option, none, some, if◌then◌else◌,
}

-- What a log call is given beside its message: keys and values, of which the filter adds texts.
-- `Failure` is an error, with what apimachinery's `IsConflict` says of it and its text.
pub record Vocabulary : Type 1 where
  pub Failure : Type 0
  pub is_conflict : Failure → Bool
  pub error_text : Failure → String
  pub Value : Type 0
  pub text : String → Value
  pub RuntimeInfo : Type 0

-- `logr.LogSink`, with the output that it writes to. An error may be nil.
pub record Sinks (v : Vocabulary) (Output : Type 0) : Type 1 where
  pub Sink : Type 0
  pub init : Sink → v.RuntimeInfo → Sink
  pub enabled : Sink → ℕ → Bool
  pub info : Sink → ℕ → String → List v.Value → Output → Output
  pub error : Sink → Option v.Failure → String → List v.Value → Output → Output
  pub with_values : Sink → List v.Value → Sink
  pub with_name : Sink → String → Sink

-- `logSink`
pub record LogSink (Sink : Type 0) : Type 0 where
  pub sink : Sink

module _ {v : Vocabulary} {Output : Type 0} (o : Sinks v Output) where
  -- `Error`: conflicts become messages, with the error's text at the end. A nil error is no conflict.
  unfoldable pub filter_error : o.Sink → Option v.Failure → String → List v.Value → Output → Output
  filter_error sink none msg values out = o.error sink none msg values out
  filter_error sink (some e) msg values out =
      if v.is_conflict e
      then o.info sink 1 msg (values ++ v.text "error" ∷ v.text (v.error_text e) ∷ []) out
      else o.error sink (some e) msg values out

  -- The methods of `logSink`, as a sink.
  abbrev pub filtered : Sinks v Output
  filtered = record {
    Sink = LogSink o.Sink;
    init = λ l info. record { sink = o.init l.sink info };
    enabled = λ l level. o.enabled l.sink level;
    info = λ l level msg values out. o.info l.sink level msg values out;
    error = λ l e msg values out. filter_error l.sink e msg values out;
    with_values = λ l values. record { sink = o.with_values l.sink values };
    with_name = λ l name. record { sink = o.with_name l.sink name };
  }

-- A logger of logr: its sink and its level.
pub record Logger (Sink : Type 0) : Type 0 where
  pub sink : Sink
  pub level : ℕ

-- `FilteredLogger`
unfoldable pub filtered_logger : {Sink : Type 0} → Logger Sink → Logger (LogSink Sink)
filtered_logger logger = record { sink = record { sink = logger.sink }; level = logger.level }
