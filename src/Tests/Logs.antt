-- ===== src/Tests/Logs.antt =====
-- The log filter over a sink that writes lines.
use codeflare_operator.Base.{
  ◌≡◌, refl, String, ◌<>◌, ◌==◌, true, List, [], ◌∷◌, ◌++◌, Option, some, none,
}
use codeflare_operator.Logging.{Vocabulary, Sinks, filtered, filter_error}
use codeflare_operator.Logging.Filter.{
  Entry, informs, fails, adds_name, conflict_as, failure_as, name_as, none_becomes, next_becomes,
  log_all, log_all-filtered,
}

-- An error is its text.
abbrev words : Vocabulary
words = record {
  Failure = String;
  is_conflict = λ e. e == "conflict";
  error_text = λ e. e;
  Value = String;
  text = λ s. s;
  RuntimeInfo = Unit {0};
}

abbrev joined : List String → String
joined [] = ""
joined (s ∷ ss) = " " <> s <> joined ss

abbrev error_line : Option String → String
error_line none = "nil"
error_line (some e) = e

abbrev lines : Sinks words (List String)
lines = record {
  Sink = String;
  init = λ sink info. sink;
  enabled = λ sink level. true;
  info = λ sink level msg values out. out ++ (sink <> "info " <> msg <> joined values) ∷ [];
  error = λ sink e msg values out.
      out ++ (sink <> "error " <> msg <> " " <> error_line e <> joined values) ∷ [];
  with_values = λ sink values. sink;
  with_name = λ sink name. sink <> name <> ": ";
}

abbrev entries : List (Entry words)
entries =
    adds_name "ray"
    ∷ fails (some "conflict") "cannot apply" ("a" ∷ [])
    ∷ fails (some "refused") "cannot apply" []
    ∷ []

abbrev as_written : List (Entry words)
as_written =
    adds_name "ray"
    ∷ informs 1 "cannot apply" ("a" ∷ "error" ∷ "conflict" ∷ [])
    ∷ fails (some "refused") "cannot apply" []
    ∷ []

lines_test :
    log_all (filtered lines) entries (record { sink = "" }) []
    ≡ "ray: info cannot apply a error conflict" ∷ "ray: error cannot apply refused" ∷ []
unfolding log_all filter_error
lines_test = refl

log_all-filtered_example :
    log_all (filtered lines) entries (record { sink = "" }) [] ≡ log_all lines as_written "" []
log_all-filtered_example =
    log_all-filtered lines
      (next_becomes name_as
        (next_becomes (conflict_as refl) (next_becomes (failure_as refl) none_becomes)))
      "" []
