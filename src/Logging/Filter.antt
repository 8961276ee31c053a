-- ===== src/Logging/Filter.antt =====
-- What the log filter of pkg/controllers/support.go passes on.
use codeflare_operator.Base.{
  ℕ, ◌≡◌, refl, String, true, false, List, [], ◌∷◌, ◌++◌, Option, none, some,
}
use codeflare_operator.Logging.{Vocabulary, Sinks, filter_error, filtered}

-- What is called on a sink: messages and errors, and the sinks derived from it.
pub data Entry (v : Vocabulary) : Type 0 where
  starts : v.RuntimeInfo → Entry v
  informs : ℕ → String → List v.Value → Entry v
  fails : Option v.Failure → String → List v.Value → Entry v
  adds_values : List v.Value → Entry v
  adds_name : String → Entry v

module _ {v : Vocabulary} where
  -- What becomes of an entry: a conflict is a message of level 1.
  pub data Becomes : Entry v → Entry v → Type 0 where
    starts_as : {info : v.RuntimeInfo} → Becomes (starts info) (starts info)
    informs_as :
        {level : ℕ} {msg : String} {values : List v.Value}
        → Becomes (informs level msg values) (informs level msg values)
    nil_as :
        {msg : String} {values : List v.Value}
        → Becomes (fails none msg values) (fails none msg values)
    failure_as :
        {e : v.Failure} {msg : String} {values : List v.Value}
        → v.is_conflict e ≡ false
        → Becomes (fails (some e) msg values) (fails (some e) msg values)
    conflict_as :
        {e : v.Failure} {msg : String} {values : List v.Value}
        → v.is_conflict e ≡ true
        → Becomes
            (fails (some e) msg values)
            (informs 1 msg (values ++ v.text "error" ∷ v.text (v.error_text e) ∷ []))
    values_as : {values : List v.Value} → Becomes (adds_values values) (adds_values values)
    name_as : {name : String} → Becomes (adds_name name) (adds_name name)

  pub data AllBecome : List (Entry v) → List (Entry v) → Type 0 where
    none_becomes : AllBecome [] []
    next_becomes :
        {x y : Entry v} {xs ys : List (Entry v)}
        → Becomes x y
        → AllBecome xs ys
        → AllBecome (x ∷ xs) (y ∷ ys)

module _ {v : Vocabulary} {Output : Type 0} (o : Sinks v Output) where
  -- The output of a sequence of calls, each on the sink that those before it derived.
  unfoldable pub log_all : List (Entry v) → o.Sink → Output → Output
  log_all [] sink out = out
  log_all (starts info ∷ xs) sink out = log_all xs (o.init sink info) out
  log_all (informs level msg values ∷ xs) sink out =
      log_all xs sink (o.info sink level msg values out)
  log_all (fails e msg values ∷ xs) sink out = log_all xs sink (o.error sink e msg values out)
  log_all (adds_values values ∷ xs) sink out = log_all xs (o.with_values sink values) out
  log_all (adds_name name ∷ xs) sink out = log_all xs (o.with_name sink name) out

module _ {v : Vocabulary} {Output : Type 0} (o : Sinks v Output) where
  -- Any sequence of calls on the filter, with the sinks that are derived from it by values and names,
  -- writes what the same sequence writes to the sink below it once every conflict error is turned into
  -- a message of level 1 with the error's text, and nothing else is changed.
  pub log_all-filtered :
      {xs ys : List (Entry v)}
      → AllBecome xs ys
      → (sink : o.Sink) (out : Output)
      → log_all (filtered o) xs (record { sink = sink }) out ≡ log_all o ys sink out
  unfolding log_all filter_error
  log_all-filtered none_becomes sink out = refl
  log_all-filtered (next_becomes (starts_as {info}) b) sink out =
      log_all-filtered b (o.init sink info) out
  log_all-filtered (next_becomes (informs_as {level} {msg} {values}) b) sink out =
      log_all-filtered b sink (o.info sink level msg values out)
  log_all-filtered (next_becomes (nil_as {msg} {values}) b) sink out =
      log_all-filtered b sink (o.error sink none msg values out)
  log_all-filtered (next_becomes (failure_as {e} {msg} {values} h) b) sink out =
      rw h (log_all-filtered b sink (o.error sink (some e) msg values out))
  log_all-filtered (next_becomes (conflict_as {e} {msg} {values} h) b) sink out =
      rw h (log_all-filtered b sink _)
  log_all-filtered (next_becomes (values_as {values}) b) sink out =
      log_all-filtered b (o.with_values sink values) out
  log_all-filtered (next_becomes (name_as {name}) b) sink out =
      log_all-filtered b (o.with_name sink name) out
