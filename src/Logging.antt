-- ===== src/Logging.antt =====
-- internal/logging/logging.go: the logger that is built from the configuration. log/slog and
-- lumberjack are libraries: a logger is the arguments they are given.
use redis_watcher.Base.{true, false, ◌||◌, [], ◌∷◌, ◌≡◌, refl, arith, inl, inr, sym}
use mathlib.Core.Path.{subst}
use redis_watcher.Base.Bytes.{Bytes, codes, is_empty, eq_bytes}
use redis_watcher.Base.Results.{Result, ok, err, ◌>>=◌}
use redis_watcher.Base.Tests.{if◌then◌else◌, Bool-cases}
use redis_watcher.Config.{LogConfig, contains}
use redis_watcher.Config.Validate.{validate_log, levels, log_formats}
use redis_watcher.Go.Text.{Unicode, to_lower}

pub data Level : Type 0 where
  level_info level_debug level_warn level_error : Level

pub data Handler : Type 0 where
  text_handler json_handler : Handler

-- Where the log goes: the standard error, or a file that is closed at the end.
pub data Out : Type 0 where
  stderr : Out
  log_file : Bytes → Out

pub record Logger : Type 0 where
  pub out : Out
  pub level : Level
  pub handler : Handler

pub data LogError : Type 0 where
  unknown_level : Bytes → LogError
  unknown_format : Bytes → LogError

unfoldable pub parse_level : Unicode → Bytes → Result LogError Level
parse_level u s =
    let l = to_lower u s in
    if is_empty l || eq_bytes l (codes "info")
    then ok level_info
    else if eq_bytes l (codes "debug")
    then ok level_debug
    else if eq_bytes l (codes "warn") || eq_bytes l (codes "warning")
    then ok level_warn
    else if eq_bytes l (codes "error")
    then ok level_error
    else err (unknown_level s)

-- The switch on the format.
unfoldable pub handler_of : Unicode → Bytes → Result LogError Handler
handler_of u format =
    let f = to_lower u format in
    if eq_bytes f (codes "text")
    then ok text_handler
    else if is_empty f || eq_bytes f (codes "json")
    then ok json_handler
    else err (unknown_format format)

unfoldable pub build : Unicode → LogConfig → Result LogError Logger
build u cfg = parse_level u cfg.level >>= λ level. handler_of u cfg.format >>= λ handler.
    ok (record {
      out = if is_empty cfg.file then stderr else log_file cfg.file;
      level = level;
      handler = handler;
    })

levels-parse_level :
    (u : Unicode) (s : Bytes)
    → contains levels (to_lower u s) ≡ true
    → (level : Level) × (parse_level u s ≡ ok level)
unfolding parse_level
levels-parse_level u s h =
    elim (Bool-cases (is_empty (to_lower u s) || eq_bytes (to_lower u s) (codes "info"))) [
      | inl a ↦ (level_info, ground arith)
      | inr a ↦ elim (Bool-cases (eq_bytes (to_lower u s) (codes "debug"))) [
        | inl b ↦ (level_debug, ground arith)
        | inr b ↦
            elim (Bool-cases (
              eq_bytes (to_lower u s) (codes "warn")
              || eq_bytes (to_lower u s) (codes "warning"))) [
                | inl c ↦ (level_warn, ground arith)
                | inr c ↦ (level_error, ground arith)
              ]
      ]
    ]

eq_bytes-nil : (s : Bytes) → eq_bytes s [] ≡ is_empty s
unfolding eq_bytes
eq_bytes-nil [] = refl
eq_bytes-nil (c ∷ s) = refl

log_formats-handler_of :
    (u : Unicode) (s : Bytes)
    → contains log_formats (to_lower u s) ≡ true
    → (handler : Handler) × (handler_of u s ≡ ok handler)
unfolding handler_of
log_formats-handler_of u s h = elim (Bool-cases (eq_bytes (to_lower u s) (codes "text"))) [
  | inl a ↦ (text_handler, ground arith)
  | inr a ↦ (json_handler, rw (a, rest a) refl)
]
  where
    rest :
        eq_bytes (to_lower u s) (codes "text") ≡ false
        → (is_empty (to_lower u s) || eq_bytes (to_lower u s) (codes "json")) ≡ true
    rest k = ground (arith, eq_bytes-nil (to_lower u s))

validate_log-tests :
    (u : Unicode) (l l' : LogConfig)
    → validate_log u l ≡ ok l'
    → (l' ≡ l)
      × (contains levels (to_lower u l.level) ≡ true)
      × (contains log_formats (to_lower u l.format) ≡ true)
unfolding validate_log
validate_log-tests u l l' h = (ground arith, ground arith, ground arith)

abbrev Builds : Unicode → LogConfig → Type 0
Builds u l =
    (logger : Logger) × (build u l ≡ ok logger)
    × (logger.out ≡ (if is_empty l.file then stderr else log_file l.file))

build-known :
    (u : Unicode) (l : LogConfig)
    → contains levels (to_lower u l.level) ≡ true
    → contains log_formats (to_lower u l.format) ≡ true
    → Builds u l
unfolding build
build-known u l level format =
    let (lev, parsed) = levels-parse_level u l.level level in
    let (han, handled) = log_formats-handler_of u l.format format in
    (
      record {
        out = if is_empty l.file then stderr else log_file l.file;
        level = lev;
        handler = han;
      },
      rw (parsed, handled) refl,
      refl,
    )

-- With a validated log configuration, the logger is always built: every level and format that the
-- validation lets pass is known to the builder, in whatever case it is written. The log goes to the
-- configured file, and to the standard error where there is none.
pub build-validate_log :
    (u : Unicode) (l l' : LogConfig)
    → validate_log u l ≡ ok l'
    → (logger : Logger) × (build u l' ≡ ok logger)
      × (logger.out ≡ (if is_empty l'.file then stderr else log_file l'.file))
build-validate_log u l l' h =
    let (same, level, format) = validate_log-tests u l l' h in
    subst (Builds u) (sym same) (build-known u l level format)
