-- ===== src/Logging/Laws.antt =====
-- What a logger writes, and how its level is named.
use distributed_event_bus.Prelude.{
  ℕ, ◌≡◌, refl, sym, ap, ◌∙◌, inl, inr, Bool, true, false, List, [], ◌∷◌, ◌++◌, Text, Option, some,
  ltb, leb, if◌then◌else◌, text_eq, arith, Bool-cases, append_assoc, append-nil,
}
use distributed_event_bus.Logging.Logger.{
  Severity, as_error, as_warn, as_info, as_debug, level_of, level_error, level_warn, level_info,
  level_debug, error_tag, warn_tag, info_tag, debug_tag, error_name, warn_name, warning_name,
  info_name, debug_name, lower_byte, lower, is_ascii, to_lower, parse_level, Logger, new, logf, log,
  log_all,
}

-- "[NAME] message"
abbrev pub line_of : Severity → Text → Text
line_of severity message = (91 ∷ []) ++ tag severity ++ (93 ∷ 32 ∷ []) ++ message
  where
    tag : Severity → Text
    tag as_error = error_tag
    tag as_warn = warn_tag
    tag as_info = info_tag
    tag as_debug = debug_tag

-- The lines of the calls that are not above the level.
abbrev pub lines_at : ℕ → List (Severity × Text) → List Text
lines_at level [] = []
lines_at level ((severity, message) ∷ calls) =
    if leb (level_of severity) level
    then line_of severity message ∷ lines_at level calls
    else lines_at level calls

filtered :
    (level : ℕ) (line : Text) (l : Logger)
    → (if ltb l.level level then some l else some (record l { lines = l.lines ++ (line ∷ []) }))
      ≡ some (record l { lines = l.lines ++ (if leb level l.level then line ∷ [] else []) })
filtered level line l = elim (Bool-cases (ltb l.level level)) [
  | inl above ↦
      let hidden : leb level l.level ≡ false = ground arith in
      if_true _ _ above
      ∙ ap (λ xs. some (record l { lines = xs }))
          (sym (append-nil l.lines)
            ∙ ap (λ b. l.lines ++ (if b then line ∷ [] else [])) (sym hidden))
  | inr within ↦
      let shown : leb level l.level ≡ true = ground arith in
      if_false _ _ within
      ∙ ap (λ b. some (record l { lines = l.lines ++ (if b then line ∷ [] else []) })) (sym shown)
]
  where
    if_true : (a c : Option Logger) → {b : Bool} → b ≡ true → (if b then a else c) ≡ a
    if_true a c h = rw h refl

    if_false : (a c : Option Logger) → {b : Bool} → b ≡ false → (if b then a else c) ≡ c
    if_false a c h = rw h refl

log_one :
    (severity : Severity) (message : Text) (l : Logger)
    → log severity message (some l)
      ≡ some (record l {
        lines =
            l.lines
            ++ (if leb (level_of severity) l.level then line_of severity message ∷ [] else []);
      })
unfolding log logf
log_one as_error message l = filtered level_error (line_of as_error message) l
log_one as_warn message l = filtered level_warn (line_of as_warn message) l
log_one as_info message l = filtered level_info (line_of as_info message) l
log_one as_debug message l = filtered level_debug (line_of as_debug message) l

log_all-more :
    (severity : Severity) (message : Text) (calls : List (Severity × Text)) (l : Option Logger)
    → log_all ((severity, message) ∷ calls) l ≡ log_all calls (log severity message l)
unfolding log_all
log_all-more severity message calls l = refl

one_more :
    (b : Bool) (line : Text) (lines : List Text)
    → (if b then line ∷ [] else []) ++ lines ≡ (if b then line ∷ lines else lines)
one_more true line lines = refl
one_more false line lines = refl

log_all-lines :
    (calls : List (Severity × Text)) (l : Logger)
    → log_all calls (some l) ≡ some (record l { lines = l.lines ++ lines_at l.level calls })
log_all-lines [] l =
    unfold log_all in ap (λ xs. some (record l { lines = xs })) (sym (append-nil l.lines))
log_all-lines ((severity, message) ∷ calls) l =
    let b = leb (level_of severity) l.level in
    let line = line_of severity message in
    log_all-more severity message calls (some l)
    ∙ ap (log_all calls) (log_one severity message l)
    ∙ log_all-lines calls (record l { lines = l.lines ++ (if b then line ∷ [] else []) })
    ∙ ap (λ xs. some (record l { lines = xs }))
        (append_assoc l.lines (if b then line ∷ [] else []) (lines_at l.level calls)
          ∙ ap (λ xs. l.lines ++ xs) (one_more b line (lines_at l.level calls)))

lower_byte_again : (b : ℕ) → lower_byte (lower_byte b) ≡ lower_byte b
unfolding lower_byte
lower_byte_again b = ground arith

lower_again : (value : Text) → lower (lower value) ≡ lower value
unfolding lower
lower_again [] = refl
lower_again (b ∷ bs) =
    ap (λ x. x ∷ lower (lower bs)) (lower_byte_again b)
    ∙ ap (λ xs. lower_byte b ∷ xs) (lower_again bs)

lower_ascii : (value : Text) → is_ascii value ≡ true → is_ascii (lower value) ≡ true
unfolding is_ascii lower lower_byte
lower_ascii [] h = refl
lower_ascii (b ∷ bs) h = ground (arith, lower_ascii bs)

-- The texts that `ParseLevel` takes, each with its level.
abbrev pub level_names : List (Text × ℕ)
level_names =
    (error_name, level_error)
    ∷ (warn_name, level_warn)
    ∷ (warning_name, level_warn)
    ∷ (info_name, level_info)
    ∷ (debug_name, level_debug)
    ∷ []

-- The level of a name, or that of INFO with a refusal.
abbrev pub level_named : Text → List (Text × ℕ) → ℕ × Bool
level_named name [] = (level_info, false)
level_named name ((n, level) ∷ names) =
    if text_eq name n then (level, true) else level_named name names

parse_level-named :
    (unicode_lower : Text → Text) (value : Text)
    → is_ascii value ≡ true
    → parse_level unicode_lower value ≡ level_named (lower value) level_names
unfolding parse_level to_lower
parse_level-named unicode_lower value h = rw h (ground arith)

-- A logger that is made for a command-line value in ASCII letters, of whatever case, has the level that
-- the table of names gives to the value in lower case. Through any sequence of calls it writes exactly
-- the lines of those calls that are not above its level, in their order, each behind its tag.
pub log_all-parse_level :
    (unicode_lower : Text → Text) (value : Text) (calls : List (Severity × Text))
    → is_ascii value ≡ true
    → (parse_level unicode_lower value ≡ level_named (lower value) level_names)
      × (parse_level unicode_lower (lower value) ≡ parse_level unicode_lower value)
      × (let level = (parse_level unicode_lower value).0 in
          log_all calls (some (new level))
          ≡ some (record { level = level; lines = lines_at level calls }))
unfolding new
log_all-parse_level unicode_lower value calls h = (
  parse_level-named unicode_lower value h,
  parse_level-named unicode_lower (lower value) (lower_ascii value h)
      ∙ ap (λ x. level_named x level_names) (lower_again value)
      ∙ sym (parse_level-named unicode_lower value h),
  log_all-lines calls (new (parse_level unicode_lower value).0),
)
