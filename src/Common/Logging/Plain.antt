-- ===== src/Common/Logging/Plain.antt =====
-- volodb-common/Logging/log.h: the older form of the log, whose levels begin with the errors.
use volo_db.Prelude.{
  ℕ, ◌-◌, ◌≡◌, ◌≢◌, refl, Text, Bool, true, false, Option, none, some, ◌++◌, codes, replicate, ltb,
  text_eq, text_eq_sound, Bool-cases, inl, inr, if◌then◌else◌,
}
use volo_db.Common.Logging
use volo_db.Common.Logging.{c_str, unknown_level, write_line, from_string}

-- TLogLevel.
pub data LogLevel : Type 0 where
  log_error : LogLevel
  log_warning : LogLevel
  log_info : LogLevel
  log_debug : LogLevel
  log_debug1 : LogLevel
  log_debug2 : LogLevel
  log_debug3 : LogLevel
  log_debug4 : LogLevel

unfoldable pub level_value : LogLevel → ℕ
level_value log_error = 0
level_value log_warning = 1
level_value log_info = 2
level_value log_debug = 3
level_value log_debug1 = 4
level_value log_debug2 = 5
level_value log_debug3 = 6
level_value log_debug4 = 7

unfoldable pub to_string : LogLevel → Text
to_string log_error = codes "ERROR"
to_string log_warning = codes "WARNING"
to_string log_info = codes "INFO"
to_string log_debug = codes "DEBUG"
to_string log_debug1 = codes "DEBUG1"
to_string log_debug2 = codes "DEBUG2"
to_string log_debug3 = codes "DEBUG3"
to_string log_debug4 = codes "DEBUG4"

-- Get.
unfoldable pub prefix : Text → LogLevel → Text
unfolding level_value to_string
prefix now level =
    codes "- "
    ++ (now
        ++ (codes " "
            ++ (to_string level
                ++ (codes ": "
                    ++ replicate
                        (if ltb (level_value log_debug) (level_value level)
                          then level_value level - level_value log_debug
                          else 0)
                        b'\t'))))

-- Output2FILE::Output, where Stream may be null.
unfoldable pub output : Bool → Text → Option Text
unfolding c_str
output has_stream msg = if has_stream then some (c_str msg) else none

-- A Log from its construction to its destructor.
unfoldable pub plain_line : Bool → Text → LogLevel → Text → Option Text
unfolding prefix output
plain_line has_stream now level message =
    output has_stream (prefix now level ++ (message ++ codes "\n"))

-- FromString.
unfoldable pub plain_from_string : Bool → Text → Text → LogLevel × Option Text
unfolding plain_line
plain_from_string has_stream now level =
    if text_eq level (codes "DEBUG4")
    then (log_debug4, none)
    else if text_eq level (codes "DEBUG3")
    then (log_debug3, none)
    else if text_eq level (codes "DEBUG2")
    then (log_debug2, none)
    else if text_eq level (codes "DEBUG1")
    then (log_debug1, none)
    else if text_eq level (codes "DEBUG")
    then (log_debug, none)
    else if text_eq level (codes "INFO")
    then (log_info, none)
    else if text_eq level (codes "WARNING")
    then (log_warning, none)
    else if text_eq level (codes "ERROR")
    then (log_error, none)
    else (log_info, plain_line has_stream now log_warning (unknown_level level))

-- The levels of log.h among those of log1.h.
abbrev pub level_of : LogLevel → Logging.LogLevel
level_of log_error = Logging.log_error
level_of log_warning = Logging.log_warning
level_of log_info = Logging.log_info
level_of log_debug = Logging.log_debug
level_of log_debug1 = Logging.log_debug1
level_of log_debug2 = Logging.log_debug2
level_of log_debug3 = Logging.log_debug3
level_of log_debug4 = Logging.log_debug4

abbrev pub also : LogLevel × Option Text → Logging.LogLevel × Option Text
also (level, written) = (level_of level, written)

also-if :
    (b : Bool) (x y : LogLevel × Option Text) (x' y' : Logging.LogLevel × Option Text)
    → also x ≡ x'
    → also y ≡ y'
    → also (if b then x else y) ≡ (if b then x' else y')
also-if true x y x' y' e f = e
also-if false x y x' y' e f = f

not_off : (level : Text) → level ≢ codes "OFF" → text_eq level (codes "OFF") ≡ false
not_off level n = elim (Bool-cases (text_eq level (codes "OFF"))) [
  | inl e ↦ absurd (n (text_eq_sound level (codes "OFF") e))
  | inr e ↦ e
]

-- The two logs read every text but OFF, which only log1.h knows, as the same level, and write the
-- same warnings where log.h has a stream to write to.
pub plain_from_string-from_string :
    (now level : Text)
    → level ≢ codes "OFF"
    → also (plain_from_string true now level) ≡ from_string now level
unfolding plain_from_string from_string plain_line output prefix write_line
plain_from_string-from_string now level n = rw (not_off level n) (
    also-if (text_eq level (codes "DEBUG4")) _ _ _ _ refl (
      also-if (text_eq level (codes "DEBUG3")) _ _ _ _ refl (
        also-if (text_eq level (codes "DEBUG2")) _ _ _ _ refl (
          also-if (text_eq level (codes "DEBUG1")) _ _ _ _ refl (
            also-if (text_eq level (codes "DEBUG")) _ _ _ _ refl (
              also-if (text_eq level (codes "INFO")) _ _ _ _ refl (
                also-if (text_eq level (codes "WARNING")) _ _ _ _ refl
                  (also-if (text_eq level (codes "ERROR")) _ _ _ _ refl (refl)))))))))
