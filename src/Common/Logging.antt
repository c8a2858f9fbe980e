-- ===== src/Common/Logging.antt =====
-- volodb-common/Logging/log1.h, the log of the programs, and log.h, its older form without a level
-- that is off. The time of the day is an argument.
pub mod Plain
use volo_db.Prelude.{
  ℕ, ◌-◌, ◌≤◌, ◌≡◌, ◌≢◌, refl, Text, Bool, true, false, Option, none, some, List, [], ◌∷◌, ◌++◌,
  codes, replicate, arith, ltb, leb, ◌==◌, text_eq, text_eq_refl, text_eq_sound, Bool-cases, ◌⊎◌,
  inl, inr, if◌then◌else◌,
}

-- TLogLevel.
pub data LogLevel : Type 0 where
  log_off : LogLevel
  log_error : LogLevel
  log_warning : LogLevel
  log_info : LogLevel
  log_debug : LogLevel
  log_debug1 : LogLevel
  log_debug2 : LogLevel
  log_debug3 : LogLevel
  log_debug4 : LogLevel

-- The enumeration's values.
unfoldable pub level_value : LogLevel → ℕ
level_value log_off = 0
level_value log_error = 1
level_value log_warning = 2
level_value log_info = 3
level_value log_debug = 4
level_value log_debug1 = 5
level_value log_debug2 = 6
level_value log_debug3 = 7
level_value log_debug4 = 8

unfoldable pub to_string : LogLevel → Text
to_string log_off = codes "OFF"
to_string log_error = codes "ERROR"
to_string log_warning = codes "WARNING"
to_string log_info = codes "INFO"
to_string log_debug = codes "DEBUG"
to_string log_debug1 = codes "DEBUG1"
to_string log_debug2 = codes "DEBUG2"
to_string log_debug3 = codes "DEBUG3"
to_string log_debug4 = codes "DEBUG4"

-- Get: what is in front of a message.
unfoldable pub prefix : Text → LogLevel → Text
unfolding level_value to_string
prefix now level =
    codes "- "
    ++ (now
        ++ (codes " "
            ++ (to_string level
                ++ (codes ": "
                    ++ replicate
                        (if ltb (level_value log_debug) (level_value level)
                          then level_value level - level_value log_debug
                          else 0)
                        b'\t'))))

-- `c_str` as fprintf reads it: the bytes in front of the first zero.
unfoldable pub c_str : Text → Text
c_str [] = []
c_str (c ∷ str) = let rest = c_str str in if c == 0 then [] else c ∷ rest

-- A Log from its construction to its destructor, which writes a line to stderr.
unfoldable pub write_line : Text → LogLevel → Text → Text
unfolding prefix c_str
write_line now level message = c_str (prefix now level ++ (message ++ codes "\n"))

-- FILE_LOG: what it writes under a reporting level, if anything.
unfoldable pub file_log : LogLevel → Text → LogLevel → Text → Option Text
unfolding level_value write_line
file_log reporting_level now level message =
    if ltb (level_value reporting_level) (level_value level)
    then none
    else some (write_line now level message)

abbrev pub unknown_level : Text → Text
unknown_level level =
    codes "Unknown logging level '" ++ (level ++ codes "'. Using INFO level as default.")

-- FromString, with what it writes. Its warning does not go by the reporting level.
unfoldable pub from_string : Text → Text → LogLevel × Option Text
unfolding write_line
from_string now level =
    if text_eq level (codes "DEBUG4")
    then (log_debug4, none)
    else if text_eq level (codes "DEBUG3")
    then (log_debug3, none)
    else if text_eq level (codes "DEBUG2")
    then (log_debug2, none)
    else if text_eq level (codes "DEBUG1")
    then (log_debug1, none)
    else if text_eq level (codes "DEBUG")
    then (log_debug, none)
    else if text_eq level (codes "INFO")
    then (log_info, none)
    else if text_eq level (codes "WARNING")
    then (log_warning, none)
    else if text_eq level (codes "ERROR")
    then (log_error, none)
    else if text_eq level (codes "OFF")
    then (log_off, none)
    else (log_info, some (write_line now log_warning (unknown_level level)))

from_string-to_string : (now : Text) (l : LogLevel) → from_string now (to_string l) ≡ (l, none)
unfolding from_string to_string text_eq
from_string-to_string now log_off = refl
from_string-to_string now log_error = refl
from_string-to_string now log_warning = refl
from_string-to_string now log_info = refl
from_string-to_string now log_debug = refl
from_string-to_string now log_debug1 = refl
from_string-to_string now log_debug2 = refl
from_string-to_string now log_debug3 = refl
from_string-to_string now log_debug4 = refl

-- A text is one of the levels', or is told from each of them.
Named : Text → Type 0
Named level =
    ((l : LogLevel) × (level ≡ to_string l))
    ⊎ ((l : LogLevel) → text_eq level (to_string l) ≡ false)

Named-or :
    (level : Text) (l : LogLevel)
    → (text_eq level (to_string l) ≡ false → Named level)
    → Named level
unfolding Named
Named-or level l other = elim (Bool-cases (text_eq level (to_string l))) [
  | inl e ↦ inl (l, text_eq_sound level (to_string l) e)
  | inr e ↦ other e
]

named : (level : Text) → Named level
unfolding Named
named level = Named-or level log_off λ f0. Named-or level log_error λ f1.
    Named-or level log_warning λ f2. Named-or level log_info λ f3. Named-or level log_debug λ f4.
      Named-or level log_debug1 λ f5. Named-or level log_debug2 λ f6.
        Named-or level log_debug3 λ f7. Named-or level log_debug4 λ f8. inr (λ l.
          elim l as (λ k. text_eq level (to_string k) ≡ false) [
            | log_off ↦ f0
            | log_error ↦ f1
            | log_warning ↦ f2
            | log_info ↦ f3
            | log_debug ↦ f4
            | log_debug1 ↦ f5
            | log_debug2 ↦ f6
            | log_debug3 ↦ f7
            | log_debug4 ↦ f8
          ])

from_string_other :
    (now level : Text)
    → ((l : LogLevel) → text_eq level (to_string l) ≡ false)
    → from_string now level ≡ (log_info, some (write_line now log_warning (unknown_level level)))
unfolding from_string to_string
from_string_other now level other =
    rw
      (
        other log_debug4,
        other log_debug3,
        other log_debug2,
        other log_debug1,
        other log_debug,
        other log_info,
        other log_warning,
        other log_error,
        other log_off,
      )
      refl

-- FromString undoes ToString, in silence. Of any other text it makes INFO and writes one line, a
-- warning that names the text, whatever the reporting level is.
pub from_string_lem :
    (now level : Text)
    → ((l : LogLevel) × (level ≡ to_string l) × (from_string now level ≡ (l, none)))
      ⊎ (((l : LogLevel) → level ≢ to_string l)
          × (from_string now level
              ≡ (log_info, some (write_line now log_warning (unknown_level level)))))
unfolding Named
from_string_lem now level = elim (named level) [
  | inl (l, e) ↦ inl (l, e, rw e (from_string-to_string now l))
  | inr other ↦ inr (
    λ l same. absurd (cc (other l, text_eq_refl (to_string l), same)),
    from_string_other now level other,
  )
]
