-- ===== src/Log/Android.antt =====
-- common/log/log_android.go. slog's text handler and `strings.TrimSpace` are a parameter; a line is what
-- `__android_log_write` is called with.
pub mod Derived
pub mod Lines
use Prim.Native.String.{String}
use localdns_go.Prelude.{
  ℕ, Bool, List, [], ◌∷◌, ◌++◌, length, take, ltb, if◌then◌else◌, Result, ok, err,
}
use localdns_go.Prelude.Words.{Bytes}
use localdns_go.Prelude.Ints.{ℤ, leb_int}
use localdns_go.Log.{LogRecord, Logger, level_debug, level_info, level_warn, level_error}

-- The text handler on an empty builder: `fresh` is NewTextHandler for a level, `handle` gives the text that
-- the builder then holds.
pub record TextHandler (E A V T : Type 0) : Type 0 where
  pub fresh : ℤ → T
  pub with_attrs : List A → T → T
  pub with_group : String → T → T
  pub handle : LogRecord V → T → Result E Bytes
  pub trim_space : Bytes → Bytes

-- C.ANDROID_LOG_*
pub data Priority : Type 0 where
  log_debug : Priority
  log_info : Priority
  log_warn : Priority
  log_error : Priority

pub record LogLine : Type 0 where
  pub priority : Priority
  pub tag : String
  pub text : Bytes

-- androidHandler
pub record AndroidHandler (A : Type 0) : Type 0 where
  pub tag : String
  pub min : ℤ
  pub attrs : List A
  pub groups : List String

-- The handler of `init`
abbrev pub init_handler : {A : Type 0} → AndroidHandler A
init_handler = record { tag = "LocalDNS"; min = level_debug; attrs = []; groups = [] }

abbrev pub max_android_log_line : ℕ
max_android_log_line = 3800

-- "...(truncated)"
abbrev pub truncated_mark : Bytes
truncated_mark =
    b'.' ∷ b'.' ∷ b'.' ∷ b'(' ∷ b't' ∷ b'r' ∷ b'u' ∷ b'n' ∷ b'c' ∷ b'a' ∷ b't' ∷ b'e' ∷ b'd' ∷ b')'
    ∷ []

unfoldable pub limit_line : Bytes → Bytes
limit_line line =
    if ltb max_android_log_line (length line)
    then take max_android_log_line line ++ truncated_mark
    else line

unfoldable pub android_prio : ℤ → Priority
android_prio l =
    if leb_int level_error l
    then log_error
    else if leb_int level_warn l
    then log_warn
    else if leb_int level_info l
    then log_info
    else log_debug

-- `Enabled`
unfoldable pub android_enabled : {A : Type 0} → AndroidHandler A → ℤ → Bool
android_enabled h level = leb_int h.min level

-- `WithAttrs` and `WithGroup`: copies with new slices.
unfoldable pub android_with_attrs : {A : Type 0} → List A → AndroidHandler A → AndroidHandler A
android_with_attrs attrs h = record h { attrs = h.attrs ++ attrs }

unfoldable pub android_with_group : {A : Type 0} → String → AndroidHandler A → AndroidHandler A
android_with_group name h = record h { groups = h.groups ++ name ∷ [] }

module _ {E A V T : Type 0} (text : TextHandler E A V T) where
  unfoldable pub with_groups : List String → T → T
  with_groups [] t = t
  with_groups (g ∷ groups) t = with_groups groups (text.with_group g t)

  -- the text handler `sub` of `Handle`
  unfoldable pub prepared : AndroidHandler A → T
  unfolding with_groups
  prepared h =
      let sub = text.fresh level_debug in
      with_groups h.groups (if ltb 0 (length h.attrs) then text.with_attrs h.attrs sub else sub)

  pub written : AndroidHandler A → ℤ → Result E Bytes → Result E LogLine
  written h level (err e) = err e
  written h level (ok b) =
      ok (record {
        priority = android_prio level;
        tag = h.tag;
        text = limit_line (text.trim_space b);
      })

  -- `Handle`
  unfoldable pub android_handle : AndroidHandler A → LogRecord V → Result E LogLine
  unfolding written limit_line android_prio
  android_handle h r = written h r.level (text.handle r (prepared h))

  pub lines_of : Result E LogLine → List LogLine
  lines_of (ok l) = l ∷ []
  lines_of (err e) = []

  -- slog.New of a handler; it ignores the errors of `Handle`.
  unfoldable pub android_logger : AndroidHandler A → Logger V LogLine
  unfolding android_enabled lines_of
  android_logger h = record {
    enabled = android_enabled h;
    handle = λ r. lines_of (android_handle h r);
  }
