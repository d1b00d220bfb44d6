-- ===== src/Log/Android/Lines.antt =====
-- What the Android handler writes for a record.
use Prim.Native.String.{String}
use localdns_go.Prelude.{
  ℕ, ◌+◌, ◌≤◌, ◌≡◌, refl, ap, List, [], ◌∷◌, ◌++◌, length, take, ltb, arith, if◌then◌else◌,
  length-append, length-take, ok, All, All-append, All-take, ◌≢◌, Bool, true, not, ◌&&◌, ◌==◌, sym,
  subst, Bool-cases, inl, inr,
}
use localdns_go.Prelude.Words.{Bytes}
use localdns_go.Log.{LogRecord}
use localdns_go.Log.Android.{
  TextHandler, AndroidHandler, Priority, LogLine, limit_line, max_android_log_line, truncated_mark,
  prepared, android_handle, android_logger, android_prio, lines_of, written,
}

limited :
    (n : ℕ) (line mark : Bytes)
    → length (if ltb n (length line) then take n line ++ mark else line) ≤ n + length mark
limited n line mark = ground (arith, length-append (take n line) mark, length-take n line)

length-limit_line : (line : Bytes) → length (limit_line line) ≤ 3814
unfolding limit_line
length-limit_line line = limited max_android_log_line line truncated_mark

abbrev pub newline : ℕ
newline = 10

abbrev pub HasNoNewline : Bytes → Type 0
HasNoNewline b = All (λ c. c ≢ newline) b

front-HasNoNewline : (a b : Bytes) → HasNoNewline (a ++ b) → HasNoNewline a
front-HasNoNewline [] b h = tt
front-HasNoNewline (x ∷ a) b h = (h.0, front-HasNoNewline a b h.1)

back-HasNoNewline : (a b : Bytes) → HasNoNewline (a ++ b) → HasNoNewline b
back-HasNoNewline [] b h = h
back-HasNoNewline (x ∷ a) b h = back-HasNoNewline a b h.1

abbrev is_one_line : Bytes → Bool
is_one_line [] = true
is_one_line (c ∷ b) = not (c == newline) && is_one_line b

is_one_line_lem : (b : Bytes) → is_one_line b ≡ true → HasNoNewline b
is_one_line_lem [] h = tt
is_one_line_lem (c ∷ b) h = (ground arith, is_one_line_lem b (ground arith))

limit_line-HasNoNewline : (line : Bytes) → HasNoNewline line → HasNoNewline (limit_line line)
unfolding limit_line
limit_line-HasNoNewline line h = elim (Bool-cases (ltb max_android_log_line (length line))) [
  | inl long ↦ rw long (
      All-append (λ c. c ≢ newline) (take max_android_log_line line) truncated_mark
        (All-take (λ c. c ≢ newline) max_android_log_line line h)
        (is_one_line_lem truncated_mark refl))
  | inr short ↦ rw short h
]

-- What slog documents of its text handler, which here writes to a builder: a record is one line, and ends
-- in a newline. What `strings.TrimSpace` documents: it gives a slice of the text, without the white space
-- around it, such as a newline behind it.
pub record FormatsLines {E A V T : Type 0} (text : TextHandler E A V T) : Type 0 where
  pub formats :
      (r : LogRecord V) (t : T)
      → (line : Bytes) × (text.handle r t ≡ ok (line ++ newline ∷ [])) × HasNoNewline line
  pub is_slice :
      (b : Bytes)
      → (before : Bytes) × (after : Bytes) × (b ≡ before ++ (text.trim_space b ++ after))
  pub trims_newline : (b : Bytes) → text.trim_space (b ++ newline ∷ []) ≡ text.trim_space b

trimmed-HasNoNewline :
    {E A V T : Type 0} (text : TextHandler E A V T)
    → FormatsLines text
    → (line : Bytes) → HasNoNewline line
    → HasNoNewline (text.trim_space (line ++ newline ∷ []))
trimmed-HasNoNewline text law line h =
    let (before, after, cut) = law.is_slice line in
    subst HasNoNewline (sym (law.trims_newline line)) (
      front-HasNoNewline (text.trim_space line) after
        (back-HasNoNewline before (text.trim_space line ++ after) (subst HasNoNewline cut h)))

-- One line without a newline in it, within the limit, with a priority and a tag.
pub record IsOneLine (lines : List LogLine) (priority : Priority) (tag : String) : Type 0 where
  pub line : LogLine
  pub alone : lines ≡ line ∷ []
  pub no_newline : HasNoNewline line.text
  pub within : length line.text ≤ 3814
  pub same_priority : line.priority ≡ priority
  pub same_tag : line.tag ≡ tag

pub handle-IsOneLine :
    {E A V T : Type 0} (text : TextHandler E A V T) (h : AndroidHandler A) (r : LogRecord V)
    → FormatsLines text
    → IsOneLine ((android_logger text h).handle r) (android_prio r.level) h.tag
unfolding android_logger android_handle lines_of written
handle-IsOneLine text h r law =
    let (line, formatted, one) = law.formats r (prepared text h) in
    record {
      line = record {
        priority = android_prio r.level;
        tag = h.tag;
        text = limit_line (text.trim_space (line ++ newline ∷ []));
      };
      alone = ap (λ z. lines_of text (written text h r.level z)) formatted;
      no_newline = limit_line-HasNoNewline _ (trimmed-HasNoNewline text law line one);
      within = length-limit_line (text.trim_space (line ++ newline ∷ []));
      same_priority = refl;
      same_tag = refl;
    }
