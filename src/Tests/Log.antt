-- ===== src/Tests/Log.antt =====
-- Runs of common/log, and of the log line of a query.
use localdns_go.Prelude.{
  ℕ, ◌≡◌, refl, false, none, some, List, [], ◌∷◌, ◌++◌, append-nil, append_assoc, ok, replicate, ap,
  zero, suc, length, ◌==◌, ◌&&◌, if◌then◌else◌, Bool-cases, inl, inr, arith,
}
use localdns_go.Prelude.Words.{Bytes}
use localdns_go.Log.Android.{
  TextHandler, init_handler, android_logger, prepared, with_groups, android_with_attrs,
  android_with_group,
}
use localdns_go.Log.Android.Derived.{
  Derivation, with_attrs, with_group, derive_all, text_derive, attrs_of, groups_of, CollectsAttrs,
  prepared-derive_all,
}
use localdns_go.Log.Android.Lines.{newline, HasNoNewline, FormatsLines, IsOneLine}
use localdns_go.Doh.Message.{Dns}
use localdns_go.Doh.QueryLog.{Value, log_dns_resolver_query}
use localdns_go.Doh.QueryLog.Written.{priority_of, log_dns_resolver_query-IsOneLine}
use localdns_go.Tests.Toy.{toy}

abbrev long_line : Bytes
long_line = replicate 5000 b'x'

-- It drops the newlines at the end.
abbrev trim_end : Bytes → Bytes
trim_end [] = []
trim_end (c ∷ b) =
    let rest = trim_end b in if c == newline && length rest == 0 then [] else c ∷ rest

trim_end-newline : (b : Bytes) → trim_end (b ++ newline ∷ []) ≡ trim_end b
trim_end-newline [] = refl
trim_end-newline (c ∷ b) = rw (trim_end-newline b) refl

trim_end-slice : (b : Bytes) → (after : Bytes) × (b ≡ trim_end b ++ after)
trim_end-slice [] = ([], refl)
trim_end-slice (c ∷ b) =
    let (after, cut) = trim_end-slice b in
    elim (Bool-cases (c == newline && length (trim_end b) == 0)) [
      | inl last ↦ rw last (c ∷ b, refl)
      | inr more ↦ rw more (after, ap (λ z. c ∷ z) cut)
    ]

xs-HasNoNewline : (n : ℕ) → HasNoNewline (replicate n b'x')
xs-HasNoNewline zero = tt
xs-HasNoNewline (suc n) = (omega arith, xs-HasNoNewline n)

-- A text handler that keeps its attributes and a mark for each group, and writes them.
abbrev toy_text : {V : Type 0} → TextHandler ℕ Bytes V (List Bytes)
toy_text = record {
  fresh = λ level. [];
  with_attrs = λ attrs t. t ++ attrs;
  with_group = λ name t. t ++ (b'{' ∷ []) ∷ [];
  handle = λ r t. ok (long_line ++ newline ∷ []);
  trim_space = trim_end;
}

toy-CollectsAttrs : CollectsAttrs (toy_text {V = ℕ})
toy-CollectsAttrs = record {
  no_attrs = λ t. append-nil t;
  more_attrs = λ attrs more t. append_assoc t attrs more;
}

abbrev group_first : List (Derivation Bytes)
group_first = with_group "g" ∷ with_attrs ((7 ∷ []) ∷ []) ∷ []

prepared-derive_all_example :
    prepared (toy_text {V = ℕ}) (derive_all group_first init_handler)
    ≡ text_derive (toy_text {V = ℕ}) (attrs_of group_first ++ groups_of group_first) []
prepared-derive_all_example = prepared-derive_all toy_text toy-CollectsAttrs group_first

-- The attribute stands before the group that it follows.
group_comes_last :
    prepared (toy_text {V = ℕ}) (derive_all group_first init_handler) ≡ (7 ∷ []) ∷ (b'{' ∷ []) ∷ []
unfolding prepared derive_all with_groups android_with_attrs android_with_group
group_comes_last = refl

abbrev bad_toy : Dns ℕ Unit Unit Unit
bad_toy = toy 3

toy-FormatsLines : FormatsLines (toy_text {V = Value ℕ})
toy-FormatsLines = record {
  formats = λ r t. (long_line, refl, xs-HasNoNewline 5000);
  is_slice = λ b. let (after, cut) = trim_end-slice b in ([], after, cut);
  trims_newline = trim_end-newline;
}

log_dns_resolver_query-IsOneLine_example :
    IsOneLine
      (log_dns_resolver_query bad_toy
        (λ e. "bad")
        (android_logger (toy_text {V = Value ℕ}) init_handler)
        "DoH"
        "https://a/"
        (7 ∷ 9 ∷ [])
        none
        4000000
        (some 5)
        false)
      (priority_of {X = ℕ} (some 5) false)
      "LocalDNS"
log_dns_resolver_query-IsOneLine_example =
    log_dns_resolver_query-IsOneLine bad_toy toy_text toy-FormatsLines (λ e. "bad") "DoH"
      "https://a/" (7 ∷ 9 ∷ []) none 4000000 (some 5) false
