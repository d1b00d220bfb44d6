-- ===== src/Log/Android/Derived.antt =====
-- Handlers that `WithAttrs` and `WithGroup` derive.
use Prim.Native.String.{String}
use localdns_go.Prelude.{
  ◌≡◌, refl, sym, ap, ◌∙◌, List, [], ◌∷◌, ◌++◌, length, ltb, if◌then◌else◌, arith,
}
use localdns_go.Log.{level_debug}
use localdns_go.Log.Android.{
  TextHandler, AndroidHandler, init_handler, android_with_attrs, android_with_group, with_groups,
  prepared,
}

pub data Derivation (A : Type 0) : Type 0 where
  with_attrs : List A → Derivation A
  with_group : String → Derivation A

-- The calls on the Android handler, and the same calls on slog's text handler.
unfoldable pub derive_all : {A : Type 0} → List (Derivation A) → AndroidHandler A → AndroidHandler A
derive_all [] h = h
derive_all (with_attrs attrs ∷ ds) h = derive_all ds (android_with_attrs attrs h)
derive_all (with_group name ∷ ds) h = derive_all ds (android_with_group name h)

unfoldable pub text_derive : {E A V T : Type 0} → TextHandler E A V T → List (Derivation A) → T → T
text_derive text [] t = t
text_derive text (with_attrs attrs ∷ ds) t = text_derive text ds (text.with_attrs attrs t)
text_derive text (with_group name ∷ ds) t = text_derive text ds (text.with_group name t)

-- The calls with the attributes first.
pub attrs_of : {A : Type 0} → List (Derivation A) → List (Derivation A)
attrs_of [] = []
attrs_of (with_attrs attrs ∷ ds) = with_attrs attrs ∷ attrs_of ds
attrs_of (with_group name ∷ ds) = attrs_of ds

pub groups_of : {A : Type 0} → List (Derivation A) → List (Derivation A)
groups_of [] = []
groups_of (with_attrs attrs ∷ ds) = groups_of ds
groups_of (with_group name ∷ ds) = with_group name ∷ groups_of ds

-- What slog documents of attributes: a handler collects them, and none change nothing.
pub record CollectsAttrs {E A V T : Type 0} (text : TextHandler E A V T) : Type 0 where
  pub no_attrs : (t : T) → text.with_attrs [] t ≡ t
  pub more_attrs :
      (attrs more : List A) (t : T)
      → text.with_attrs more (text.with_attrs attrs t) ≡ text.with_attrs (attrs ++ more) t

module _ {E A V T : Type 0} (text : TextHandler E A V T) where
  text_derive-append :
      (ds es : List (Derivation A)) (t : T)
      → text_derive text (ds ++ es) t ≡ text_derive text es (text_derive text ds t)
  unfolding text_derive
  text_derive-append [] es t = refl
  text_derive-append (with_attrs attrs ∷ ds) es t =
      text_derive-append ds es (text.with_attrs attrs t)
  text_derive-append (with_group name ∷ ds) es t = text_derive-append ds es (text.with_group name t)

  with_groups-concat :
      (groups : List String) (name : String) (t : T)
      → with_groups text (groups ++ name ∷ []) t ≡ text.with_group name (with_groups text groups t)
  unfolding with_groups
  with_groups-concat [] name t = refl
  with_groups-concat (g ∷ groups) name t = with_groups-concat groups name (text.with_group g t)

  module _ (law : CollectsAttrs text) where
    prepared_lem :
        (h : AndroidHandler A)
        → prepared text h
          ≡ with_groups text h.groups (text.with_attrs h.attrs (text.fresh level_debug))
    unfolding prepared
    prepared_lem h = ap (with_groups text h.groups) (attached h.attrs)
      where
        attached :
            (attrs : List A)
            → (if ltb 0 (length attrs)
                then text.with_attrs attrs (text.fresh level_debug)
                else text.fresh level_debug)
              ≡ text.with_attrs attrs (text.fresh level_debug)
        attached [] = sym (law.no_attrs (text.fresh level_debug))
        attached (a ∷ attrs) = ground arith

    derived :
        (ds : List (Derivation A)) (h : AndroidHandler A) (t : T)
        → let h' = derive_all ds h in
          with_groups text h'.groups (text.with_attrs h'.attrs t)
          ≡ text_derive text (groups_of ds) (
              with_groups text h.groups
                (text_derive text (attrs_of ds) (text.with_attrs h.attrs t)))
    unfolding derive_all text_derive attrs_of groups_of android_with_attrs android_with_group
    derived [] h t = refl
    derived (with_attrs attrs ∷ ds) h t =
        derived ds (android_with_attrs attrs h) t
        ∙ ap
            (λ (z : T).
              text_derive text (groups_of ds)
                (with_groups text h.groups (text_derive text (attrs_of ds) z)))
            (sym (law.more_attrs h.attrs attrs t))
    derived (with_group name ∷ ds) h t =
        derived ds (android_with_group name h) t
        ∙ ap (text_derive text (groups_of ds)) (with_groups-concat h.groups name _)

    -- Given that slog's text handler collects attributes as documented: behind any calls of `WithAttrs`
    -- and `WithGroup`, the Android handler formats with the text handler on which the same calls were
    -- made in another order, those of `WithAttrs` first. So an attribute that follows a group is not
    -- qualified by it.
    pub prepared-derive_all :
        (ds : List (Derivation A))
        → prepared text (derive_all ds init_handler)
          ≡ text_derive text (attrs_of ds ++ groups_of ds) (text.fresh level_debug)
    unfolding with_groups
    prepared-derive_all ds =
        prepared_lem (derive_all ds init_handler)
        ∙ derived ds init_handler (text.fresh level_debug)
        ∙ ap
            (λ (z : T).
              text_derive text (groups_of ds)
                (with_groups text [] (text_derive text (attrs_of ds) z)))
            (law.no_attrs (text.fresh level_debug))
        ∙ sym (text_derive-append (attrs_of ds) (groups_of ds) (text.fresh level_debug))
