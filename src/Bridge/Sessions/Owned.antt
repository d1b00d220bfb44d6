-- ===== src/Bridge/Sessions/Owned.antt =====
-- Which session holds which descriptor.
use localdns_go.Prelude.{
  ℕ, ◌≡◌, ◌≢◌, sym, ap, ◌∙◌, subst, ◌⊎◌, inl, inr, Bool, true, false, none, some, List, [], ◌∷◌,
  ◌++◌, length, set, get_elem?, get_elem?-append_old, get_elem?-append_new, get_elem?-append_one,
  get_elem?-length, get_elem?-set_other, get_elem?-set_ne, some_eq, ◌==◌, Bool-cases, ==_iff, arith,
}
use localdns_go.Prelude.Maps.{
  lookup, put, remove, lookup-put_cases, lookup-remove_cases, lookup-put_self, lookup-put_ne,
  lookup-remove_ne,
}
use localdns_go.Tunnel.Engine.{Engine}
use localdns_go.Tunnel.Engine.Live.{IsLive}

module _ {R : Type 0} where
  live_file : (r r' : R) (i j : ℕ) (e : Engine R) → IsLive r i e → IsLive r' j e → i ≡ j
  live_file r r' i j e p q = cc (p.has_tun, q.has_tun)

  -- The session behind a handle runs on this descriptor.
  abbrev pub Holds : List (ℕ × Engine R) → ℕ → ℕ → Type 0
  Holds m h file = (e : Engine R) × (r : R) × (lookup ◌==◌ h m ≡ some e) × IsLive r file e

  -- The open descriptors are those of the sessions, one each.
  pub record IsOwned (files : List Bool) (m : List (ℕ × Engine R)) : Type 0 where
    pub live :
        (h : ℕ) (e : Engine R)
        → lookup ◌==◌ h m ≡ some e
        → (r : R) × (file : ℕ) × IsLive r file e × (get_elem? files file ≡ some true)
    pub owner : (file : ℕ) → get_elem? files file ≡ some true → (h : ℕ) × Holds m h file
    pub alone : (h k file : ℕ) → Holds m h file → Holds m k file → h ≡ k

  Holds-put :
      (m : List (ℕ × Engine R)) (h k file : ℕ) (e : Engine R)
      → Holds (put ◌==◌ h e m) k file
      → ((h ≡ k) × (r : R) × IsLive r file e) ⊎ ((h ≢ k) × Holds m k file)
  Holds-put m h k file e (e', r, found, l) = elim (lookup-put_cases h k e e' m found) [
    | inl (same, q) ↦ inl (same, r, subst (λ z. IsLive r file z) (sym q) l)
    | inr (other, before) ↦ inr (other, (e', r, before, l))
  ]

  -- A descriptor that was opened and closed again changes nothing.
  pub IsOwned-closed :
      (files : List Bool) (m : List (ℕ × Engine R))
      → IsOwned files m
      → IsOwned (files ++ false ∷ []) m
  IsOwned-closed files m o = record {
    live = λ h e found.
        let (r, file, l, up) = o.live h e found in
        (r, file, l, get_elem?-append_old files (false ∷ []) file true up);
    owner = λ file up. elim (get_elem?-append_one files false file true up) [
      | inl old ↦ o.owner file old
      | inr (_, wrong) ↦ cc
    ];
    alone = o.alone;
  }

  -- A new session with a new descriptor, under a handle that is not in use.
  pub IsOwned-put_new :
      (files : List Bool) (m : List (ℕ × Engine R)) (h : ℕ) (r : R) (e : Engine R)
      → IsOwned files m
      → lookup ◌==◌ h m ≡ none
      → IsLive r (length files) e
      → IsOwned (files ++ true ∷ []) (put ◌==◌ h e m)
  IsOwned-put_new files m h r e o fresh l = record {
    live = λ k e' found. elim (lookup-put_cases h k e e' m found) [
      | inl (_, same) ↦ (
        r,
        length files,
        subst (λ z. IsLive r (length files) z) same l,
        get_elem?-append_new files true,
      )
      | inr (_, before) ↦
          let (r', file, l', up) = o.live k e' before in
          (r', file, l', get_elem?-append_old files (true ∷ []) file true up)
    ];
    owner = λ file up. elim (get_elem?-append_one files true file true up) [
      | inr (new, _) ↦ (h, (e, r, lookup-put_self h e m, subst (λ z. IsLive r z e) (sym new) l))
      | inl old ↦
          let (k, (e', r', found, l')) = o.owner file old in
          (k, (e', r', lookup-put_ne h k e m (λ q. cc) ∙ found, l'))
    ];
    alone = λ k k' file a b. elim (Holds-put m h k file e a) [
      | inl (p, r1, l1) ↦ elim (Holds-put m h k' file e b) [
        | inl (q, _, _) ↦ sym p ∙ q
        | inr (_, old) ↦ absurd (no_file_yet file k' old r1 l1)
      ]
      | inr (_, old) ↦ elim (Holds-put m h k' file e b) [
        | inl (q, r1, l1) ↦ absurd (no_file_yet file k old r1 l1)
        | inr (_, old') ↦ o.alone k k' file old old'
      ]
    ];
  }
    where
      no_file_yet : (file k : ℕ) → Holds m k file → (r1 : R) → IsLive r1 file e → ⊥
      no_file_yet file k (e', r', found, l') r1 l1 =
          let (r2, file2, l2, up) = o.live k e' found in
          let same = live_file r1 r file (length files) e l1 l in
          let same2 = live_file r' r2 file file2 e' l' l2 in
          get_elem?-length files true
            (subst (λ z. get_elem? files z ≡ some true) (sym same2 ∙ same) up)

  -- Another resolver for a session.
  pub IsOwned-put_same :
      (files : List Bool) (m : List (ℕ × Engine R)) (h : ℕ) (r : R) (e e' : Engine R)
      → IsOwned files m
      → lookup ◌==◌ h m ≡ some e
      → ((s : R) (file : ℕ) → IsLive s file e → IsLive r file e')
      → IsOwned files (put ◌==◌ h e' m)
  IsOwned-put_same files m h r e e' o found keeps = record {
    live = λ k e1 there. elim (lookup-put_cases h k e' e1 m there) [
      | inl (_, same) ↦
          let (s, file, l, up) = o.live h e found in
          (r, file, subst (λ z. IsLive r file z) same (keeps s file l), up)
      | inr (_, before) ↦ o.live k e1 before
    ];
    owner = λ file up.
        let (k, (e1, s, there, l)) = o.owner file up in
        elim (Bool-cases (h == k)) [
          | inl same ↦
              let q : h ≡ k = (==_iff h k).0 same in
              let same_engine : e1 ≡ e =
                some_eq (sym there ∙ ap (λ z. lookup ◌==◌ z m) (sym q) ∙ found) in
              (
                h,
                (
                  e',
                  r,
                  lookup-put_self h e' m,
                  keeps s file (subst (λ z. IsLive s file z) same_engine l),
                ),
              )
          | inr other ↦ (k, (e1, s, lookup-put_ne h k e' m (λ q. ground arith) ∙ there, l))
        ];
    alone = λ k k' file a b. o.alone k k' file (earlier k file a) (earlier k' file b);
  }
    where
      earlier : (k file : ℕ) → Holds (put ◌==◌ h e' m) k file → Holds m k file
      earlier k file a = elim (Holds-put m h k file e' a) [
        | inr (_, old) ↦ old
        | inl (q, r1, l1) ↦
            let (s, file2, l2, _) = o.live h e found in
            let same = live_file r r1 file2 file e' (keeps s file2 l2) l1 in
            (e, s, ap (λ z. lookup ◌==◌ z m) (sym q) ∙ found, subst (λ z. IsLive s z e) same l2)
      ]

  -- The end of a session.
  pub IsOwned-remove :
      (files : List Bool) (m : List (ℕ × Engine R)) (h file : ℕ)
      → IsOwned files m
      → Holds m h file
      → IsOwned (set files file false) (remove ◌==◌ h m)
  IsOwned-remove files m h file o held = record {
    live = λ k e there.
        let (other, before) = lookup-remove_cases h k e m there in
        let (r, file2, l, up) = o.live k e before in
        (
          r,
          file2,
          l,
          get_elem?-set_ne files {i = file} {j = file2} false (λ q.
                other (o.alone h k file held (e, r, before, subst (λ z. IsLive r z e) (sym q) l)))
              ∙ up,
        );
    owner = λ file2 up.
        let (other, before) = get_elem?-set_other files file file2 false true (λ q. cc) up in
        let (k, (e, r, there, l)) = o.owner file2 before in
        (
          k,
          (
            e,
            r,
            lookup-remove_ne h k m (λ q. other (one_file k file2 q (e, r, there, l))) ∙ there,
            l,
          ),
        );
    alone = λ k k' f a b. o.alone k k' f (earlier k f a) (earlier k' f b);
  }
    where
      earlier : (k f : ℕ) → Holds (remove ◌==◌ h m) k f → Holds m k f
      earlier k f (e, r, there, l) = (e, r, (lookup-remove_cases h k e m there).1, l)

      one_file : (k file2 : ℕ) → h ≡ k → Holds m k file2 → file ≡ file2
      one_file k file2 q (e2, r2, there, l2) =
          let (e1, r1, found, l1) = held in
          let same : e2 ≡ e1 = some_eq (sym there ∙ ap (λ z. lookup ◌==◌ z m) (sym q) ∙ found) in
          live_file r1 r2 file file2 e1 l1 (subst (λ z. IsLive r2 file2 z) same l2)
