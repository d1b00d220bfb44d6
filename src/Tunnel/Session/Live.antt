-- ===== src/Tunnel/Session/Live.antt =====
-- What a session holds from its connecting to its end, and what is left when connecting fails.
use localdns_go.Prelude.{
  Bool, true, false, ◌≡◌, refl, ap, ◌∙◌, ◌⊎◌, inl, inr, List, [], ◌∷◌, ◌++◌, length, set,
  set-append_new, Option-cases, Result, ok, err,
}
use localdns_go.Prelude.Ints.{ℤ, pos, negsuc}
use localdns_go.Tunnel.World.{World, Failure, duplicate, make_tun_device_from_fd, close_file}
use localdns_go.Tunnel.Engine.Live.{Starts, new_engine-Starts}
use localdns_go.Tunnel.Engine.{Engine}
use localdns_go.Tunnel.Session.{SessionCalls, connect_with_resolver, on_tun, close_on_error}

module _ {R E : Type 0} where
  close_on_error-Starts :
      (r : R) (files : List Bool) (x : Result (Failure E) (Engine R) × World)
      → Starts r (length files) (files ++ true ∷ []) (files ++ true ∷ []) x
      → Starts r
          (length files)
          (files ++ true ∷ [])
          (files ++ false ∷ [])
          (close_on_error (length files) x)
  unfolding close_on_error close_file
  close_on_error-Starts r files (ok e, w) h = h
  close_on_error-Starts r files (err f, w) h =
      ap (λ z. set z (length files) false) h ∙ set-append_new files true false

  -- Connecting opens one descriptor, which the new engine holds, or leaves none open behind: it opened
  -- none, or has closed it again. os.NewFile has given a file for the descriptor.
  pub connect-Starts :
      (fd : ℤ) (r : R) (has_listener : Bool) (v : SessionCalls E) (w : World)
      → v.tun_calls.wrapped ≡ true
      → Starts r
          (length w.files)
          (w.files ++ true ∷ [])
          w.files
          (connect_with_resolver fd r has_listener v w)
        ⊎ Starts r
            (length w.files)
            (w.files ++ true ∷ [])
            (w.files ++ false ∷ [])
            (connect_with_resolver fd r has_listener v w)
  unfolding connect_with_resolver on_tun make_tun_device_from_fd duplicate
  connect-Starts (negsuc n) r has_listener v w wraps = inl refl
  connect-Starts (pos n) r has_listener v w wraps = elim (Option-cases v.tun_calls.dup) [
    | inr (e, fails) ↦ inl (rw fails refl)
    | inl works ↦ inr (
        rw (works, wraps)
          (close_on_error-Starts r w.files _ (
            new_engine-Starts r (length w.files) has_listener v.engine_calls
              (record w { files = w.files ++ true ∷ [] }))))
  ]
