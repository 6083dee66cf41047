-- ===== src/Auth/Rotation.antt =====
-- A new certificate is taken up, once, at the first check at which it can be read and loaded.
use atlax.Base.{
  ◌≡◌, ◌≢◌, ◌⊎◌, inl, inr, refl, ap, ◌∙◌, Bytes, bytes_eq, bytes_eq_iff, true, false, List, [], ◌∷◌,
  ◌++◌, Option, none, some, All, Bool-cases, if_cases, if_of_true, if_of_false,
}
use atlax.Auth.{
  Files, CryptoLibrary, TlsPaths, Watcher, load_certificate, reload, cert_fingerprint, rotate,
  compare_fingerprint, watch_tick, watch,
}

module _ {Cert Pool : Type 0} (lib : CryptoLibrary Cert Pool) (paths : TlsPaths) where
  -- A check, with the files at its two readings, that takes nothing up after the content `fp`: it cannot
  -- read the certificate, reads this content, or cannot load.
  abbrev pub Fails : Bytes → Files × Files → Type 0
  Fails fp (files, files') =
      (cert_fingerprint lib files paths.cert_file ≡ none)
      ⊎ ((cert_fingerprint lib files paths.cert_file ≡ some fp)
          ⊎ (load_certificate lib files' paths.cert_file paths.key_file ≡ none))

  bytes_eq_refl : (b : Bytes) → bytes_eq b b ≡ true
  bytes_eq_refl b = (bytes_eq_iff b b).1 refl

  different : (a b : Bytes) → a ≢ b → bytes_eq a b ≡ false
  different a b d = elim (Bool-cases (bytes_eq a b)) [
    | inl e ↦ absurd (d ((bytes_eq_iff a b).0 e))
    | inr e ↦ e
  ]

  rotate_none :
      (w : Watcher Cert) (files : Files) (o : Option Bytes)
      → load_certificate lib files paths.cert_file paths.key_file ≡ none
      → compare_fingerprint lib w paths files o ≡ w
  unfolding compare_fingerprint rotate
  rotate_none w files none h = refl
  rotate_none w files (some fp) h =
      rw h (if_cases (λ x. x ≡ w) (bytes_eq fp w.last_fingerprint) w w refl refl)

  tick-Fails :
      (w : Watcher Cert) (t : Files × Files)
      → Fails w.last_fingerprint t
      → watch_tick lib w paths t.0 t.1 ≡ w
  unfolding watch_tick
  tick-Fails w (files, files') (inl h) = rw h (unfold compare_fingerprint in refl)
  tick-Fails w (files, files') (inr (inl h)) = rw h (
      unfold compare_fingerprint in
      if_of_true (λ x. x ≡ w) w _ (bytes_eq_refl w.last_fingerprint) refl)
  tick-Fails w (files, files') (inr (inr h)) = rotate_none w files' _ h

  watch-Fails :
      (w : Watcher Cert) (ticks : List (Files × Files))
      → All (Fails w.last_fingerprint) ticks
      → watch lib w paths ticks ≡ w
  unfolding watch
  watch-Fails w [] h = refl
  watch-Fails w (t ∷ ticks) h = rw (tick-Fails w t h.0) (watch-Fails w ticks h.1)

  watch-append :
      (w : Watcher Cert) (before after : List (Files × Files))
      → watch lib w paths (before ++ after) ≡ watch lib (watch lib w paths before) paths after
  unfolding watch
  watch-append w [] after = refl
  watch-append w (t ∷ before) after = watch-append (watch_tick lib w paths t.0 t.1) before after

  tick_rotates :
      (w : Watcher Cert) (files files' : Files) (fp : Bytes) (cert : Cert)
      → cert_fingerprint lib files paths.cert_file ≡ some fp
      → fp ≢ w.last_fingerprint
      → load_certificate lib files' paths.cert_file paths.key_file ≡ some cert
      → watch_tick lib w paths files files'
        ≡ record { last_fingerprint = fp; configurator = record { current_cert = some cert } }
  unfolding watch_tick compare_fingerprint rotate reload
  tick_rotates w files files' fp cert h d l =
      let w' : Watcher Cert = record {
        last_fingerprint = fp;
        configurator = record { current_cert = some cert };
      } in
      rw (h, l) (if_of_false (λ x. x ≡ w') w _ (different fp w.last_fingerprint d) refl)

  -- A new certificate is in place from the first check on at which its file is read as something else
  -- than the content last taken up and the certificate loads, whatever checks failed before, and later
  -- checks that read the same content, or fail, leave it there.
  pub watch-rotates :
      (w : Watcher Cert) (before after : List (Files × Files)) (files files' : Files) (fp : Bytes)
      (cert : Cert)
      → All (Fails w.last_fingerprint) before
      → cert_fingerprint lib files paths.cert_file ≡ some fp
      → fp ≢ w.last_fingerprint
      → load_certificate lib files' paths.cert_file paths.key_file ≡ some cert
      → All (Fails fp) after
      → watch lib w paths (before ++ ((files, files') ∷ after))
        ≡ record { last_fingerprint = fp; configurator = record { current_cert = some cert } }
  unfolding watch
  watch-rotates w before after files files' fp cert b h d l a =
      let w' : Watcher Cert = record {
        last_fingerprint = fp;
        configurator = record { current_cert = some cert };
      } in
      watch-append w before ((files, files') ∷ after)
      ∙ ap (λ x. watch lib x paths ((files, files') ∷ after)) (watch-Fails w before b)
      ∙ ap (λ x. watch lib x paths after) (tick_rotates w files files' fp cert h d l)
      ∙ watch-Fails w' after a
