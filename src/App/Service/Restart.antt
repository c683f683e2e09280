-- ===== src/App/Service/Restart.antt =====
-- Changes of the configuration through internal/app/app.go: they last, and what they leave behind
-- in the pairing manager.
use talka.Prelude.{
  ◌≡◌, refl, sym, ap, subst, ◌∙◌, false, Option, none, some, ok, arith, inl, inr, Result-cases,
  List-cases,
}
use talka.Prelude.Bytes.{codes, is_empty}
use talka.Config.{Config, validate}
use talka.Config.Files
use talka.Config.Files.{load, save}
use talka.Config.Files.Saved.{FilesLaws, load-save}
use talka.App.Build.{Parts}
use talka.App.Service.{App, Environment, Request, Response, Payload}
use talka.App.Service.Settings.{
  build, config_error, config_saved, update_config, put_config, handle_config,
}

module _ {S W E A I : Type 0} (env : Environment S W E A I) where
  -- What a request to change the configuration to `c` has done if it is answered with 200.
  abbrev pub Lasts : Config → App S W A I → App S W A I × Response → Type 0
  Lasts c a (b, reply) =
      (b.cfg ≡ c)
      × (load env.unicode env.files a.config_path b.outside ≡ ok c)
      × (reply.payload ≡ Payload.config_payload a.config_path c)

  config_saved-Lasts :
      (c : Config) (parts : Parts A I) (a : App S W A I) (laws : FilesLaws env.files c)
      (q : W × Option (Files.Error E))
      → save env.unicode env.files a.config_path c a.outside ≡ q
      → is_empty a.config_path ≡ false
      → ((config_saved env c parts q a).1.status ≡ 200)
      → Lasts c a (config_saved env c parts q a)
  unfolding config_saved update_config
  config_saved-Lasts c parts a laws (w, some e) done named ok' = absurd (ground (arith, ok'))
  config_saved-Lasts c parts a laws (w, none) done named ok' =
      let saved = load-save env.unicode env.files a.config_path c laws a.outside named in
      (refl, ground (arith, done, saved), refl)

  put_config-Lasts :
      (c : Config) (a : App S W A I) (laws : FilesLaws env.files c)
      → is_empty a.config_path ≡ false
      → (put_config env c a).1.status ≡ 200
      → Lasts c a (put_config env c a)
  unfolding put_config config_error
  put_config-Lasts c a laws named done =
      elim (List-cases (validate env.unicode (env.files.stat a.outside) c a.config_dir)) [
        | inr (issue, issues, q) ↦ absurd (ground (arith, q, done))
        | inl q ↦ elim (Result-cases (build env c a.config_dir)) [
          | inl (e, k) ↦ absurd (ground (arith, q, k, done))
          | inr (parts, k) ↦
              rw (q, k, put_config)
                (config_saved-Lasts c parts a laws _ refl named (ground (arith, q, k, done)))
        ]
      ]

  -- With files and YAML that behave as documented: a request to change the configuration that is
  -- answered with 200 has made it the current one and has answered with it, and a service that starts
  -- again under the same path, which is not empty, loads it.
  pub handle_config-Lasts :
      (r : Request) (c : Config) (a : App S W A I) (laws : FilesLaws env.files c)
      → r.method ≡ codes "PUT"
      → env.decode_config r.body ≡ some c
      → is_empty a.config_path ≡ false
      → (handle_config env r a).1.status ≡ 200
      → Lasts c a (handle_config env r a)
  unfolding handle_config
  handle_config-Lasts r c a laws put body named done =
      let asked : handle_config env r a ≡ put_config env c a = rw (put, body) refl in
      subst (Lasts c a) (sym asked) (
        put_config-Lasts c a laws named
          (ap (λ (q : App S W A I × Response). q.1.status) (sym asked) ∙ done))
