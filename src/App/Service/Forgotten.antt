-- ===== src/App/Service/Forgotten.antt =====
-- What forgetting a device does: `handleDeviceActions` of internal/app/app.go.
use talka.Prelude.{◌≡◌, refl, not, List, arith, if-holds}
use talka.Prelude.Bytes.{Bytes, codes, is_empty}
use talka.Prelude.Text.{trim_prefix, has_suffix}
use talka.Prelude.Dict.{delete}
use talka.Pairing.World.{Readings}
use talka.App.Service.{App, Environment, Request, Response, Device, is_post}
use talka.App.Service.Handlers.{device_to_forget, handle_device_actions}
use talka.App.Service.Phones.{resumed, answered, resume_ios_pairing, handle_ios_resume}

module _ {S W E A I : Type 0} (env : Environment S W E A I) where
  resume-devices :
      (t : Readings) (r : Request) (a : App S W A I) (l : List (Bytes × Device))
      → (handle_ios_resume env t r (record a { devices = l })).1 ≡ (handle_ios_resume env t r a).1
  unfolding handle_ios_resume resume_ios_pairing answered resumed
  resume-devices t r a l = ground arith

  abbrev Unnoticed : Readings → Request → App S W A I → App S W A I × Response → Type 0
  Unnoticed t r a q =
      (q.0.ios_sessions ≡ a.ios_sessions)
      × ((handle_ios_resume env t r q.0).1 ≡ (handle_ios_resume env t r a).1)

  -- A request to forget a device takes nothing from it but its place in the list: every phone keeps
  -- the session that it had, and is answered as before if it asks to resume.
  pub forgotten_device_resumes :
      (t : Readings) (forget r : Request) (a : App S W A I)
      → ((handle_device_actions env forget a).0.ios_sessions ≡ a.ios_sessions)
        × ((handle_ios_resume env t r (handle_device_actions env forget a).0).1
            ≡ (handle_ios_resume env t r a).1)
  unfolding handle_device_actions
  forgotten_device_resumes t forget r a =
      let path = trim_prefix forget.path (codes "/v1/devices/") in
      let listed = delete (device_to_forget env path) a.devices in
      if-holds (Unnoticed t r a) (not (has_suffix path (codes "/forget"))) (refl, refl)
        (if-holds (Unnoticed t r a) (is_empty (device_to_forget env path)) (refl, refl)
          (if-holds (Unnoticed t r a) (not (is_post forget)) (refl, refl)
            (refl, resume-devices t r a listed)))
