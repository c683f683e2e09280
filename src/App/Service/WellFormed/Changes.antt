-- ===== src/App/Service/WellFormed/Changes.antt =====
-- The changes of the state of the service that keep its invariant.
use talka.Prelude.{
  ℕ, ◌≡◌, refl, ap, Option, none, some, List, Result, ok, err, arith, length, get_elem?-last,
}
use talka.Prelude.Bytes.{Bytes}
use talka.Prelude.Dict.{delete, insert-Every, delete-Every}
use talka.Pairing
use talka.Pairing.{PendingPairing, StartResponse, PairingResult}
use talka.Pairing.World.{World}
use talka.Pairing.Pending.{shown, Started, Completed}
use talka.Config.{Config}
use talka.Session.{StateMachine}
use talka.App.Service.Connections.{put_machine, held_for_a_while}
use talka.App.Pipelines.{Pipelines, retain, release, retire, set_pipeline}
use talka.App.Build.{Parts}
use talka.App.Service.{App, Environment, Request, ComponentReadiness}
use talka.App.Service.Handlers.{pairing_started}
use talka.App.Service.Settings.{build, replace_pipeline, update_config}
use talka.App.Service.Phones.{connect, completed, resumed}
use talka.App.Service.WellFormed.{IsListed, IsOwned, WellFormed}

module _ {S W E A I : Type 0} (env : Environment S W E A I) where
  pub start-WellFormed :
      (a : App S W A I) (q : World S × Result Pairing.Error StartResponse)
      → WellFormed env a
      → Started a.manager q
      → WellFormed env (pairing_started env q a).0
  unfolding pairing_started
  start-WellFormed a (w, ok s) v h = record {
    listed = v.listed;
    owned = v.owned;
    announced = record { challenged = ground (arith, h); displayed = refl };
    configured = v.configured;
  }
  start-WellFormed a (w, err e) v h = record {
    listed = v.listed;
    owned = v.owned;
    announced = rw h v.announced;
    configured = v.configured;
  }

  -- What a failed call leaves, if the pairing is shown as before.
  pub manager-WellFormed :
      (a : App S W A I) (w : World S)
      → WellFormed env a
      → shown w.pending ≡ shown a.manager.pending
      → WellFormed env (record a { manager = w })
  manager-WellFormed a w v h = record {
    listed = v.listed;
    owned = v.owned;
    announced = record {
      challenged = ground (arith, h, v.announced.challenged);
      displayed = v.announced.displayed;
    };
    configured = v.configured;
  }

  pub connect-WellFormed :
      (a : App S W A I) (p : PairingResult) → WellFormed env a → WellFormed env (connect p a)
  unfolding connect
  connect-WellFormed a p v = record {
    listed = insert-Every IsListed p.client_device_id _ a.devices (refl, refl) v.listed;
    owned = insert-Every IsOwned p.client_device_id _ a.ios_sessions refl v.owned;
    announced = v.announced;
    configured = v.configured;
  }

  pub completed-WellFormed :
      (a : App S W A I) (r : Request) (q : World S × Result Pairing.Error PairingResult)
      → WellFormed env a
      → Completed a.manager q
      → WellFormed env (completed r q a).0
  unfolding completed connect
  completed-WellFormed a r (w, err e) v h = manager-WellFormed a w v h
  completed-WellFormed a r (w, ok p) v h =
      let u = connect-WellFormed a p v in
      record {
        listed = u.listed;
        owned = u.owned;
        announced = record { challenged = ground (arith, h); displayed = refl };
        configured = v.configured;
      }

  pub resumed-WellFormed :
      (a : App S W A I) (r : Request) (q : World S × Result Pairing.Error PairingResult)
      → WellFormed env a
      → q.0.pending ≡ a.manager.pending
      → WellFormed env (resumed r q a).0
  unfolding resumed
  resumed-WellFormed a r (w, err e) v h = manager-WellFormed a w v (ap shown h)
  resumed-WellFormed a r (w, ok p) v h =
      connect-WellFormed (record a { manager = w }) p (manager-WellFormed a w v (ap shown h))

  replace-current : (n : ℕ) (p : Pipelines) → (replace_pipeline env n p).current ≡ some n
  unfolding replace_pipeline retire set_pipeline
  replace-current n p = ground arith

  pub update_config-WellFormed :
      (a : App S W A I) (c : Config) (parts : Parts A I)
      → WellFormed env a
      → build env c a.config_dir ≡ ok parts
      → WellFormed env (update_config env c parts a)
  unfolding update_config
  update_config-WellFormed a c parts v b = record {
    listed = v.listed;
    owned = v.owned;
    announced = v.announced;
    configured = record {
      parts = parts;
      asked = b;
      in_use = rw (replace-current (length a.built) a.pipelines, get_elem?-last a.built parts) refl;
    };
  }

  -- Nothing of it depends on the readiness of the parts, nor on what is outside.
  pub around-WellFormed :
      (a : App S W A I) (asr ollama : ComponentReadiness) (w : W)
      → WellFormed env a
      → WellFormed env (record a { asr_status = asr; ollama_status = ollama; outside = w })
  around-WellFormed a asr ollama w v = record {
    listed = v.listed;
    owned = v.owned;
    announced = v.announced;
    configured = v.configured;
  }

  pub forget-WellFormed :
      (a : App S W A I) (id : Bytes)
      → WellFormed env a
      → WellFormed env (record a { devices = delete id a.devices })
  forget-WellFormed a id v = record {
    listed = delete-Every IsListed id a.devices v.listed;
    owned = v.owned;
    announced = v.announced;
    configured = v.configured;
  }

  pub connections-WellFormed :
      (a : App S W A I) (conns : List ℕ)
      → WellFormed env a
      → WellFormed env (record a { ios_audio_conns = conns })
  connections-WellFormed a conns v = record {
    listed = v.listed;
    owned = v.owned;
    announced = v.announced;
    configured = v.configured;
  }

  pub put_machine-WellFormed :
      (id : Bytes) (m : Option StateMachine) (a : App S W A I)
      → WellFormed env a
      → WellFormed env (put_machine id m a)
  unfolding put_machine
  put_machine-WellFormed id none a v = v
  put_machine-WellFormed id (some m) a v = record {
    listed = v.listed;
    owned = insert-Every IsOwned id _ a.ios_sessions refl v.owned;
    announced = v.announced;
    configured = v.configured;
  }

  held-current :
      (m : Option StateMachine) (p : Pipelines) → (held_for_a_while m p).current ≡ p.current
  unfolding held_for_a_while retain release
  held-current m p = ground arith

  pub held-WellFormed :
      (a : App S W A I) (m : Option StateMachine) (w : W)
      → WellFormed env a
      → WellFormed env (record a { outside = w; pipelines = held_for_a_while m a.pipelines })
  held-WellFormed a m w v = record {
    listed = v.listed;
    owned = v.owned;
    announced = v.announced;
    configured = record {
      parts = v.configured.parts;
      asked = v.configured.asked;
      in_use = rw (held-current m a.pipelines) v.configured.in_use;
    };
  }
