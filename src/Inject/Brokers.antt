-- ===== src/Inject/Brokers.antt =====
-- The drivers of internal/inject/broker.go, which leave a paste to another program, and the driver of
-- paste_driver_darwin.go, which posts the events itself. The requests to a broker, `url.Parse` and
-- the calls of CoreGraphics are parameters; contexts and deadlines are left out.
use talka.Prelude.{
  ℕ, Bool, true, false, not, ◌&&◌, ◌||◌, leb, ◌==◌, Option, none, some, List, [], ◌∷◌, ◌++◌, Result,
  ok, err, take, if◌then◌else◌,
}
use talka.Prelude.Bytes.{Bytes, codes, is_empty}
use talka.Prelude.Text.{trim_space, trim_right}
use talka.Inject.{Key, KeyModifier, KeyPressRequest, PasteDriver}
use talka.Inject.Drivers.{DriverError, broker_answer}

pub record BrokerPasteRequest : Type 0 where
  pub op : Bytes
  pub key : Bytes
  pub modifiers : List Bytes

pub record BrokerPasteResponse : Type 0 where
  pub ok_field : Bool
  pub error : Bytes

pub record HttpAnswer : Type 0 where
  pub status_code : ℕ
  pub status : Bytes
  pub body : Bytes

-- What `url.Parse` gives, and its `String`.
pub record Url : Type 0 where
  pub scheme : Bytes
  pub host : Bytes
  pub whole : Bytes

abbrev key_name : Key → Bytes
key_name Key.enter = codes "enter"
key_name (Key.other_key k) = k

abbrev modifier_name : KeyModifier → Bytes
modifier_name KeyModifier.command = codes "cmd"
modifier_name KeyModifier.alt = codes "alt"
modifier_name KeyModifier.shift = codes "shift"
modifier_name (KeyModifier.other_modifier m) = m

-- The names of the modifiers of a request.
abbrev modifier_names : List KeyModifier → List Bytes
modifier_names [] = []
modifier_names (m ∷ ms) = modifier_name m ∷ modifier_names ms

-- A request to the socket at a path, and a request by POST to an address; the errors are those of the
-- connection and of JSON.
pub record Brokers (W X : Type 0) : Type 0 where
  pub socket : Bytes → BrokerPasteRequest → W → W × Result X BrokerPasteResponse
  pub post : Bytes → W → W × Result X HttpAnswer
  pub parse : Bytes → Option Url

abbrev pub answered : {X : Type 0} → Result X BrokerPasteResponse → Option (DriverError X)
answered (err e) = some (DriverError.command_failed e [])
answered (ok r) = broker_answer r.ok_field r.error

-- The statuses of `brokerPasteDriver.Paste`.
unfoldable pub http_answered : {X : Type 0} → Result X HttpAnswer → Option (DriverError X)
http_answered (err e) = some (DriverError.command_failed e [])
http_answered (ok r) =
    let said = trim_space (take 1024 r.body) in
    if r.status_code == 403
    then some (DriverError.accessibility_permission_denied said)
    else if not (leb 200 r.status_code && leb r.status_code 299)
    then some (DriverError.broker_returned (r.status ++ (codes ": " ++ said)))
    else none

module _ {W X : Type 0} (brokers : Brokers W X) where
  -- `requestEnvelope`.
  unfoldable pub request_envelope : Bytes → BrokerPasteRequest → W → W × Option (DriverError X)
  request_envelope path request w = let (w', r) = brokers.socket path request w in (w', answered r)

  abbrev operation : Bytes → BrokerPasteRequest
  operation op = record { op = op; key = []; modifiers = [] }

  -- `KeyPress` of the socket's driver.
  unfoldable pub socket_key_press : Bytes → KeyPressRequest → W → W × Option (DriverError X)
  socket_key_press path r = request_envelope path (record {
    op = codes "key_press";
    key = key_name r.key;
    modifiers = modifier_names r.modifiers;
  })

  unfoldable pub socket_broker_paste_driver : Bytes → PasteDriver W (DriverError X)
  socket_broker_paste_driver path = record {
    paste = request_envelope path (operation (codes "paste"));
    preflight = some (request_envelope path (operation (codes "preflight")));
    key_press = some (socket_key_press path);
  }

  unfoldable pub new_socket_broker_paste_driver : Bytes → Option (PasteDriver W (DriverError X))
  new_socket_broker_paste_driver path =
      if is_empty (trim_space path)
      then none
      else some (socket_broker_paste_driver (trim_space path))

  -- `brokerPasteDriver.Paste`.
  unfoldable pub http_paste : Bytes → W → W × Option (DriverError X)
  http_paste base_url w =
      let (w', r) = brokers.post (base_url ++ codes "/paste") w in (w', http_answered r)

  unfoldable pub new_broker_paste_driver : Bytes → Option (PasteDriver W (DriverError X))
  new_broker_paste_driver raw_url = elim (brokers.parse (trim_space raw_url)) [
    | none ↦ none
    | some url ↦
        if is_empty url.scheme || is_empty url.host
        then none
        else some (record {
          paste = http_paste (trim_right b'/' url.whole);
          preflight = none;
          key_press = none;
        })
  ]

  unfoldable pub default_broker_paste_driver :
      Bytes → Bytes → Option (PasteDriver W (DriverError X))
  default_broker_paste_driver path raw_url = elim (new_socket_broker_paste_driver path) [
    | some driver ↦ some driver
    | none ↦ new_broker_paste_driver raw_url
  ]

-- The three bits of `CGEventFlags` that the driver sets.
pub record EventFlags : Type 0 where
  pub command : Bool
  pub alternate : Bool
  pub shift : Bool

abbrev pub no_flags : EventFlags
no_flags = record { command = false; alternate = false; shift = false }

-- The loop over the modifiers, with the flags so far.
unfoldable pub flags_of :
    {X : Type 0} → EventFlags → List KeyModifier → Result (DriverError X) EventFlags
flags_of flags [] = ok flags
flags_of flags (KeyModifier.command ∷ ms) = flags_of (record flags { command = true }) ms
flags_of flags (KeyModifier.alt ∷ ms) = flags_of (record flags { alternate = true }) ms
flags_of flags (KeyModifier.shift ∷ ms) = flags_of (record flags { shift = true }) ms
flags_of flags (KeyModifier.other_modifier m ∷ ms) =
    err (DriverError.unsupported_modifier (KeyModifier.other_modifier m))

-- `talka_ax_trusted`, `talka_post_command_v` and `talka_post_key`.
pub record Events (W : Type 0) : Type 0 where
  pub ax_trusted : W → Bool
  pub post_command_v : W → W
  pub post_key : ℕ → EventFlags → W → W

module _ {W X : Type 0} (events : Events W) where
  unfoldable pub native_preflight : W → W × Option (DriverError X)
  native_preflight w = (
    w,
    if events.ax_trusted w then none else some (DriverError.accessibility_permission_denied []),
  )

  unfoldable pub native_paste : W → W × Option (DriverError X)
  native_paste w =
      if events.ax_trusted w
      then (events.post_command_v w, none)
      else (w, some (DriverError.accessibility_permission_denied []))

  abbrev posted : W → Result (DriverError X) EventFlags → W × Option (DriverError X)
  posted w (err e) = (w, some e)
  posted w (ok flags) = (events.post_key 36 flags w, none)

  unfoldable pub native_key_press : KeyPressRequest → W → W × Option (DriverError X)
  native_key_press r w =
      if not (events.ax_trusted w)
      then (w, some (DriverError.accessibility_permission_denied []))
      else elim r.key [
        | Key.other_key k ↦ (w, some (DriverError.unsupported_key (Key.other_key k)))
        | Key.enter ↦ posted w (flags_of no_flags r.modifiers)
      ]

  unfoldable pub native_paste_driver : PasteDriver W (DriverError X)
  native_paste_driver = record {
    paste = native_paste;
    preflight = some native_preflight;
    key_press = some native_key_press;
  }

-- `defaultPasteDriver`, by the two variables of the environment.
unfoldable pub default_paste_driver :
    {W X : Type 0} → Brokers W X → Events W → Bytes → Bytes → PasteDriver W (DriverError X)
default_paste_driver brokers events socket raw_url =
    elim (default_broker_paste_driver brokers socket raw_url) [
      | some driver ↦ driver
      | none ↦ native_paste_driver events
    ]
