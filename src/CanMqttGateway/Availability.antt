-- ===== src/CanMqttGateway/Availability.antt =====
-- What the server is told of a client's availability.
use can_systems.Prelude.{
  ℕ, ◌-◌, ◌%◌, ◌^◌, ◌≤◌, ◌≡◌, ◌↔◌, refl, sym, ap, ap₂, ◌∙◌, arith, Bool, true, not, ◌&&◌, List, [],
  ◌∷◌, Option, none, some, All,
}
use can_systems.Common.Time.{has_elapsed, elapsed_since, sec_to_ms}
use can_systems.CanProtocol.Frame.{CanFrame}
use can_systems.CanCommissioner.{Handler}
use can_systems.OtaRegistry.{OtaRegistry}
use can_systems.CanOta.Driver.{FileSystem}
use can_systems.CanOta.{Env}
use can_systems.CanMqttGateway.{
  CanMqttGateway, Published, client_offline_time, client_online_actual, send_can_frame, publish,
  init, ping, handle_ping, restarted, version_arrived, dispatch, can_frame_arrived_callback,
  start_batch, run_transfer, run, request_can_id_change,
}

-- The newest availability among what was published.
unfoldable pub last_told : List Published → Option Bool
last_told [] = none
last_told (Published.availability b ∷ rest) = some b
last_told (Published.info a b c d ∷ rest) = last_told rest
last_told (Published.button n ∷ rest) = last_told rest
last_told (Published.discovery ∷ rest) = last_told rest

module _ (fs : FileSystem) where
  open fs use {File}

  -- Whatever else the gateway's tasks bring: a frame, a pass with what opening the file would give and
  -- any registry, or a request for an address.
  pub data Event : Type 0 where
    arrives : Env → CanFrame → Event
    passes : Env → Bool → Option File → OtaRegistry → Event
    asks : Env → Handler → ℕ → Event

  unfoldable pub step : CanMqttGateway fs → Event → CanMqttGateway fs
  step s (Event.arrives env f) = can_frame_arrived_callback fs env s f
  step s (Event.passes env run_local opened r) = (run fs env run_local s opened r).1
  step s (Event.asks env h id) = (request_can_id_change fs env h s id).1

  unfoldable pub steps : CanMqttGateway fs → List Event → CanMqttGateway fs
  unfolding step
  steps s [] = s
  steps s (e ∷ es) = steps (step s e) es

  abbrev pub Told : CanMqttGateway fs → Type 0
  Told s = last_told s.published ≡ some s.client_online

  handle_ping-Told : (env : Env) (s : CanMqttGateway fs) → Told s → Told (handle_ping fs env s)
  unfolding handle_ping ping publish last_told send_can_frame
  handle_ping-Told env s h = ground arith

  pub run-same :
      (env : Env) (run_local : Bool) (s : CanMqttGateway fs) (opened : Option File)
      (r : OtaRegistry)
      → let t = (run fs env run_local s opened r).1 in
        let s' = handle_ping fs env s in
        (t.published ≡ s'.published)
        × (t.client_online ≡ s'.client_online)
        × (t.client_ever_seen ≡ s'.client_ever_seen)
        × (t.client_offline_timer ≡ s'.client_offline_timer)
  unfolding run run_transfer start_batch
  run-same env run_local s opened r = (ground arith, ground arith, ground arith, ground arith)

  dispatch-Told :
      (env : Env) (s : CanMqttGateway fs) (f : CanFrame) → Told s → Told (dispatch fs env s f)
  unfolding dispatch restarted version_arrived publish last_told send_can_frame
  dispatch-Told env s f h = ground arith

  request-same :
      (env : Env) (hd : Handler) (s : CanMqttGateway fs) (id : ℕ)
      → let t = (request_can_id_change fs env hd s id).1 in
        (t.published ≡ s.published)
        × (t.client_online ≡ s.client_online)
        × (t.client_ever_seen ≡ s.client_ever_seen)
        × (t.client_offline_timer ≡ s.client_offline_timer)
  unfolding request_can_id_change send_can_frame
  request-same env hd s id = (ground arith, ground arith, ground arith, ground arith)

  step-Told : (s : CanMqttGateway fs) (e : Event) → Told s → Told (step s e)
  unfolding step can_frame_arrived_callback
  step-Told s (Event.arrives env f) h =
      dispatch-Told env
        (record s {
          client_ping_timer = env.now;
          client_offline_timer = env.now;
          client_ever_seen = true;
        })
        f h
  step-Told s (Event.passes env run_local opened r) h =
      let (told, online, _, _) = run-same env run_local s opened r in
      ap last_told told ∙ handle_ping-Told env s h ∙ ap some (sym online)
  step-Told s (Event.asks env hd id) h =
      let (told, online, _, _) = request-same env hd s id in
      ap last_told told ∙ h ∙ ap some (sym online)

  steps-Told : (s : CanMqttGateway fs) (es : List Event) → Told s → Told (steps s es)
  unfolding steps
  steps-Told s [] h = h
  steps-Told s (e ∷ es) h = steps-Told (step s e) es (step-Told s e h)

  -- From `init` on, whatever frames arrive, passes run and addresses are asked for, in any order and at
  -- any times: the availability that the server was told last is that which the gateway goes by.
  pub steps-init :
      (env : Env) (init_local : Bool) (s : CanMqttGateway fs) (es : List Event)
      → let s' = steps (init fs env init_local s).1 es in
        last_told s'.published ≡ some s'.client_online
  unfolding init publish last_told
  steps-init env init_local s es = steps-Told (init fs env init_local s).1 es refl

  -- No frame.
  unfoldable pub IsQuiet : Event → Type 0
  IsQuiet (Event.arrives env f) = ⊥
  IsQuiet (Event.passes env run_local opened r) = Unit
  IsQuiet (Event.asks env h id) = Unit

  handle_ping-same :
      (env : Env) (s : CanMqttGateway fs)
      → ((handle_ping fs env s).client_ever_seen ≡ s.client_ever_seen)
        × ((handle_ping fs env s).client_offline_timer ≡ s.client_offline_timer)
  unfolding handle_ping ping publish send_can_frame
  handle_ping-same env s = (ground arith, ground arith)

  steps-quiet :
      (s : CanMqttGateway fs) (es : List Event)
      → All IsQuiet es
      → ((steps s es).client_ever_seen ≡ s.client_ever_seen)
        × ((steps s es).client_offline_timer ≡ s.client_offline_timer)
  unfolding steps step IsQuiet
  steps-quiet s [] q = (refl, refl)
  steps-quiet s (Event.arrives env f ∷ es) (q, qs) = absurd q
  steps-quiet s (Event.passes env run_local opened r ∷ es) (q, qs) =
      let (seen, timer) = steps-quiet (run fs env run_local s opened r).1 es qs in
      let (_, _, seen', timer') = run-same env run_local s opened r in
      let (seen'', timer'') = handle_ping-same env s in
      (seen ∙ seen' ∙ seen'', timer ∙ timer' ∙ timer'')
  steps-quiet s (Event.asks env hd id ∷ es) (q, qs) =
      let (seen, timer) = steps-quiet (request_can_id_change fs env hd s id).1 es qs in
      let (_, _, seen', timer') = request-same env hd s id in (seen ∙ seen', timer ∙ timer')

  handle_ping-online :
      (env : Env) (s : CanMqttGateway fs)
      → (handle_ping fs env s).client_online ≡ (
          s.client_ever_seen
          && not (has_elapsed env.now s.client_offline_timer client_offline_time))
  unfolding handle_ping ping client_online_actual publish send_can_frame
  handle_ping-online env s = ground arith

  dispatch-same :
      (env : Env) (s : CanMqttGateway fs) (f : CanFrame)
      → ((dispatch fs env s f).client_ever_seen ≡ s.client_ever_seen)
        × ((dispatch fs env s f).client_offline_timer ≡ s.client_offline_timer)
  unfolding dispatch restarted version_arrived publish send_can_frame
  dispatch-same env s f = (ground arith, ground arith)

  elapsed : (t0 t1 : ℕ) → t0 ≤ t1 → elapsed_since (t1 % 2 ^ 32) (t0 % 2 ^ 32) ≡ (t1 - t0) % 2 ^ 32
  unfolding elapsed_since
  elapsed t0 t1 p = omega arith

  -- A client that has been silent since the frame of the time `t0`, through any passes and requests, is
  -- online after a pass at the time `t1` exactly when no more than five seconds have gone by, counted
  -- on the 32-bit clock: so it is online again for five seconds after each full turn of the clock.
  pub silent_client :
      (env env' : Env) (s : CanMqttGateway fs) (f : CanFrame) (es : List Event) (t0 t1 : ℕ)
      (run_local : Bool) (opened : Option File) (r : OtaRegistry)
      → All IsQuiet es
      → t0 ≤ t1
      → env.now ≡ t0 % 2 ^ 32
      → env'.now ≡ t1 % 2 ^ 32
      → let s' = steps (can_frame_arrived_callback fs env s f) es in
        ((run fs env' run_local s' opened r).1.client_online ≡ true) ↔ ((t1 - t0) % 2 ^ 32 ≤ 5000)
  unfolding can_frame_arrived_callback client_offline_time has_elapsed sec_to_ms
  silent_client env env' s f es t0 t1 run_local opened r q p now now' =
      let heard = record s {
        client_ping_timer = env.now;
        client_offline_timer = env.now;
        client_ever_seen = true;
      } in
      let s' = steps (dispatch fs env heard f) es in
      let (seen, timer) = steps-quiet (dispatch fs env heard f) es q in
      let (seen', timer') = dispatch-same env heard f in
      let (_, online, _, _) = run-same env' run_local s' opened r in
      let is_seen : s'.client_ever_seen ≡ true = seen ∙ seen' in
      let is_timer : s'.client_offline_timer ≡ t0 % 2 ^ 32 = timer ∙ timer' ∙ now in
      let is_online : (run fs env' run_local s' opened r).1.client_online ≡ (
          s'.client_ever_seen
          && not (has_elapsed env'.now s'.client_offline_timer client_offline_time)) =
        online ∙ handle_ping-online env' s' in
      let gone : elapsed_since env'.now s'.client_offline_timer ≡ (t1 - t0) % 2 ^ 32 =
        ap₂ elapsed_since now' is_timer ∙ elapsed t0 t1 p in
      (λ h. ground (arith, is_online, is_seen, gone), λ h. ground (arith, is_online, is_seen, gone))
