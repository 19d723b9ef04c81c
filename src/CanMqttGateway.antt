-- ===== src/CanMqttGateway.antt =====
-- class CanMqttGateway of lib/canMqttGateway/src: one CAN client as the MQTT server sees it. Its
-- availability, its version and its buttons are published, its transfer is run when its turn has come,
-- and it can be asked to take another address. What is published is recorded, newest first.
pub mod Availability
pub mod Turn
pub mod Address
mod Tests
use can_systems.Prelude.{
  ℕ, ◌%◌, ◌^◌, Bool, true, false, not, ◌&&◌, ◌||◌, List, [], ◌∷◌, Option, none, some, ◌==◌,
  if◌then◌else◌,
}
use can_systems.Common.Time.{has_elapsed, sec_to_ms}
use can_systems.CanProtocol.Bytes.{word16, word32}
use can_systems.CanProtocol.Frame.{Data, no_data, CanFrame, make_frame, cmd_of}
use can_systems.CanProtocol.IdAssign
use can_systems.CanNode.{
  cmd_ping, cmd_restart, cmd_fw_version, cmd_ota_start, cmd_ota_send, cmd_ota_end, cmd_set_can_id,
}
use can_systems.CanCommissioner.{Handler}
use can_systems.OtaRegistry.{Image, Target, OtaRegistry, no_image, claim_start, report_image}
use can_systems.CanOta.Driver.{FileSystem}
use can_systems.CanOta
use can_systems.CanOta.{CanOta, Env, start_ota, run_ota, is_ota_in_progress, handle_ota_can_frames}

unfoldable pub client_ping_time : ℕ
unfolding sec_to_ms
client_ping_time = sec_to_ms 1

unfoldable pub client_offline_time : ℕ
unfolding sec_to_ms
client_offline_time = sec_to_ms 5

abbrev pub cmd_button_event : ℕ
cmd_button_event = 3

-- What goes to the server: the retained availability, the retained information on the device, an event
-- of its button, and the discovery messages.
pub data Published : Type 0 where
  availability : Bool → Published
  info : (fw_version git_hash git_dirty reset_reason : ℕ) → Published
  button : ℕ → Published
  discovery : Published

-- Whether two flags agree.
abbrev pub same_flag : Bool → Bool → Bool
same_flag true b = b
same_flag false b = not b

module _ (fs : FileSystem) where
  open fs use {File}

  -- The fields; the two ids that the frames carry are those of `can_ota`. `id` is the address by which
  -- the registry knows the target, `sent` are the frames that the queue has taken, but for those of the
  -- transfer, and `processed` are the frames that went to the derived class.
  pub record CanMqttGateway : Type 0 where
    pub id : ℕ
    pub can_ota : CanOta fs
    pub client_ping_timer : ℕ
    pub client_offline_timer : ℕ
    pub client_online : Bool
    pub client_ever_seen : Bool
    pub fw_file_name : Option (List ℕ)
    pub batch_image : Image
    pub sw_version : Option (ℕ × ℕ)
    pub sent : List CanFrame
    pub published : List Published
    pub processed : List CanFrame

  -- The constructor, but for the registration.
  unfoldable pub new : ℕ → ℕ → ℕ → Option (List ℕ) → CanMqttGateway
  new id client_can_id local_can_id fw_file_name = record {
    id = id;
    can_ota = CanOta.new fs client_can_id local_can_id;
    client_ping_timer = 0;
    client_offline_timer = 0;
    client_online = true;
    client_ever_seen = false;
    fw_file_name = fw_file_name;
    batch_image = no_image;
    sw_version = none;
    sent = [];
    published = [];
    processed = [];
  }

  unfoldable pub send_can_frame : Env → CanMqttGateway → ℕ → Data → CanMqttGateway
  send_can_frame env s command d =
      if env.can_send
      then record s {
        sent = make_frame s.can_ota.client_can_id command s.can_ota.local_can_id d ∷ s.sent;
      }
      else s

  unfoldable pub publish : CanMqttGateway → Published → CanMqttGateway
  publish s m = record s { published = m ∷ s.published }

  -- `init_local` is what `initLocal` returns.
  unfoldable pub init : Env → Bool → CanMqttGateway → Bool × CanMqttGateway
  unfolding send_can_frame publish
  init env init_local s =
      let s' = send_can_frame env s cmd_fw_version no_data in
      (
        init_local,
        publish (record s' { client_ping_timer = env.now; client_online = false })
            (Published.availability false),
      )

  unfoldable pub ping : Env → CanMqttGateway → CanMqttGateway
  unfolding send_can_frame
  ping env s =
      if has_elapsed env.now s.client_ping_timer client_ping_time
      then record (send_can_frame env s cmd_ping no_data) { client_ping_timer = env.now }
      else s

  unfoldable pub client_online_actual : ℕ → CanMqttGateway → Bool
  client_online_actual now s =
      s.client_ever_seen && not (has_elapsed now s.client_offline_timer client_offline_time)

  unfoldable pub handle_ping : Env → CanMqttGateway → CanMqttGateway
  unfolding ping client_online_actual publish
  handle_ping env s =
      let s' = ping env s in
      let actual = client_online_actual env.now s' in
      if same_flag s'.client_online actual
      then s'
      else publish (record s' { client_online = actual }) (Published.availability actual)

  -- A RESTART from the client.
  unfoldable pub restarted : Env → CanMqttGateway → CanMqttGateway
  unfolding send_can_frame publish
  restarted env s =
      let s' = send_can_frame env s cmd_fw_version no_data in
      let offline = publish s' (Published.availability false) in
      record (publish offline (Published.availability true)) { client_online = true }

  -- An FW_VERSION from the client.
  unfoldable pub version_arrived : CanMqttGateway → Data → CanMqttGateway
  unfolding publish
  version_arrived s d =
      let fw_version = word16 d.d0 d.d1 in
      let git_hash = word32 d.d2 d.d3 d.d4 d.d5 in
      let s1 =
        publish (record s { sw_version = some (fw_version, git_hash) })
          (Published.info fw_version git_hash d.d6 d.d7) in
      let s2 =
        if s1.client_online
        then s1
        else record (publish s1 (Published.availability true)) { client_online = true } in
      publish s2 Published.discovery

  -- The `switch` of `canFrameArrivedCallback`; a SET_CAN_ID is only logged.
  unfoldable pub dispatch : Env → CanMqttGateway → CanFrame → CanMqttGateway
  unfolding restarted version_arrived publish
  dispatch env s f =
      if cmd_of f == cmd_ping
      then s
      else (if cmd_of f == cmd_restart
          then restarted env s
          else (if cmd_of f == cmd_fw_version
              then version_arrived s f.bytes
              else (if cmd_of f == cmd_set_can_id
                  then s
                  else (if cmd_of f == cmd_button_event
                      then publish s (Published.button f.bytes.d0)
                      else (if cmd_of f == cmd_ota_start
                            || cmd_of f == cmd_ota_send
                            || cmd_of f == cmd_ota_end
                          then record s { can_ota = handle_ota_can_frames fs s.can_ota f }
                          else record s { processed = f ∷ s.processed })))))

  unfoldable pub can_frame_arrived_callback : Env → CanMqttGateway → CanFrame → CanMqttGateway
  unfolding dispatch
  can_frame_arrived_callback env s f =
      dispatch env
        (record s {
          client_ping_timer = env.now;
          client_offline_timer = env.now;
          client_ever_seen = true;
        })
        f

  -- The answers of this target, among those of the registry's others.
  unfoldable pub answering : CanMqttGateway → List Target → List Target
  answering s [] = []
  answering s (t ∷ ts) =
      let rest = answering s ts in
      if t.id == s.id
      then record t {
        is_online = s.client_online;
        is_in_progress = is_ota_in_progress fs s.can_ota;
      }
        ∷ rest
      else t ∷ rest

  -- Whether the turn has come, the image facts then, and the registry.
  unfoldable pub claim : CanMqttGateway → OtaRegistry → Bool × Image × OtaRegistry
  unfolding answering
  claim s r =
      let r' = record r { targets = answering s r.targets } in
      if is_ota_in_progress fs s.can_ota
      then (false, s.batch_image, r')
      else claim_start s.id s.batch_image r'

  -- `startOta(fwFileNamePtr, batchImage)`; `opened` is what opening the file gives.
  unfoldable pub start_batch : ℕ → CanMqttGateway → Option File → Image → Bool × CanMqttGateway
  start_batch now s opened image =
      let (code, o) = start_ota fs now s.can_ota s.fw_file_name opened 0 (some image) in
      (code == 0, record s { can_ota = o; batch_image = image })

  -- `sharedImage` is null or points to `batchImage`.
  unfoldable pub pointing : Option Image → Image → Option Image
  pointing none image = none
  pointing (some old) image = some image

  unfoldable pub pointee : Option Image → Image → Image
  pointee none image = image
  pointee (some new_image) image = new_image

  unfoldable pub run_transfer : Env → CanMqttGateway → CanMqttGateway
  unfolding pointing pointee
  run_transfer env s =
      let o =
        run_ota fs env
          (record s.can_ota { shared_image = pointing s.can_ota.shared_image s.batch_image }) in
      record s { can_ota = o; batch_image = pointee o.shared_image s.batch_image }

  -- `run_local` is what `runLocal` returns.
  unfoldable pub run :
      Env → Bool → CanMqttGateway → Option File → OtaRegistry → Bool × CanMqttGateway × OtaRegistry
  unfolding handle_ping claim start_batch run_transfer answering
  run env run_local s opened r =
      let s1 = handle_ping env s in
      let (granted, image, r1) = claim s1 r in
      let s2 = if granted then (start_batch env.now s1 opened image).1 else s1 in
      let s3 = run_transfer env s2 in
      let r2 =
        if not s2.batch_image.valid && s3.batch_image.valid
        then report_image s3.batch_image r1
        else r1 in
      (run_local, s3, record r2 { targets = answering s3 r2.targets })

  -- Whether the address may be given to the client, and the request.
  unfoldable pub may_request : Handler → CanMqttGateway → ℕ → Bool
  may_request h s new_local =
      IdAssign.is_assignable_id new_local
      && (new_local == s.can_ota.client_can_id
          || not (new_local == h.local || new_local == h.master || h.is_registered new_local))

  unfoldable pub request_can_id_change : Env → Handler → CanMqttGateway → ℕ → Bool × CanMqttGateway
  unfolding may_request send_can_frame IdAssign.pack
  request_can_id_change env h s new_local =
      if not (may_request h s new_local) then (false, s) else (
        env.can_send,
        send_can_frame env s cmd_set_can_id (
            IdAssign.pack (record {
              expected_local = s.can_ota.client_can_id;
              new_local = new_local;
              reserved_clear = false;
            })),
      )
