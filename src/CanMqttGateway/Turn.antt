-- ===== src/CanMqttGateway/Turn.antt =====
-- When a gateway starts the transfer to its client.
use can_systems.Prelude.{
  ℕ, ◌≡◌, refl, sym, ap, ◌∙◌, arith, Bool, true, false, List, [], ◌∷◌, Option, Bool-cases, inl, inr,
}
use can_systems.OtaRegistry.{
  OtaRegistry, Target, queued, online, any_in_progress, claim_start, report_image,
}
use can_systems.OtaRegistry.Turns.{claim_start_lem}
use can_systems.CanOta.Driver.{FileSystem}
use can_systems.CanOta.{CanOta, Env, is_ota_in_progress, run_ota, run_state, finish}
use can_systems.CanMqttGateway.{
  CanMqttGateway, ping, handle_ping, publish, send_can_frame, answering, claim, pointing,
  run_transfer, run,
}
use can_systems.CanMqttGateway.Availability.{run-same}

module _ (fs : FileSystem) where
  open fs use {File}

  queued-answering :
      (s : CanMqttGateway fs) (id : ℕ) (ts : List Target)
      → queued id (answering fs s ts) ≡ queued id ts
  unfolding queued answering
  queued-answering s id [] = refl
  queued-answering s id (t ∷ ts) = ground (arith, queued-answering s id ts)

  -- A registered target is online when its gateway says so.
  online-answering :
      (s : CanMqttGateway fs) (ts : List Target)
      → online s.id (answering fs s ts) ≡ true
      → s.client_online ≡ true
  unfolding online answering
  online-answering s [] h = absurd (ground arith)
  online-answering s (t ∷ ts) h = ground (arith, online-answering s ts)

  handle_ping-transfer :
      (env : Env) (s : CanMqttGateway fs)
      → ((handle_ping fs env s).can_ota ≡ s.can_ota) × ((handle_ping fs env s).id ≡ s.id)
  unfolding handle_ping ping publish send_can_frame
  handle_ping-transfer env s = (ground arith, ground arith)

  run_ota-idle :
      (env : Env) (o : CanOta fs)
      → is_ota_in_progress fs o ≡ false
      → is_ota_in_progress fs (run_ota fs env o) ≡ false
  unfolding run_ota run_state is_ota_in_progress finish
  run_ota-idle env o h = ground arith

  run_transfer-idle :
      (env : Env) (s : CanMqttGateway fs)
      → is_ota_in_progress fs s.can_ota ≡ false
      → is_ota_in_progress fs (run_transfer fs env s).can_ota ≡ false
  unfolding run_transfer is_ota_in_progress
  run_transfer-idle env s h =
      run_ota-idle env
        (record s.can_ota { shared_image = pointing fs s.can_ota.shared_image s.batch_image }) h

  claim_lem :
      (s : CanMqttGateway fs) (r : OtaRegistry)
      → (claim fs s r).0 ≡ true
      → (queued s.id r.targets ≡ true)
        × (s.client_online ≡ true)
        × (any_in_progress (answering fs s r.targets) ≡ false)
        × (queued s.id (claim fs s r).2.targets ≡ false)
  unfolding claim
  claim_lem s r granted =
      let asked = record r { targets = answering fs s r.targets } in
      let (iff, _, used, _, _) = claim_start_lem s.id s.id s.batch_image asked in
      let free : is_ota_in_progress fs s.can_ota ≡ false = ground arith in
      let starts : (claim_start s.id s.batch_image asked).0 ≡ true = ground arith in
      let (queueing, there, nobody) = iff.0 starts in
      (
        sym (queued-answering s s.id r.targets) ∙ queueing,
        online-answering s r.targets there,
        nobody,
        ground (arith, free, used nobody),
      )

  -- The registry after a pass, as far as the queue goes.
  run-queued :
      (env : Env) (run_local : Bool) (s : CanMqttGateway fs) (opened : Option File)
      (r : OtaRegistry) (id : ℕ)
      → queued id (run fs env run_local s opened r).2.targets
        ≡ queued id (claim fs (handle_ping fs env s) r).2.targets
  unfolding run report_image
  run-queued env run_local s opened r id =
      let s' = (run fs env run_local s opened r).1 in
      ground (arith, queued-answering s' id (claim fs (handle_ping fs env s) r).2.targets)

  run-refused :
      (env : Env) (run_local : Bool) (s : CanMqttGateway fs) (opened : Option File)
      (r : OtaRegistry)
      → (claim fs (handle_ping fs env s) r).0 ≡ false
      → (run fs env run_local s opened r).1 ≡ run_transfer fs env (handle_ping fs env s)
  unfolding run
  run-refused env run_local s opened r refused = rw refused refl

  -- A pass in which a transfer begins is one in which it was the client's turn: the client was queued
  -- for a new image, is online at this pass, and no target of the registry was being sent one; and
  -- the place in the queue is used up.
  pub transfer_in_turn :
      (env : Env) (run_local : Bool) (s : CanMqttGateway fs) (opened : Option File)
      (r : OtaRegistry)
      → is_ota_in_progress fs s.can_ota ≡ false
      → is_ota_in_progress fs (run fs env run_local s opened r).1.can_ota ≡ true
      → let (_, s', r') = run fs env run_local s opened r in
        (queued s.id r.targets ≡ true)
        × (s'.client_online ≡ true)
        × (any_in_progress (answering fs (handle_ping fs env s) r.targets) ≡ false)
        × (queued s.id r'.targets ≡ false)
  transfer_in_turn env run_local s opened r idle busy =
      let s1 = handle_ping fs env s in
      let (same, same_id) = handle_ping-transfer env s in
      elim (Bool-cases (claim fs s1 r).0) [
        | inl granted ↦
            (let (queueing, there, nobody, used) = claim_lem s1 r granted in
              (
                ap (λ id. queued id r.targets) (sym same_id) ∙ queueing,
                (run-same fs env run_local s opened r).1 ∙ there,
                nobody,
                run-queued env run_local s opened r s.id
                    ∙ ap (λ id. queued id (claim fs s1 r).2.targets) (sym same_id)
                    ∙ used,
              ))
        | inr refused ↦ absurd (
            ground (
              arith,
              busy,
              run-refused env run_local s opened r refused,
              run_transfer-idle env s1 (ap (is_ota_in_progress fs) same ∙ idle),
            ))
      ]
