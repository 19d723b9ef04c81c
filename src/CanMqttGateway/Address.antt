-- ===== src/CanMqttGateway/Address.antt =====
-- That the client obeys a request for another address.
use can_systems.Prelude.{
  ℕ, ◌<◌, ◌≡◌, ◌≢◌, ◌⊎◌, sym, ap, ◌∙◌, arith, true, false, ◌∷◌, ◌==◌, inl, inr, Bool-cases,
}
use can_systems.CanProtocol.Frame.{CanFrame, make_frame, make_frame-fields, to_of, cmd_of, from_of}
use can_systems.CanProtocol.IdAssign
use can_systems.CanProtocol.IdAssign.{
  Request, unpack-pack, is_acceptable_iff, is_acceptable, is_assignable_id, unpack,
}
use can_systems.CanNode.{cmd_set_can_id}
use can_systems.CanCommissioner.{Handler}
use can_systems.CanOta.Driver.{FileSystem}
use can_systems.CanOta.{Env}
use can_systems.CanMqttGateway.{CanMqttGateway, send_can_frame, may_request, request_can_id_change}

module _ (fs : FileSystem) where
  -- The request that goes out.
  unfoldable pub request_of : CanMqttGateway fs → ℕ → CanFrame
  request_of s new_local =
      make_frame s.can_ota.client_can_id cmd_set_can_id s.can_ota.local_can_id (
        IdAssign.pack (record {
          expected_local = s.can_ota.client_can_id;
          new_local = new_local;
          reserved_clear = false;
        }))

  assignable-lt :
      (id : ℕ) → is_assignable_id id ≡ true → (0 < id) × (id < IdAssign.provisional_base)
  unfolding is_assignable_id
  assignable-lt id h = (ground arith, ground arith)

  request_sent :
      (env : Env) (h : Handler) (s : CanMqttGateway fs) (new_local : ℕ)
      → (request_can_id_change fs env h s new_local).0 ≡ true
      → ((request_can_id_change fs env h s new_local).1.sent ≡ request_of s new_local ∷ s.sent)
        × (is_assignable_id new_local ≡ true)
        × ((new_local ≡ s.can_ota.client_can_id)
            ⊎ ((new_local ≢ h.local)
                × (new_local ≢ h.master)
                × (h.is_registered new_local ≡ false)))
  unfolding request_can_id_change may_request send_can_frame request_of
  request_sent env h s new_local done = (
    ground arith,
    ground arith,
    elim (Bool-cases (new_local == s.can_ota.client_can_id)) [
      | inl same ↦ inl (ground arith)
      | inr other ↦ inr (λ e. ground arith, λ e. ground arith, ground arith)
    ],
  )

  request_of-accepted :
      (h : Handler) (s : CanMqttGateway fs) (new_local : ℕ)
      → s.can_ota.client_can_id < 1024
      → s.can_ota.local_can_id < 1024
      → is_assignable_id new_local ≡ true
      → new_local ≢ s.can_ota.local_can_id
      → let f = request_of s new_local in
        (to_of f ≡ s.can_ota.client_can_id)
        × (cmd_of f ≡ cmd_set_can_id)
        × ((unpack f.bytes).new_local ≡ new_local)
        × (is_acceptable (unpack f.bytes) s.can_ota.client_can_id s.can_ota.local_can_id (from_of f)
            ≡ true)
  unfolding request_of
  request_of-accepted h s new_local client local assignable other =
      let r : Request = record {
        expected_local = s.can_ota.client_can_id;
        new_local = new_local;
        reserved_clear = false;
      } in
      let f = request_of s new_local in
      let (to, cmd, from, bytes, _) =
        make_frame-fields s.can_ota.client_can_id cmd_set_can_id s.can_ota.local_can_id
          (IdAssign.pack r) in
      let (positive, under) = assignable-lt new_local assignable in
      let content = ap unpack bytes ∙ unpack-pack r (omega arith) (omega arith) in
      (
        to ∙ omega arith,
        cmd,
        ap (λ (q : Request). q.new_local) content,
        (is_acceptable_iff (unpack f.bytes) s.can_ota.client_can_id s.can_ota.local_can_id
              (from_of f)).1
            (record {
              from_master = from ∙ omega arith;
              reserved = ap (λ (q : Request). q.reserved_clear) content;
              addressed = ap (λ (q : Request). q.expected_local) content;
              nonzero = rw content positive;
              configured = rw content under;
              not_master = rw content other;
            }),
      )

  -- When a request for another address has been put into the transmit queue, what was sent is one
  -- frame to the client, a SET_CAN_ID for the address that was asked for, which may be assigned and is
  -- free, or is the client's own; and the client obeys it, if its master is the gateway. Both ids have
  -- ten bits, and the client is not the gateway.
  pub request_can_id_change-obeyed :
      (env : Env) (h : Handler) (s : CanMqttGateway fs) (new_local : ℕ)
      → s.can_ota.client_can_id < 1024
      → h.local < 1024
      → s.can_ota.local_can_id ≡ h.local
      → s.can_ota.client_can_id ≢ h.local
      → (request_can_id_change fs env h s new_local).0 ≡ true
      → (f : CanFrame) × ((request_can_id_change fs env h s new_local).1.sent ≡ f ∷ s.sent)
        × (to_of f ≡ s.can_ota.client_can_id)
        × (cmd_of f ≡ cmd_set_can_id)
        × ((unpack f.bytes).new_local ≡ new_local)
        × (is_acceptable (unpack f.bytes) s.can_ota.client_can_id h.local (from_of f) ≡ true)
        × (is_assignable_id new_local ≡ true)
        × ((new_local ≡ s.can_ota.client_can_id)
            ⊎ ((new_local ≢ h.master) × (h.is_registered new_local ≡ false)))
  request_can_id_change-obeyed env h s new_local client local same other done =
      let (sent, assignable, which) = request_sent env h s new_local done in
      let apart : new_local ≢ s.can_ota.local_can_id = elim which [
        | inl own ↦ λ e. other (sym own ∙ e ∙ same)
        | inr (ne, _, _) ↦ λ e. ne (e ∙ same)
      ] in
      let (to, cmd, asked, accepted) =
        request_of-accepted h s new_local client (omega arith) assignable apart in
      (
        request_of s new_local,
        sent,
        to,
        cmd,
        asked,
        ap
              (λ m.
                is_acceptable (unpack (request_of s new_local).bytes) s.can_ota.client_can_id m
                  (from_of (request_of s new_local)))
              (sym same)
            ∙ accepted,
        assignable,
        elim which [ inl own ↦ inl own | inr (_, free, unused) ↦ inr (free, unused) ],
      )
