-- ===== src/CanCommissioner/Assign.antt =====
-- Who is given an address, and that it obeys.
use can_systems.Prelude.{
  ℕ, ◌^◌, ◌<◌, ◌≡◌, ◌≢◌, refl, ap, ◌∙◌, arith, Bool, true, false, not, ◌&&◌, ◌||◌, List, [], ◌∷◌,
  Option, some, ◌==◌, All, Bool-cases, subst, Option-cases, ◌⊎◌, inl, inr,
}
use can_systems.CanProtocol.Frame.{CanFrame, make_frame-fields, to_of, cmd_of, from_of}
use can_systems.CanProtocol.IdAssign
use can_systems.CanProtocol.IdAssign.{
  Request, Obeys, unpack-pack, is_acceptable_iff, is_acceptable, is_assignable_id,
  is_provisional_id, unpack,
}
use can_systems.CanNode.{cmd_set_can_id}
use can_systems.CanCommissioner.{
  Waiting, Handler, holds, request_to, request_for, assign_request, assign, parse_uid,
}

-- Some slot holds this node.
unfoldable pub IsWaiting : List ℕ → List Waiting → Type 0
IsWaiting uid [] = ⊥
IsWaiting uid (e ∷ es) = (holds uid e ≡ true) ⊎ IsWaiting uid es

-- Every node in use answers on a provisional address.
abbrev pub AreProvisional : List Waiting → Type 0
AreProvisional = All (λ e. e.in_use ≡ true → is_provisional_id e.provisional_id ≡ true)

pub Among : Waiting → List Waiting → Type 0
Among e [] = ⊥
Among e (x ∷ xs) = (x ≡ e) ⊎ Among e xs

-- A request to a node with this id, on the provisional address that it announced, which obeys.
pub record Obeyed (h : Handler) (uid : List ℕ) (new_local : ℕ) (table : List Waiting) (f : CanFrame)
    : Type 0 where
  pub entry : Waiting
  pub among : Among entry table
  pub held : holds uid entry ≡ true
  pub sent_to : to_of f ≡ entry.provisional_id
  pub command : cmd_of f ≡ cmd_set_can_id
  pub asked : (unpack f.bytes).new_local ≡ new_local
  pub obeyed : is_acceptable (unpack f.bytes) entry.provisional_id h.local (from_of f) ≡ true

unpack-request_to :
    (h : Handler) (new_local : ℕ) (e : Waiting)
    → e.provisional_id < 2 ^ 16
    → new_local < 2 ^ 16
    → unpack (request_to h new_local e).bytes
      ≡ record { expected_local = e.provisional_id; new_local = new_local; reserved_clear = true }
unfolding request_to
unpack-request_to h new_local e p q =
    let r : Request = record {
      expected_local = e.provisional_id;
      new_local = new_local;
      reserved_clear = false;
    } in
    ap unpack (make_frame-fields e.provisional_id cmd_set_can_id h.local (IdAssign.pack r)).3
    ∙ unpack-pack r p q

provisional-le : (id : ℕ) → is_provisional_id id ≡ true → id < 1024
unfolding is_provisional_id
provisional-le id h = ground arith

assignable-lt : (id : ℕ) → is_assignable_id id ≡ true → (0 < id) × (id < IdAssign.provisional_base)
unfolding is_assignable_id
assignable-lt id h = (ground arith, ground arith)

request_to-Obeyed :
    (h : Handler) (uid : List ℕ) (new_local : ℕ) (table : List Waiting) (e : Waiting)
    → h.local < 1024
    → Among e table
    → holds uid e ≡ true
    → is_provisional_id e.provisional_id ≡ true
    → is_assignable_id new_local ≡ true
    → new_local ≢ h.local
    → Obeyed h uid new_local table (request_to h new_local e)
unfolding request_to
request_to-Obeyed h uid new_local table e small among held provisional assignable other =
    let r : Request = record {
      expected_local = e.provisional_id;
      new_local = new_local;
      reserved_clear = false;
    } in
    let fields = make_frame-fields e.provisional_id cmd_set_can_id h.local (IdAssign.pack r) in
    let below = provisional-le e.provisional_id provisional in
    let (positive, under) = assignable-lt new_local assignable in
    let content = unpack-request_to h new_local e (omega arith) (omega arith) in
    record {
      entry = e;
      among = among;
      held = held;
      sent_to = fields.0 ∙ omega arith;
      command = fields.1;
      asked = ap (λ (q : Request). q.new_local) content;
      obeyed =
          (is_acceptable_iff (unpack (request_to h new_local e).bytes) e.provisional_id h.local
              (from_of (request_to h new_local e))).1
            (record {
              from_master = fields.2 ∙ omega arith;
              reserved = ap (λ (q : Request). q.reserved_clear) content;
              addressed = ap (λ (q : Request). q.expected_local) content;
              nonzero = rw content positive;
              configured = rw content under;
              not_master = rw content other;
            });
    }

request_for_sound :
    (h : Handler) (uid : List ℕ) (new_local : ℕ) (table : List Waiting) (f : CanFrame)
    → request_for h uid new_local table ≡ some f
    → (e : Waiting) × Among e table × (holds uid e ≡ true) × (request_to h new_local e ≡ f)
unfolding request_for Among
request_for_sound h uid new_local [] f r = absurd (ground arith)
request_for_sound h uid new_local (e ∷ es) f r = elim (Bool-cases (holds uid e)) [
  | inl held ↦ (e, inl refl, held, ground arith)
  | inr another ↦
      (let (e', among, held, sent) = request_for_sound h uid new_local es f (ground arith) in
        (e', inr among, held, sent))
]

request_for-found :
    (h : Handler) (uid : List ℕ) (new_local : ℕ) (table : List Waiting)
    → IsWaiting uid table
    → (f : CanFrame) × (request_for h uid new_local table ≡ some f)
unfolding request_for IsWaiting
request_for-found h uid new_local [] w = absurd w
request_for-found h uid new_local (e ∷ es) w = elim (Bool-cases (holds uid e)) [
  | inl held ↦ (request_to h new_local e, ground arith)
  | inr another ↦
      (let there : IsWaiting uid es = elim w [ inl held ↦ absurd (cc) | inr later ↦ later ] in
        let (f, found) = request_for-found h uid new_local es there in (f, ground arith))
]

provisional-Among :
    (e : Waiting) (table : List Waiting)
    → AreProvisional table
    → Among e table
    → e.in_use ≡ true
    → is_provisional_id e.provisional_id ≡ true
unfolding Among
provisional-Among e [] p a used = absurd a
provisional-Among e (x ∷ xs) p (inl same) used =
    subst (λ y. y.in_use ≡ true → is_provisional_id y.provisional_id ≡ true) same p.0 used
provisional-Among e (x ∷ xs) p (inr later) used = provisional-Among e xs p.1 later used

holds-in_use : (uid : List ℕ) (e : Waiting) → holds uid e ≡ true → e.in_use ≡ true
unfolding holds
holds-in_use uid e h = ground arith

-- Whether a new address is free, as far as the gateway can see.
unfoldable pub is_free : Handler → ℕ → Bool
is_free h id = is_assignable_id id && not (id == h.local || id == h.master || h.is_registered id)

assign_request_sound :
    (h : Handler) (table : List Waiting) (hex : Option (List ℕ)) (new_local : ℕ) (f : CanFrame)
    → assign_request h table hex new_local ≡ some f
    → (uid : List ℕ) × (parse_uid hex ≡ some uid)
      × (is_free h new_local ≡ true)
      × (request_for h uid new_local table ≡ some f)
unfolding assign_request is_free
assign_request_sound h table hex new_local f e = elim (Option-cases (parse_uid hex)) [
  | inl bad ↦ absurd (ground arith)
  | inr (uid, read) ↦ (uid, read, ground arith, ground arith)
]

assign-sent :
    (h : Handler) (table : List Waiting) (hex : Option (List ℕ)) (new_local : ℕ) (f : CanFrame)
    → (assign h table hex new_local).1 ≡ some f
    → assign_request h table hex new_local ≡ some f
unfolding assign
assign-sent h table hex new_local f e = ground arith

free-ne :
    (h : Handler) (id : ℕ) → is_free h id ≡ true → (is_assignable_id id ≡ true) × (id ≢ h.local)
unfolding is_free
free-ne h id e = (ground arith, λ same. ground arith)

-- A frame that `assign` sends is a request, to a node that is waiting with the unique id that the text
-- spells and at the provisional address that it announced, for the address that was asked for, which
-- is free; and the node obeys it, if its master is the handler. The waiting nodes announced provisional
-- addresses, and the handler's own id has ten bits.
pub assign-Obeyed :
    (h : Handler) (table : List Waiting) (hex : Option (List ℕ)) (new_local : ℕ) (f : CanFrame)
    → h.local < 1024
    → AreProvisional table
    → (assign h table hex new_local).1 ≡ some f
    → (is_free h new_local ≡ true)
      × ((uid : List ℕ) × (parse_uid hex ≡ some uid) × Obeyed h uid new_local table f)
assign-Obeyed h table hex new_local f small p e =
    let (uid, read, free, found) =
      assign_request_sound h table hex new_local f (assign-sent h table hex new_local f e) in
    let (entry, among, held, sent) = request_for_sound h uid new_local table f found in
    let (assignable, other) = free-ne h new_local free in
    let provisional = provisional-Among entry table p among (holds-in_use uid entry held) in
    (
      free,
      (
        uid,
        read,
        subst (Obeyed h uid new_local table) sent (
            request_to-Obeyed h uid new_local table entry small among held provisional assignable
              other),
      ),
    )

-- Whenever the text spells the unique id of a node that is waiting, the address is free and the
-- transmit queue takes a frame, `assign` sends a request and says so.
pub assign_for_waiting :
    (h : Handler) (table : List Waiting) (hex : Option (List ℕ)) (uid : List ℕ) (new_local : ℕ)
    → parse_uid hex ≡ some uid
    → IsWaiting uid table
    → is_free h new_local ≡ true
    → h.can_send ≡ true
    → ((assign h table hex new_local).0 ≡ true)
      × ((f : CanFrame) × ((assign h table hex new_local).1 ≡ some f))
unfolding assign assign_request is_free
assign_for_waiting h table hex uid new_local read waits free can =
    let (f, found) = request_for-found h uid new_local table waits in
    (ground arith, (f, ground arith))
