-- ===== src/CanCommissioner/Distinct.antt =====
-- What stays true of the list of the waiting nodes.
use can_systems.Prelude.{
  ℕ, zero, suc, ◌<◌, ◌≡◌, ◌≢◌, ◌⊎◌, inl, inr, refl, sym, ap, ◌∙◌, subst, subst⁻¹, arith, true,
  false, List, [], ◌∷◌, length, set, map, dec_lt, ℕ_discrete, Bool-cases, length-set, get_or-past,
  get_or-set_self, get_or-set_ne, replicate,
}
use can_systems.CanProtocol.Frame.{CanFrame, cmd_of, from_of}
use can_systems.CanProtocol.IdAssign
use can_systems.CanProtocol.IdAssign.{is_provisional_id}
use can_systems.CanNode.{cmd_announce, bytes_of}
use can_systems.FlashOta.{same_bytes}
use can_systems.FlashOta.SameBytes.{same_bytes_refl, same_bytes_eq}
use can_systems.CanCommissioner.{
  Waiting, empty_slot, max_waiting, holds, forget, run, slot_for, note_announcement,
}
use can_systems.CanCommissioner.Table.{at, Chosen, slot_for-Chosen}

-- The entry that an announcement makes.
abbrev pub heard_now : ℕ → CanFrame → Waiting
heard_now now f = record {
  uid = bytes_of f.bytes;
  provisional_id = from_of f;
  last_heard = now;
  in_use = true;
}

note_announcement-eq :
    (now : ℕ) (table : List Waiting) (f : CanFrame)
    → cmd_of f ≡ cmd_announce
    → is_provisional_id (from_of f) ≡ true
    → note_announcement now table f
      ≡ set table (slot_for now (bytes_of f.bytes) table) (heard_now now f)
unfolding note_announcement
note_announcement-eq now table f command provisional = ground arith

note_announcement-ignored :
    (now : ℕ) (table : List Waiting) (f : CanFrame)
    → ((cmd_of f ≢ cmd_announce) ⊎ (is_provisional_id (from_of f) ≡ false))
    → note_announcement now table f ≡ table
unfolding note_announcement
note_announcement-ignored now table f (inl other) = ground arith
note_announcement-ignored now table f (inr fixed) = ground arith

-- An announcement from a provisional address is kept in one slot, with the node's unique id, the
-- address and the time, and every other slot stays as it is: it is the slot that holds the node, or
-- else a free one, or else, when all are in use, the one that has been silent longest.
pub note_announcement-heard :
    (now : ℕ) (table : List Waiting) (f : CanFrame)
    → 0 < length table
    → cmd_of f ≡ cmd_announce
    → is_provisional_id (from_of f) ≡ true
    → let table' = note_announcement now table f in
      (length table' ≡ length table)
      × ((k : ℕ) × Chosen now (bytes_of f.bytes) table k
          × (at table' k ≡ heard_now now f)
          × ((j : ℕ) → j ≢ k → at table' j ≡ at table j))
note_announcement-heard now table f some command provisional =
    let k = slot_for now (bytes_of f.bytes) table in
    let chosen = slot_for-Chosen now (bytes_of f.bytes) table some in
    rw (note_announcement-eq now table f command provisional) (
      length-set table k (heard_now now f),
      (
        k,
        chosen,
        get_or-set_self table k (heard_now now f) empty_slot chosen.inside,
        λ j other. get_or-set_ne table k j (heard_now now f) empty_slot (λ e. other (sym e)),
      ),
    )

-- The list has four slots; no two of those in use hold one node, each has an id of eight bytes, and
-- those in use hold provisional addresses.
pub record IsValid (table : List Waiting) : Type 0 where
  pub four : length table ≡ max_waiting
  pub distinct :
      (i j : ℕ)
      → i ≢ j
      → (at table i).in_use ≡ true
      → (at table j).in_use ≡ true
      → (at table i).uid ≢ (at table j).uid
  pub sized : (j : ℕ) → length (at table j).uid ≡ IdAssign.uid_length
  pub provisional :
      (j : ℕ) → (at table j).in_use ≡ true → is_provisional_id (at table j).provisional_id ≡ true

-- A node that is in use and has the id holds it.
same-holds : (uid : List ℕ) (e : Waiting) → e.in_use ≡ true → e.uid ≡ uid → holds uid e ≡ true
unfolding holds
same-holds uid e used same =
    let equal : same_bytes e.uid uid ≡ true =
      ap (λ u. same_bytes u uid) same ∙ same_bytes_refl uid in
    ground (arith, equal)

holds-same : (uid : List ℕ) (e : Waiting) → holds uid e ≡ true → (e.in_use ≡ true) × (e.uid ≡ uid)
unfolding holds
holds-same uid e h = (ground arith, same_bytes_eq e.uid uid (ground arith))

in_use-inside : (table : List Waiting) (j : ℕ) → (at table j).in_use ≡ true → j < length table
in_use-inside table j used = elim (dec_lt j (length table)) [
  | yes inside ↦ inside
  | no past ↦
      (let empty : at table j ≡ empty_slot = get_or-past table j empty_slot (omega arith) in
        let free : (at table j).in_use ≡ false = ap (λ (e : Waiting). e.in_use) empty in
        absurd (cc))
]

-- No other slot in use holds the node of a chosen slot.
Chosen-alone :
    (now : ℕ) (uid : List ℕ) (table : List Waiting) (k j : ℕ)
    → IsValid table
    → Chosen now uid table k
    → j ≢ k
    → (at table j).in_use ≡ true
    → (at table j).uid ≢ uid
Chosen-alone now uid table k j valid chosen other used same = elim chosen.why [
  | inl held ↦
      (let (busy, there) = holds-same uid (at table k) held in
        valid.distinct j k other used busy (same ∙ sym there))
  | inr (nowhere, rest) ↦
      (let here = same-holds uid (at table j) used same in
        let not_here = nowhere j (in_use-inside table j used) in absurd (cc))
]

-- Each slot of a list in which one has been changed.
slot_after :
    (table : List Waiting) (k : ℕ) (e : Waiting) (j : ℕ)
    → k < length table
    → ((j ≡ k) × (at (set table k e) j ≡ e)) ⊎ ((j ≢ k) × (at (set table k e) j ≡ at table j))
slot_after table k e j inside = elim (ℕ_discrete j k) [
  | yes same ↦
      inl (same, ap (at (set table k e)) same ∙ get_or-set_self table k e empty_slot inside)
  | no other ↦ inr (other, get_or-set_ne table k j e empty_slot (λ h. other (sym h)))
]

-- A change of one slot to that of a node that no other slot in use holds.
set-IsValid :
    (table : List Waiting) (k : ℕ) (e : Waiting)
    → IsValid table
    → k < length table
    → length e.uid ≡ IdAssign.uid_length
    → is_provisional_id e.provisional_id ≡ true
    → ((j : ℕ) → j ≢ k → (at table j).in_use ≡ true → (at table j).uid ≢ e.uid)
    → IsValid (set table k e)
set-IsValid table k e valid inside sized provisional alone = record {
  four = length-set table k e ∙ valid.four;
  distinct = λ i j differ used_i used_j same. elim (slot_after table k e i inside) [
    | inl (i_is, at_i) ↦ elim (slot_after table k e j inside) [
      | inl (j_is, at_j) ↦ differ (i_is ∙ sym j_is)
      | inr (j_not, at_j) ↦
          alone j j_not (used_at at_j used_j) (sym (uid_at at_j) ∙ sym same ∙ uid_at at_i)
    ]
    | inr (i_not, at_i) ↦ elim (slot_after table k e j inside) [
      | inl (j_is, at_j) ↦
          alone i i_not (used_at at_i used_i) (sym (uid_at at_i) ∙ same ∙ uid_at at_j)
      | inr (j_not, at_j) ↦
          valid.distinct i j differ (used_at at_i used_i) (used_at at_j used_j)
            (sym (uid_at at_i) ∙ same ∙ uid_at at_j)
    ]
  ];
  sized = λ j. elim (slot_after table k e j inside) [
    | inl (is, at_j) ↦ ap length (uid_at at_j) ∙ sized
    | inr (other, at_j) ↦ ap length (uid_at at_j) ∙ valid.sized j
  ];
  provisional = λ j used. elim (slot_after table k e j inside) [
    | inl (is, at_j) ↦ ap (λ (w : Waiting). is_provisional_id w.provisional_id) at_j ∙ provisional
    | inr (other, at_j) ↦
        ap (λ (w : Waiting). is_provisional_id w.provisional_id) at_j
        ∙ valid.provisional j (used_at at_j used)
  ];
}
  where
    used_at : {a b : Waiting} → a ≡ b → a.in_use ≡ true → b.in_use ≡ true
    used_at p u = subst (λ (w : Waiting). w.in_use ≡ true) p u

    uid_at : {a b : Waiting} → a ≡ b → a.uid ≡ b.uid
    uid_at p = ap (λ (w : Waiting). w.uid) p

note_announcement-IsValid :
    (now : ℕ) (table : List Waiting) (f : CanFrame)
    → IsValid table
    → IsValid (note_announcement now table f)
note_announcement-IsValid now table f valid = elim (ℕ_discrete (cmd_of f) cmd_announce) [
  | no other ↦ subst⁻¹ IsValid (note_announcement-ignored now table f (inl other)) valid
  | yes command ↦ elim (Bool-cases (is_provisional_id (from_of f))) [
    | inr fixed ↦ subst⁻¹ IsValid (note_announcement-ignored now table f (inr fixed)) valid
    | inl provisional ↦
        (let four = valid.four in
          let chosen = slot_for-Chosen now (bytes_of f.bytes) table (omega arith) in
          let k = slot_for now (bytes_of f.bytes) table in
          subst⁻¹ IsValid (note_announcement-eq now table f command provisional) (
            set-IsValid table k (heard_now now f) valid chosen.inside refl provisional
              (λ j. Chosen-alone now (bytes_of f.bytes) table k j valid chosen)))
  ]
]

length-map : (f : Waiting → Waiting) (table : List Waiting) → length (map f table) ≡ length table
length-map f [] = refl
length-map f (e ∷ es) = ap suc (length-map f es)

at-map :
    (f : Waiting → Waiting) (table : List Waiting) (j : ℕ)
    → f empty_slot ≡ empty_slot
    → at (map f table) j ≡ f (at table j)
at-map f [] j h = sym h
at-map f (e ∷ es) zero h = refl
at-map f (e ∷ es) (suc j) h = at-map f es j h

forget-lem :
    (now : ℕ) (e : Waiting)
    → ((forget now e).uid ≡ e.uid)
      × ((forget now e).provisional_id ≡ e.provisional_id)
      × ((forget now e).in_use ≡ true → e.in_use ≡ true)
unfolding forget
forget-lem now e = (ground arith, ground arith, λ h. ground arith)

forget_empty : (now : ℕ) → forget now empty_slot ≡ empty_slot
unfolding forget
forget_empty now = refl

run-IsValid : (now : ℕ) (table : List Waiting) → IsValid table → IsValid (run now table)
unfolding run
run-IsValid now table valid = record {
  four = length-map (forget now) table ∙ valid.four;
  distinct = λ i j differ used_i used_j same.
      valid.distinct i j differ (was i used_i) (was j used_j) (sym (uid_of i) ∙ same ∙ uid_of j);
  sized = λ j. ap length (uid_of j) ∙ valid.sized j;
  provisional = λ j used.
      ap is_provisional_id
        (ap (λ (w : Waiting). w.provisional_id) (slot j) ∙ (forget-lem now (at table j)).1)
      ∙ valid.provisional j (was j used);
}
  where
    slot : (j : ℕ) → at (map (forget now) table) j ≡ forget now (at table j)
    slot j = at-map (forget now) table j (forget_empty now)

    uid_of : (j : ℕ) → (at (map (forget now) table) j).uid ≡ (at table j).uid
    uid_of j = ap (λ (w : Waiting). w.uid) (slot j) ∙ (forget-lem now (at table j)).0

    was : (j : ℕ) → (at (map (forget now) table) j).in_use ≡ true → (at table j).in_use ≡ true
    was j used =
        (forget-lem now (at table j)).2 (subst (λ (w : Waiting). w.in_use ≡ true) (slot j) used)

-- What happens to the list: a frame that no client claims arrives, or a pass comes.
pub data Event : Type 0 where
  arrives : ℕ → CanFrame → Event
  passes : ℕ → Event

unfoldable pub step : List Waiting → Event → List Waiting
step table (Event.arrives now f) = note_announcement now table f
step table (Event.passes now) = run now table

unfoldable pub steps : List Waiting → List Event → List Waiting
steps table [] = table
steps table (e ∷ es) = steps (step table e) es

-- Whatever frames arrive and whenever the passes come, at any times, the list keeps its four slots, no
-- two of those in use hold one node, and those in use hold provisional addresses.
pub events-IsValid :
    (events : List Event) (table : List Waiting) → IsValid table → IsValid (steps table events)
unfolding steps step
events-IsValid [] table valid = valid
events-IsValid (Event.arrives now f ∷ es) table valid =
    events-IsValid es (note_announcement now table f) (note_announcement-IsValid now table f valid)
events-IsValid (Event.passes now ∷ es) table valid =
    events-IsValid es (run now table) (run-IsValid now table valid)

-- The list of the constructor.
abbrev pub no_nodes : List Waiting
no_nodes = replicate max_waiting empty_slot

no_node_at : (j : ℕ) → at no_nodes j ≡ empty_slot
no_node_at zero = refl
no_node_at (suc zero) = refl
no_node_at (suc (suc zero)) = refl
no_node_at (suc (suc (suc zero))) = refl
no_node_at (suc (suc (suc (suc j)))) = refl

pub no_nodes-IsValid : IsValid no_nodes
no_nodes-IsValid = record {
  four = refl;
  distinct = λ i j differ used. absurd (nobody i used);
  sized = λ j. ap (λ (w : Waiting). length w.uid) (no_node_at j);
  provisional = λ j used. absurd (nobody j used);
}
  where
    nobody : (j : ℕ) → (at no_nodes j).in_use ≡ true → ⊥
    nobody j used =
        let unused : (at no_nodes j).in_use ≡ false =
          ap (λ (w : Waiting). w.in_use) (no_node_at j) in
        cc
