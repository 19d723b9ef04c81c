-- ===== src/CanCommissioner/Table.antt =====
-- The list of the waiting nodes: which slot an announcement takes, and what stays true of the list.
use can_systems.Prelude.{
  dec_lt, ℕ, suc, ◌+◌, ◌≤◌, ◌<◌, ◌≡◌, ◌⊎◌, inl, inr, refl, sym, ap, ◌∙◌, subst, arith, Bool, true,
  false, List, [], ◌∷◌, Option, none, some, ltb, if◌then◌else◌, length, get_or, Bool-cases,
}
use can_systems.Common.Time.{elapsed_since}
use can_systems.CanCommissioner.{Waiting, empty_slot, holds, find_slot, slot_for}

abbrev pub at : List Waiting → ℕ → Waiting
at table j = get_or table j empty_slot

-- A slot for a node: the one that holds it, or else a free one, or else, when all are in use, the one
-- that has been silent longest.
pub record Chosen (now : ℕ) (uid : List ℕ) (table : List Waiting) (k : ℕ) : Type 0 where
  pub inside : k < length table
  pub why :
      (holds uid (at table k) ≡ true)
      ⊎ (((j : ℕ) → j < length table → holds uid (at table j) ≡ false)
          × (((at table k).in_use ≡ false)
              ⊎ ((j : ℕ)
                  → j < length table
                  → ((at table j).in_use ≡ true)
                    × (elapsed_since now (at table j).last_heard
                        ≤ elapsed_since now (at table k).last_heard))))

module _ (now : ℕ) (uid : List ℕ) (table : List Waiting) where
  -- What the loop knows before slot `i`.
  record Before (i : ℕ) (slot : Option ℕ) (oldest heard : ℕ) : Type 0 where
    pub none_holds : (j : ℕ) → j < i → holds uid (at table j) ≡ false
    pub no_slot : slot ≡ none → (j : ℕ) → j < i → (at table j).in_use ≡ true
    pub free_slot : (s : ℕ) → slot ≡ some s → (s < i) × ((at table s).in_use ≡ false)
    pub oldest_in : oldest < length table
    pub heard_is : heard ≡ (at table oldest).last_heard
    pub longest :
        (j : ℕ) → j < i → elapsed_since now (at table j).last_heard ≤ elapsed_since now heard

  find_slot-done :
      (slot : Option ℕ) (oldest heard : ℕ)
      → Before (length table) slot oldest heard
      → Chosen now uid table (find_slot now uid [] (length table) slot oldest heard)
  unfolding find_slot
  find_slot-done none oldest heard b = record {
    inside = b.oldest_in;
    why =
        inr (b.none_holds, inr (λ j h. (b.no_slot refl j h, rw (sym b.heard_is) (b.longest j h))));
  }
  find_slot-done (some s) oldest heard b =
      let (inside, free) = b.free_slot s refl in
      record { inside = inside; why = inr (b.none_holds, inl free) }

  below : (i : ℕ) (P : ℕ → Type 0) → ((j : ℕ) → j < i → P j) → P i → (j : ℕ) → j < i + 1 → P j
  below i P earlier last j h = elim (dec_lt j i) [
    | yes lt ↦ earlier j lt
    | no ge ↦ (let same : i ≡ j = omega arith in subst P same last)
  ]

  abbrev next_slot : ℕ → Option ℕ → Option ℕ
  next_slot i slot =
      if (at table i).in_use then slot else elim slot [ none ↦ some i | some k ↦ some k ]

  abbrev is_older : ℕ → ℕ → Bool
  is_older i heard = ltb (elapsed_since now heard) (elapsed_since now (at table i).last_heard)

  next_slot-none :
      (i : ℕ) (slot : Option ℕ)
      → next_slot i slot ≡ none
      → (slot ≡ none) × ((at table i).in_use ≡ true)
  next_slot-none i none h = (refl, ground arith)
  next_slot-none i (some k) h = absurd (ground arith)

  next_slot-some :
      (i : ℕ) (slot : Option ℕ) (s : ℕ)
      → next_slot i slot ≡ some s
      → (slot ≡ some s) ⊎ ((s ≡ i) × ((at table i).in_use ≡ false))
  next_slot-some i none s h = inr (ground arith, ground arith)
  next_slot-some i (some k) s h = inl (ground arith)

  step :
      (i : ℕ) (slot : Option ℕ) (oldest heard : ℕ)
      → i < length table
      → holds uid (at table i) ≡ false
      → Before i slot oldest heard
      → Before
          (i + 1)
          (next_slot i slot)
          (if is_older i heard then i else oldest)
          (if is_older i heard then (at table i).last_heard else heard)
  step i slot oldest heard inside another b =
      let oldest_in = b.oldest_in in
      let heard_is = b.heard_is in
      record {
        none_holds = below i (λ j. holds uid (at table j) ≡ false) b.none_holds another;
        no_slot = λ e.
            let (without, used) = next_slot-none i slot e in
            below i (λ j. (at table j).in_use ≡ true) (b.no_slot without) used;
        free_slot = λ s e. elim (next_slot-some i slot s e) [
          | inl kept ↦ (let (before, free) = b.free_slot s kept in (omega arith, free))
          | inr (same, free) ↦
              (omega arith, subst (λ k. (at table k).in_use ≡ false) (sym same) free)
        ];
        oldest_in = ground arith;
        heard_is = ground arith;
        longest =
            below i
              (λ j.
                elapsed_since now (at table j).last_heard
                ≤ elapsed_since now (if is_older i heard then (at table i).last_heard else heard))
              (λ j h. let known = b.longest j h in ground arith) (ground arith);
      }

  abbrev next_free : ℕ → Waiting → Option ℕ → Option ℕ
  next_free i e slot = if e.in_use then slot else elim slot [ none ↦ some i | some k ↦ some k ]

  abbrev next_find : List Waiting → ℕ → Option ℕ → ℕ → ℕ → Waiting → ℕ
  next_find es i slot oldest heard e =
      find_slot now uid es (i + 1) (next_free i e slot)
        (if ltb (elapsed_since now heard) (elapsed_since now e.last_heard) then i else oldest)
        (if ltb (elapsed_since now heard) (elapsed_since now e.last_heard)
          then e.last_heard
          else heard)

  find_slot-held :
      (e : Waiting) (es : List Waiting) (i : ℕ) (slot : Option ℕ) (oldest heard : ℕ)
      → holds uid e ≡ true
      → find_slot now uid (e ∷ es) i slot oldest heard ≡ i
  unfolding find_slot
  find_slot-held e es i slot oldest heard h = rw h refl

  find_slot-next :
      (e : Waiting) (es : List Waiting) (i : ℕ) (slot : Option ℕ) (oldest heard : ℕ)
      → holds uid e ≡ false
      → find_slot now uid (e ∷ es) i slot oldest heard ≡ next_find es i slot oldest heard e
  unfolding find_slot
  find_slot-next e es i slot oldest heard h = rw h refl

  find_slot-lem :
      (es : List Waiting) (i : ℕ) (slot : Option ℕ) (oldest heard : ℕ)
      → length table ≡ i + length es
      → ((j : ℕ) → at es j ≡ at table (i + j))
      → Before i slot oldest heard
      → Chosen now uid table (find_slot now uid es i slot oldest heard)
  find_slot-lem [] i slot oldest heard len same b =
      let whole : length table ≡ i = omega arith in
      subst (λ n. Chosen now uid table (find_slot now uid [] n slot oldest heard)) whole
        (find_slot-done slot oldest heard (subst (λ n. Before n slot oldest heard) (sym whole) b))
  find_slot-lem (e ∷ es) i slot oldest heard len same b =
      let origin : i + 0 ≡ i = omega arith in
      let here : e ≡ at table i = same 0 ∙ ap (at table) origin in
      elim (Bool-cases (holds uid e)) [
        | inl held ↦
            subst (Chosen now uid table) (sym (find_slot-held e es i slot oldest heard held))
              (record {
                inside = omega arith;
                why = inl (subst (λ x. holds uid x ≡ true) here held);
              })
        | inr another ↦
            (let b' =
                step i slot oldest heard (omega arith)
                  (subst (λ x. holds uid x ≡ false) here another) b in
              let shifted : (j : ℕ) → at es j ≡ at table (i + 1 + j) = λ j.
                let e' : i + suc j ≡ i + 1 + j = omega arith in same (suc j) ∙ ap (at table) e' in
              subst (Chosen now uid table)
                (ap (next_find es i slot oldest heard) (sym here)
                  ∙ sym (find_slot-next e es i slot oldest heard another))
                (find_slot-lem es (i + 1) (next_slot i slot)
                  (if is_older i heard then i else oldest)
                  (if is_older i heard then (at table i).last_heard else heard) (omega arith)
                  shifted b'))
      ]

  -- An announcement finds its slot.
  pub slot_for-Chosen : 0 < length table → Chosen now uid table (slot_for now uid table)
  unfolding slot_for
  slot_for-Chosen h =
      find_slot-lem table 0 none 0 (at table 0).last_heard (omega arith)
        (λ j. ap (at table) (omega arith))
        (record {
          none_holds = λ j k. absurd (omega arith);
          no_slot = λ e j k. absurd (omega arith);
          free_slot = λ s e. absurd (ground arith);
          oldest_in = h;
          heard_is = refl;
          longest = λ j k. absurd (omega arith);
        })
