-- ===== src/Tracker/Rollback.antt =====
-- `restore` after `save`: rolling back to a savepoint.
use drel.Base.{
  ℕ, ◌<◌, ◌≤◌, ◌≡◌, ◌≢◌, ◌⊎◌, ◌↔◌, refl, ◌∙◌, true, some, List, [], ◌∷◌, arith, ==_iff, ==_refl,
  if◌then◌else◌, Bool-cases, inl, inr,
}
use drel.Base.Assoc.{lookup, lookup-insert}
use drel.Base.Ids.{contains, Distinct}
use drel.Tracker.Cells.{TrackedEntity, Tracker, nat_same}
use drel.Tracker.Flush.{pending_of, get_pending_changes}
use drel.Tracker.Savepoint.{TrackerState, save, restore, restore_loop}
use drel.Tracker.Invariant.{Inv}

module _ {E S : Type 0} where
  -- What a saved state guarantees: distinct cells, made before `n`, of distinct entities.
  pub record IsSaved (n : ℕ) (st : TrackerState E S) : Type 0 where
    pub distinct : Distinct st.entities
    pub below : (i : ℕ) → contains i st.entities ≡ true → i < n
    pub injective :
        (i j : ℕ)
        → contains i st.entities ≡ true
        → contains j st.entities ≡ true
        → (st.states i).entity ≡ (st.states j).entity
        → i ≡ j

  pub save-IsSaved : (t : Tracker E S) → Inv t → IsSaved t.next (save t)
  unfolding save
  save-IsSaved t v = record {
    distinct = v.distinct;
    below = v.below;
    injective = λ i j hi hj e. ground (arith, v.complete i hi, v.complete j hj);
  }

  pub IsSaved-mono : (m n : ℕ) (st : TrackerState E S) → m ≤ n → IsSaved m st → IsSaved n st
  IsSaved-mono m n st le h = record {
    distinct = h.distinct;
    below = λ i c. omega (arith, h.below i c);
    injective = h.injective;
  }

  module _ (mem : ℕ → E) (st : TrackerState E S) where
    loop-cells :
        (is : List ℕ) (t : Tracker E S) (j : ℕ)
        → (restore_loop mem st is t).cells j ≡ (if contains j is then st.states j else t.cells j)
    unfolding restore_loop
    loop-cells [] t j = refl
    loop-cells (i ∷ is) t j = loop-cells is _ j ∙ ground arith

    loop-entities :
        (is : List ℕ) (t : Tracker E S) → (restore_loop mem st is t).entities ≡ t.entities
    unfolding restore_loop
    loop-entities [] t = refl
    loop-entities (i ∷ is) t = loop-entities is _

    loop-next : (is : List ℕ) (t : Tracker E S) → (restore_loop mem st is t).next ≡ t.next
    unfolding restore_loop
    loop-next [] t = refl
    loop-next (i ∷ is) t = loop-next is _

    -- An entry of the new map comes from the list, or was there before.
    loop_sound :
        (is : List ℕ) (t : Tracker E S) (e k : ℕ)
        → lookup nat_same e (restore_loop mem st is t).index ≡ some k
        → ((contains k is ≡ true) × ((st.states k).entity ≡ e))
          ⊎ (lookup nat_same e t.index ≡ some k)
    unfolding restore_loop
    loop_sound [] t e k h = inr h
    loop_sound (i ∷ is) t e k h = ground (
      arith,
      loop_sound is _ e k h,
      lookup-insert nat_same ==_iff (st.states i).entity e i t.index,
    )

    -- An entity that the list does not hold keeps its entry.
    loop-other :
        (is : List ℕ) (t : Tracker E S) (e : ℕ)
        → ((j : ℕ) → contains j is ≡ true → (st.states j).entity ≢ e)
        → lookup nat_same e (restore_loop mem st is t).index ≡ lookup nat_same e t.index
    unfolding restore_loop
    loop-other [] t e h = refl
    loop-other (i ∷ is) t e h =
        loop-other is _ e (λ j c. h j (ground arith))
        ∙ ground
            (arith, h i, ==_refl i, lookup-insert nat_same ==_iff (st.states i).entity e i t.index)

    loop_complete :
        (is : List ℕ) (t : Tracker E S) (k : ℕ)
        → Distinct is
        → ((i j : ℕ)
            → contains i is ≡ true
            → contains j is ≡ true
            → (st.states i).entity ≡ (st.states j).entity
            → i ≡ j)
        → contains k is ≡ true
        → lookup nat_same (st.states k).entity (restore_loop mem st is t).index ≡ some k
    unfolding restore_loop
    loop_complete [] t k d inj h = absurd (cc)
    loop_complete (i ∷ is) t k d inj h = elim (Bool-cases (contains k is)) [
      | inl later ↦
          loop_complete is _ k d.1 (λ a b ha hb. inj a b (ground arith) (ground arith)) later
      | inr absent ↦
          loop-other is _ (st.states k).entity (λ j c e. ground (arith, inj j k, ==_refl k))
          ∙ ground (
            arith,
            lookup-insert nat_same ==_iff (st.states i).entity (st.states k).entity i t.index,
          )
    ]

    module _ (t : Tracker E S) where
      pub entities-restore : (restore mem t st).entities ≡ st.entities
      unfolding restore
      entities-restore = loop-entities st.entities _

      pub next-restore : (restore mem t st).next ≡ t.next
      unfolding restore
      next-restore = loop-next st.entities _

      cells-restore :
          (j : ℕ)
          → (restore mem t st).cells j ≡ (if contains j st.entities then st.states j else t.cells j)
      unfolding restore
      cells-restore j = loop-cells st.entities _ j

      sound-restore :
          (e k : ℕ)
          → lookup nat_same e (restore mem t st).index ≡ some k
          → (contains k st.entities ≡ true) × ((st.states k).entity ≡ e)
      unfolding restore lookup
      sound-restore e k h = elim (loop_sound st.entities _ e k h) [
        | inl p ↦ p
        | inr q ↦ absurd (cc q)
      ]

      complete-restore :
          (k : ℕ)
          → IsSaved t.next st
          → contains k st.entities ≡ true
          → lookup nat_same (st.states k).entity (restore mem t st).index ≡ some k
      unfolding restore
      complete-restore k h c = loop_complete st.entities _ k h.distinct h.injective c

      -- A rollback to a saved state re-establishes the invariant, whatever happened since.
      pub restore-Inv : IsSaved t.next st → Inv (restore mem t st)
      restore-Inv h = record {
        distinct = rw entities-restore h.distinct;
        below = λ i c. ground (arith, entities-restore, next-restore, h.below i);
        sound = λ e i l. ground (arith, entities-restore, sound-restore e i l, cells-restore i);
        complete = λ i c. ground (arith, entities-restore, complete-restore i h, cells-restore i);
      }

pub pending_of_same :
    {E S : Type 0} (f g : ℕ → TrackedEntity E S) (is : List ℕ)
    → ((j : ℕ) → contains j is ≡ true → f j ≡ g j)
    → pending_of f is ≡ pending_of g is
unfolding pending_of
pending_of_same f g [] h = refl
pending_of_same f g (i ∷ is) h =
    ground (arith, h i, ==_refl i, pending_of_same f g is (λ j c. h j (ground arith)))

pub restored_cell :
    {E S : Type 0} (mem : ℕ → E) (t later : Tracker E S) (i : ℕ)
    → contains i t.entities ≡ true
    → (restore mem later (save t)).cells i ≡ t.cells i
restored_cell mem t later i c = cells-restore mem (save t) later i ∙ (unfold save in rw c refl)

pub pending_back :
    {E S : Type 0} (mem : ℕ → E) (t later : Tracker E S)
    → get_pending_changes (restore mem later (save t)) ≡ get_pending_changes t
unfolding get_pending_changes
pending_back mem t later =
    rw (entities-restore mem (save t) later)
      (unfold save in pending_of_same _ t.cells t.entities (λ i c. restored_cell mem t later i c))

-- After a rollback from any later tracker to a state that a well-formed tracker saved, exactly
-- the entities of that time are tracked, each with the cell of that time, the map by pointer
-- finds each of them and nothing else, and the pending changes are those of that time.
pub restore-save :
    {E S : Type 0} (mem : ℕ → E) (t later : Tracker E S)
    → Inv t
    → t.next ≤ later.next
    → let back = restore mem later (save t) in
      (back.entities ≡ t.entities)
      × ((i : ℕ) → contains i t.entities ≡ true → back.cells i ≡ t.cells i)
      × ((e i : ℕ)
          → (lookup nat_same e back.index ≡ some i)
            ↔ ((contains i t.entities ≡ true) × ((t.cells i).entity ≡ e)))
      × (get_pending_changes back ≡ get_pending_changes t)
unfolding save
restore-save mem t later v le =
    let saved = IsSaved-mono t.next later.next (save t) le (save-IsSaved t v) in
    let back_cells = λ (i : ℕ) (c : contains i t.entities ≡ true). restored_cell mem t later i c in
    (
      entities-restore mem (save t) later,
      back_cells,
      (λ e i. (
        sound-restore mem (save t) later e i,
        λ p. ground (arith, complete-restore mem (save t) later i saved),
      )),
      pending_back mem t later,
    )
