-- ===== src/Tracker/Commit.antt =====
-- `PostCommit`: what is left of the tracker after a commit.
use drel.Base.{
  ℕ, ◌≡◌, refl, sym, ◌∙◌, Bool, true, false, ◌&&◌, not, Option, List, [], ◌∷◌, ◌++◌, arith,
  if◌then◌else◌, keep, append_assoc, append-nil,
}
use drel.Base.Assoc.{erase}
use drel.Base.Ids.{contains, Distinct, remove, contains-keep, keep_same, keep_none}
use drel.Tracker.Keys.{Key}
use drel.Tracker.Cells.{
  EntityState, TrackedEntity, Tracker, nat_same, update, is_added, is_modified, is_deleted, pk_key,
}
use drel.Tracker.Flush.{
  commit_loop, commit_cell, commit_maps, post_commit, get_pending_changes, PendingChanges,
  no_changes,
}
use drel.Tracker.Invariant.{Inv, Inv-by_pk, edit-Inv, removed-Inv}
use drel.Tracker.Pending.{get_pending_changes_lem}

contains-middle : (i : ℕ) (xs ys : List ℕ) → contains i (xs ++ i ∷ ys) ≡ true
contains-middle i [] ys = ground arith
contains-middle i (x ∷ xs) ys = ground (arith, contains-middle i xs ys)

-- The first occurrence is the one in the middle.
remove-middle :
    (i : ℕ) (xs ys : List ℕ) → Distinct (xs ++ i ∷ ys) → remove i (xs ++ i ∷ ys) ≡ xs ++ ys
remove-middle i [] ys d = ground arith
remove-middle i (x ∷ xs) ys d =
    ground (arith, d.0, contains-middle x xs ys, remove-middle i xs ys d.1)

Distinct-right : (xs ys : List ℕ) → Distinct (xs ++ ys) → Distinct ys
Distinct-right [] ys d = d
Distinct-right (x ∷ xs) ys d = Distinct-right xs ys d.1

pub pending_path :
    (pc : PendingChanges) → pc.adds ≡ [] → pc.updates ≡ [] → pc.deletes ≡ [] → pc ≡ no_changes
pending_path pc a u d i = record { adds = a i; updates = u i; deletes = d i }

module _ {E S : Type 0} where
  abbrev with_entities : Tracker E S → List ℕ → Tracker E S
  with_entities t is = record t { entities = is }

  commit_cell-entity :
      (st : EntityState) (mem : ℕ → E) (te : TrackedEntity E S)
      → (commit_cell st mem te).entity ≡ te.entity
  unfolding commit_cell
  commit_cell-entity EntityState.unchanged mem te = refl
  commit_cell-entity _ mem te = refl

  -- One round keeps the invariant of the survivors and of what is still to come.
  round-Inv :
      (mem : ℕ → E) (t : Tracker E S) (i : ℕ) (surviving is : List ℕ) (st : EntityState)
      (k : Option Key)
      → Inv (with_entities t (surviving ++ i ∷ is))
      → Inv (record t {
        entities = (if is_deleted st then surviving else surviving ++ i ∷ []) ++ is;
        cells = update t.cells i (commit_cell st mem (t.cells i));
        index = (commit_maps st k (t.cells i).entity i (t.index, t.by_pk)).0;
        by_pk = (commit_maps st k (t.cells i).entity i (t.index, t.by_pk)).1;
      })
  unfolding commit_maps
  round-Inv mem t i surviving is EntityState.deleted k v =
      let all : List ℕ = surviving ++ i ∷ is in
      let gone : Inv (record t {
        entities = remove i all;
        index = erase nat_same (t.cells i).entity t.index;
      }) =
        removed-Inv (with_entities t all) (t.cells i).entity i
          (v.complete i (contains-middle i surviving is)) v in
      let left : Inv (record t {
        entities = surviving ++ is;
        index = erase nat_same (t.cells i).entity t.index;
      }) =
        rw (remove-middle i surviving is v.distinct) at gone in
      Inv-by_pk _ _ (edit-Inv _ i _ (commit_cell-entity EntityState.deleted mem (t.cells i)) left)
  round-Inv mem t i surviving is st k v =
      let here : Inv (with_entities t ((surviving ++ i ∷ []) ++ is)) =
        rw (append_assoc surviving (i ∷ []) is) v in
      Inv-by_pk _ _ (edit-Inv _ i _ (commit_cell-entity st mem (t.cells i)) here)

  commit_loop-Inv :
      (mem : ℕ → E) (is surviving : List ℕ) (t : Tracker E S)
      → Inv (with_entities t (surviving ++ is))
      → Inv (commit_loop mem is surviving t)
  unfolding commit_loop
  commit_loop-Inv mem [] surviving t v = rw (append-nil surviving) at v
  commit_loop-Inv mem (i ∷ is) surviving t v = commit_loop-Inv mem is _ _ (
      round-Inv mem t i surviving is (t.cells i).state
        (pk_key mem (t.cells i).entity (t.cells i).meta) v)

  pub post_commit-Inv : (mem : ℕ → E) (t : Tracker E S) → Inv t → Inv (post_commit mem t)
  unfolding post_commit
  post_commit-Inv mem t v = commit_loop-Inv mem t.entities [] t v

  commit_loop-cells :
      (mem : ℕ → E) (is surviving : List ℕ) (t : Tracker E S) (j : ℕ)
      → Distinct is
      → (commit_loop mem is surviving t).cells j
        ≡ (if contains j is then commit_cell (t.cells j).state mem (t.cells j) else t.cells j)
  unfolding commit_loop
  commit_loop-cells mem [] surviving t j d = refl
  commit_loop-cells mem (i ∷ is) surviving t j d =
      commit_loop-cells mem is _ _ j d.1 ∙ ground (arith, d.0)

  abbrev pub survives : Tracker E S → ℕ → Bool
  survives t i = not (is_deleted (t.cells i).state)

  commit_loop-entities :
      (mem : ℕ → E) (is surviving : List ℕ) (t : Tracker E S)
      → Distinct is
      → (commit_loop mem is surviving t).entities ≡ surviving ++ keep (survives t) is
  unfolding commit_loop
  commit_loop-entities mem [] surviving t d = sym (append-nil surviving)
  commit_loop-entities mem (i ∷ is) surviving t d =
      commit_loop-entities mem is _ _ d.1
      ∙ ground (
        arith,
        keep_same
            (λ j. not (
              is_deleted
                (update t.cells i (commit_cell (t.cells i).state mem (t.cells i)) j).state))
            (survives t) is (λ j c. ground (arith, d.0)),
        append_assoc surviving (i ∷ []) (keep (survives t) is),
      )

  committed_cell :
      (mem : ℕ → E) (te : TrackedEntity E S)
      → is_deleted te.state ≡ false
      → ((commit_cell te.state mem te).state ≡ EntityState.unchanged)
        × ((commit_cell te.state mem te).flushed ≡ false)
  unfolding commit_cell
  committed_cell mem te h = ground arith

  module _ (mem : ℕ → E) (t : Tracker E S) (v : Inv t) where
    survivors : (post_commit mem t).entities ≡ keep (survives t) t.entities
    unfolding post_commit
    survivors = commit_loop-entities mem t.entities [] t v.distinct

    clean_cell :
        (i : ℕ)
        → contains i (keep (survives t) t.entities) ≡ true
        → (((post_commit mem t).cells i).state ≡ EntityState.unchanged)
          × (((post_commit mem t).cells i).flushed ≡ false)
    unfolding post_commit
    clean_cell i h = ground (
      arith,
      contains-keep (survives t) i t.entities,
      committed_cell mem (t.cells i),
      commit_loop-cells mem t.entities [] t i v.distinct,
    )

    none_left :
        (p : EntityState → Bool)
        → p EntityState.unchanged ≡ false
        → keep
            (λ i.
              not ((post_commit mem t).cells i).flushed && p ((post_commit mem t).cells i).state)
            (post_commit mem t).entities
          ≡ []
    none_left p h =
        rw survivors
          (keep_none _ (keep (survives t) t.entities) (λ i c. ground (arith, clean_cell i c)))

    -- After a commit exactly the entities that were not deleted are tracked, in their order, and none
    -- of them is pending before the next detection of changes.
    pub post_commit_lem :
        ((post_commit mem t).entities ≡ keep (survives t) t.entities)
        × (get_pending_changes (post_commit mem t) ≡ no_changes)
    post_commit_lem =
        let pending = get_pending_changes_lem (post_commit mem t) in
        (
          survivors,
          pending_path (get_pending_changes (post_commit mem t))
              (pending.0 ∙ none_left is_added refl) (pending.1 ∙ none_left is_modified refl)
              (pending.2 ∙ none_left is_deleted refl),
        )

    -- The cell of every tracked entity after a commit.
    pub post_commit-cells :
        (i : ℕ)
        → contains i t.entities ≡ true
        → (post_commit mem t).cells i ≡ commit_cell (t.cells i).state mem (t.cells i)
    unfolding post_commit
    post_commit-cells i h = commit_loop-cells mem t.entities [] t i v.distinct ∙ rw h refl
