-- ===== src/Tracker/Identity.antt =====
-- The identity map, and removal: one tracked instance for each row that is loaded.
use drel.Base.{
  ℕ, suc, ◌≡◌, ◌≢◌, refl, ◌∙◌, true, Option, none, some, arith, ==_iff, ==_refl, Option-cases, inl,
  inr,
}
use drel.Base.Assoc.{lookup, insert, lookup-insert}
use drel.Tracker.Keys.{Key, same_key}
use drel.Tracker.Cells.{
  EntityState, Meta, TrackedEntity, Tracker, nat_same, pk_key, add_cell, loaded_cell,
}
use drel.Tracker.Keys.{same_key_iff}
use drel.Tracker.Edit.{track, track_new, track_by_key, attach, attached_cell}

same_key_refl : (k : Key) → same_key k k ≡ true
same_key_refl k = (same_key_iff k k).1 refl

module _ {E S : Type 0} (mem : ℕ → E) (t : Tracker E S) where
  module _ (e : ℕ) (s : Option S) (m : Meta E S) (k : Key) (new : lookup nat_same e t.index ≡ none)
      (keyed : pk_key mem e m ≡ some k) where
    track_seen :
        (i : ℕ) → lookup same_key k t.by_pk ≡ some i → track mem t e s m ≡ (t, (t.cells i).entity)
    unfolding track track_by_key
    track_seen i found = rw (new, track, keyed, track_by_key, found, track_by_key)

    track_fresh : lookup same_key k t.by_pk ≡ none → track mem t e s m ≡ track_new (some k) t e s m
    unfolding track track_by_key
    track_fresh absent = rw (new, track, keyed, track_by_key, absent, track_by_key)

second_of_new :
    {E S : Type 0} (mem : ℕ → E) (t : Tracker E S) (e d : ℕ) (s r : Option S) (m n : Meta E S)
    (k : Key)
    → lookup nat_same d t.index ≡ none
    → e ≢ d
    → pk_key mem d n ≡ some k
    → track mem (track_new (some k) t e s m).0 d r n ≡ track_new (some k) t e s m
unfolding track_new add_cell loaded_cell
second_of_new mem t e d s r m n k hd ne kd =
    track_seen mem (track_new (some k) t e s m).0 d r n k
      (ground (arith, lookup-insert nat_same ==_iff e d t.next t.index)) kd t.next
      (ground (arith, lookup-insert same_key same_key_iff k k t.next t.by_pk, same_key_refl k))
    ∙ ground (arith, ==_refl t.next)

attach_new :
    {E S : Type 0} (mem : ℕ → E) (t : Tracker E S) (e : ℕ) (st : EntityState) (m : Meta E S)
    → lookup nat_same e t.index ≡ none
    → attach mem t e st m ≡ add_cell t (attached_cell mem e st m)
unfolding attach
attach_new mem t e st m new = rw (new, attach)

other_index :
    {E S : Type 0} (t : Tracker E S) (te : TrackedEntity E S) (d : ℕ)
    → lookup nat_same d t.index ≡ none
    → te.entity ≢ d
    → lookup nat_same d (add_cell t te).index ≡ none
unfolding add_cell
other_index t te d hd ne = ground (arith, lookup-insert nat_same ==_iff te.entity d t.next t.index)

module _ {E S : Type 0} (mem : ℕ → E) (t : Tracker E S) where
  -- A second load of a row, by another pointer, gives the instance of the first load and tracks
  -- nothing more, whether the row was known by its key before or not.
  pub track_same_row :
      (e d : ℕ) (s r : Option S) (m n : Meta E S) (k : Key)
      → lookup nat_same e t.index ≡ none
      → lookup nat_same d t.index ≡ none
      → e ≢ d
      → pk_key mem e m ≡ some k
      → pk_key mem d n ≡ some k
      → track mem (track mem t e s m).0 d r n ≡ track mem t e s m
  track_same_row e d s r m n k he hd ne ke kd = elim (Option-cases (lookup same_key k t.by_pk)) [
    | inr (i, found) ↦
        rw (track_seen mem t e s m k he ke i found) (track_seen mem t d r n k hd kd i found)
    | inl absent ↦
        rw (track_fresh mem t e s m k he ke absent) (second_of_new mem t e d s r m n k hd ne kd)
  ]

  -- An attached entity is not known by its key: loading its row afterwards, by another pointer and
  -- with no other instance known by that key, tracks a second instance beside it.
  pub attach_then_track :
      (e d : ℕ) (st : EntityState) (r : Option S) (m n : Meta E S) (k : Key)
      → lookup nat_same e t.index ≡ none
      → lookup nat_same d t.index ≡ none
      → e ≢ d
      → pk_key mem e m ≡ some k
      → pk_key mem d n ≡ some k
      → lookup same_key k t.by_pk ≡ none
      → let after = track mem (attach mem t e st m) d r n in
        (after.1 ≡ d)
        × (lookup nat_same e after.0.index ≡ some t.next)
        × (lookup nat_same d after.0.index ≡ some (suc t.next))
  attach_then_track e d st r m n k he hd ne ke kd absent = rw (attach_new mem t e st m he) (
      rw
        (track_fresh mem (add_cell t (attached_cell mem e st m)) d r n k
          (other_index t (attached_cell mem e st m) d hd (unfold attached_cell in ne)) kd
          (unfold add_cell in absent))
        (unfold track_new add_cell loaded_cell attached_cell in
          ground (
            arith,
            lookup-insert nat_same ==_iff d e (suc t.next) (insert nat_same e t.next t.index),
            lookup-insert nat_same ==_iff d d (suc t.next) (insert nat_same e t.next t.index),
            lookup-insert nat_same ==_iff e e t.next t.index,
            ==_refl d,
            ==_refl e,
          )))
