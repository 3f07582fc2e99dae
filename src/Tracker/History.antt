-- ===== src/Tracker/History.antt =====
-- Any history of a transaction: the calls on the tracker, the program's writes to its entities, and
-- nested savepoints, in any order.
use drel.Base.{ℕ, ◌≤◌, ◌≡◌, refl, Option, List, [], ◌∷◌, arith, Text}
use drel.Tracker.Cells.{EntityState, Meta, KeyConfig, Tracker, add_cell, new_tracker}
use drel.Tracker.Edit.{
  track, track_by_key, track_new, mark_added, attach, mark_deleted, mark_hard_deleted, detach,
}
use drel.Tracker.Flush.{detect_changes, reset_flushed, mark_flushed, post_commit, commit_loop}
use drel.Tracker.Savepoint.{TrackerState, save, restore}
use drel.Tracker.Invariant.{
  Inv, after, new_tracker-Inv, track-Inv, mark_added-Inv, attach-Inv, detach-Inv, mark_deleted-Inv,
  mark_hard_deleted-Inv,
}
use drel.Tracker.Pending.{detect_changes-Inv, reset_flushed-Inv, mark_flushed-Inv}
use drel.Tracker.Commit.{post_commit-Inv}
use drel.Tracker.Rollback.{IsSaved, save-IsSaved, IsSaved-mono, restore-Inv, next-restore}

-- The memory, the tracker, and the states saved by the open savepoints, innermost first.
pub record Session (E S : Type 0) : Type 0 where
  pub mem : ℕ → E
  pub tracker : Tracker E S
  pub saved : List (TrackerState E S)

module _ {E S : Type 0} where
  pub data Step (s : Session E S) : Session E S → Type 0 where
    writes : (mem : ℕ → E) → Step s (record s { mem = mem })
    tracks :
        (e : ℕ) (snap : Option S) (m : Meta E S)
        → Step s (record s { tracker = (track s.mem s.tracker e snap m).0 })
    adds :
        (registry : Text → Option KeyConfig) (seed e : ℕ) (m : Meta E S)
        → Step s (record s {
          mem = (mark_added registry seed s.mem s.tracker e m).0;
          tracker = (mark_added registry seed s.mem s.tracker e m).1;
        })
    attaches :
        (e : ℕ) (st : EntityState) (m : Meta E S)
        → Step s (record s { tracker = attach s.mem s.tracker e st m })
    detaches : (e : ℕ) → Step s (record s { tracker = detach s.mem s.tracker e })
    removes :
        (e : ℕ) → Step s (record s { tracker = after s.tracker (mark_deleted s.mem s.tracker e) })
    hard_removes :
        (e : ℕ) → Step s (record s { tracker = after s.tracker (mark_hard_deleted s.tracker e) })
    detects : Step s (record s { tracker = detect_changes s.mem s.tracker })
    flushes : (is : List ℕ) → Step s (record s { tracker = mark_flushed is s.tracker })
    resets : Step s (record s { tracker = reset_flushed s.tracker })
    commits : Step s (record s { tracker = post_commit s.mem s.tracker })
    opens : Step s (record s { saved = save s.tracker ∷ s.saved })
    releases :
        (st : TrackerState E S) (rest : List (TrackerState E S))
        → s.saved ≡ st ∷ rest
        → Step s (record s { saved = rest })
    rolls_back :
        (st : TrackerState E S) (rest : List (TrackerState E S))
        → s.saved ≡ st ∷ rest
        → Step s (record s { tracker = restore s.mem s.tracker st; saved = rest })

  pub data Reach (s : Session E S) : Session E S → Type 0 where
    here : Reach s s
    next : {t u : Session E S} → Reach s t → Step t u → Reach s u

  abbrev pub AllSaved : ℕ → List (TrackerState E S) → Type 0
  AllSaved n [] = Unit {0}
  AllSaved n (st ∷ rest) = IsSaved n st × AllSaved n rest

  AllSaved-mono :
      (m n : ℕ) (sts : List (TrackerState E S)) → m ≤ n → AllSaved m sts → AllSaved n sts
  AllSaved-mono m n [] le h = tt
  AllSaved-mono m n (st ∷ rest) le h = (IsSaved-mono m n st le h.0, AllSaved-mono m n rest le h.1)

  -- No cell number is used again.
  next-track :
      (mem : ℕ → E) (t : Tracker E S) (e : ℕ) (snap : Option S) (m : Meta E S)
      → t.next ≤ (track mem t e snap m).0.next
  unfolding track track_by_key track_new add_cell
  next-track mem t e snap m = ground arith

  next-mark_added :
      (registry : Text → Option KeyConfig) (seed : ℕ) (mem : ℕ → E) (t : Tracker E S) (e : ℕ)
      (m : Meta E S)
      → t.next ≤ (mark_added registry seed mem t e m).1.next
  unfolding mark_added add_cell
  next-mark_added registry seed mem t e m = ground arith

  next-attach :
      (mem : ℕ → E) (t : Tracker E S) (e : ℕ) (st : EntityState) (m : Meta E S)
      → t.next ≤ (attach mem t e st m).next
  unfolding attach add_cell
  next-attach mem t e st m = ground arith

  next-detach : (mem : ℕ → E) (t : Tracker E S) (e : ℕ) → t.next ≡ (detach mem t e).next
  unfolding detach
  next-detach mem t e = ground arith

  next-mark_deleted :
      (mem : ℕ → E) (t : Tracker E S) (e : ℕ) → t.next ≤ (after t (mark_deleted mem t e)).next
  unfolding mark_deleted
  next-mark_deleted mem t e = ground (arith, next-detach mem t e)

  next-mark_hard_deleted :
      (t : Tracker E S) (e : ℕ) → t.next ≤ (after t (mark_hard_deleted t e)).next
  unfolding mark_hard_deleted
  next-mark_hard_deleted t e = ground arith

  next-commit_loop :
      (mem : ℕ → E) (is surviving : List ℕ) (t : Tracker E S)
      → (commit_loop mem is surviving t).next ≡ t.next
  unfolding commit_loop
  next-commit_loop mem [] surviving t = refl
  next-commit_loop mem (i ∷ is) surviving t = next-commit_loop mem is _ _

  -- The tracker and every saved state are well formed.
  pub record IsValid (s : Session E S) : Type 0 where
    pub tracked : Inv s.tracker
    pub restorable : AllSaved s.tracker.next s.saved

  keeps :
      (s : Session E S) (mem : ℕ → E) (t : Tracker E S)
      → s.tracker.next ≤ t.next
      → Inv t
      → IsValid s
      → IsValid (record s { mem = mem; tracker = t })
  keeps s mem t le v h = record {
    tracked = v;
    restorable = AllSaved-mono s.tracker.next t.next s.saved le h.restorable;
  }

  saved_head :
      (n : ℕ) (sts : List (TrackerState E S)) (st : TrackerState E S)
      (rest : List (TrackerState E S))
      → sts ≡ st ∷ rest
      → AllSaved n sts
      → AllSaved n (st ∷ rest)
  saved_head n sts st rest e h = rw e at h

  Step-IsValid : {s u : Session E S} → Step s u → IsValid s → IsValid u
  unfolding detect_changes mark_flushed reset_flushed post_commit
  Step-IsValid {s} (writes mem) h = keeps s mem s.tracker (omega arith) h.tracked h
  Step-IsValid {s} (tracks e snap m) h =
      keeps s s.mem _ (next-track s.mem s.tracker e snap m)
        (track-Inv s.mem s.tracker e snap m h.tracked) h
  Step-IsValid {s} (adds registry seed e m) h =
      keeps s _ _ (next-mark_added registry seed s.mem s.tracker e m)
        (mark_added-Inv registry seed s.mem s.tracker e m h.tracked) h
  Step-IsValid {s} (attaches e st m) h =
      keeps s s.mem _ (next-attach s.mem s.tracker e st m)
        (attach-Inv s.mem s.tracker e st m h.tracked) h
  Step-IsValid {s} (detaches e) h =
      keeps s s.mem _ (omega (arith, next-detach s.mem s.tracker e))
        (detach-Inv s.mem s.tracker e h.tracked) h
  Step-IsValid {s} (removes e) h =
      keeps s s.mem _ (next-mark_deleted s.mem s.tracker e)
        (mark_deleted-Inv s.mem s.tracker e h.tracked) h
  Step-IsValid {s} (hard_removes e) h =
      keeps s s.mem _ (next-mark_hard_deleted s.tracker e)
        (mark_hard_deleted-Inv s.tracker e h.tracked) h
  Step-IsValid {s} detects h =
      keeps s s.mem (detect_changes s.mem s.tracker) (omega arith)
        (detect_changes-Inv s.mem s.tracker h.tracked) h
  Step-IsValid {s} (flushes is) h =
      keeps s s.mem (mark_flushed is s.tracker) (omega arith)
        (mark_flushed-Inv is s.tracker h.tracked) h
  Step-IsValid {s} resets h =
      keeps s s.mem (reset_flushed s.tracker) (omega arith) (reset_flushed-Inv s.tracker h.tracked)
        h
  Step-IsValid {s} commits h =
      keeps s s.mem (post_commit s.mem s.tracker)
        (omega (arith, next-commit_loop s.mem s.tracker.entities [] s.tracker))
        (post_commit-Inv s.mem s.tracker h.tracked) h
  Step-IsValid {s} opens h = record {
    tracked = h.tracked;
    restorable = (save-IsSaved s.tracker h.tracked, h.restorable);
  }
  Step-IsValid {s} (releases st rest e) h = record {
    tracked = h.tracked;
    restorable = (saved_head s.tracker.next s.saved st rest e h.restorable).1;
  }
  Step-IsValid {s} (rolls_back st rest e) h =
      let good = saved_head s.tracker.next s.saved st rest e h.restorable in
      record {
        tracked = restore-Inv s.mem st s.tracker good.0;
        restorable =
            AllSaved-mono s.tracker.next (restore s.mem s.tracker st).next rest
              (omega (arith, next-restore s.mem st s.tracker)) good.1;
      }

  abbrev pub fresh : (ℕ → E) → Meta E S → Session E S
  fresh mem m = record { mem = mem; tracker = new_tracker E S m; saved = [] }

  -- Whatever a transaction does, the tracker holds each tracked entity once, its map by pointer
  -- agrees with its list, and every open savepoint can be restored.
  pub Reach-IsValid :
      (mem : ℕ → E) (m : Meta E S) {u : Session E S} → Reach (fresh mem m) u → IsValid u
  Reach-IsValid mem m here = record { tracked = new_tracker-Inv m; restorable = tt }
  Reach-IsValid mem m (next r st) = Step-IsValid st (Reach-IsValid mem m r)
