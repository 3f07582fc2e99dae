-- ===== src/EventStore/Projection.antt =====
-- A projection: passes that read the log from the checkpoint and save it with the read model, among
-- appends, the passes of other projections and replays.
use mathlib.Core.Path.{subst}
use drel.Base.{
  ℕ, suc, ◌+◌, ◌≡◌, ◌∙◌, refl, sym, ap, true, false, Option, [], ◌∷◌, ◌++◌, List, Text, All,
  Option-cases, inl, inr, same_text, keep, take, drop, append_assoc, append-nil, Bool, none,
}
use drel.Retry.{ℤ}
use drel.EventStore.{Position, before, Record, Log, append_with_metadata, last_position, read_all}
use drel.EventStore.Checkpoints.{
  start, Checkpoints, load, save_position, reset, load-save_position, load-save_position_other,
}
use drel.EventStore.Follow.{
  is_after, IsOrdered, keep-All, take-drop, at_least_one-suc, in_order_ordered, before_self,
  before_asym, IsOrdered-keep,
}
use drel.EventStore.Order.{IsLog, Call, settled, settled-IsLog, after_start}
use drel.EventStore.RoundTrip.{append_with_metadata-grows}

-- The read model is the list of the records that the projection handled.
pub record World : Type 0 where
  pub log : Log
  pub checkpoints : Checkpoints
  pub model : Log

abbrev pub new_world : World
new_world = record { log = []; checkpoints = []; model = [] }

unfoldable pub handled : Text → World → Log → World
handled projection w [] = w
handled projection w (r ∷ rs) = record w {
  checkpoints = save_position projection (last_position r rs) w.checkpoints;
  model = w.model ++ r ∷ rs;
}

module _ {V : Type 0} (encode : V → Option (Text × Text)) (refuses : Text → ℕ → Log → Bool)
    (projection : Text) where
  -- A pass that fails is undone with its transaction, so it is no step.
  pub data Step : Type 0 where
    append : Call encode refuses → Step
    pass : ℤ → Step
    saved_other : (other : Text) → Position → same_text other projection ≡ false → Step
    replay : Step

  unfoldable pub step : Step → World → World
  unfolding handled
  step (append c) w = record w { log = settled encode refuses c w.log }
  step (pass limit) w = handled projection w (read_all (load projection w.checkpoints) limit w.log)
  step (saved_other other p e) w = record w { checkpoints = save_position other p w.checkpoints }
  step replay w = record w { checkpoints = reset projection w.checkpoints; model = [] }

  unfoldable pub session : List Step → World → World
  session [] w = w
  session (s ∷ ss) w = session ss (step s w)

-- The position that a read model stands for.
unfoldable reached : Log → Position
reached [] = start
reached (r ∷ rs) = last_position r rs

reached-++ : (m : Log) (r : Record) (rs : Log) → reached (m ++ r ∷ rs) ≡ last_position r rs
unfolding reached last_position
reached-++ [] r rs = refl
reached-++ (x ∷ []) r rs = refl
reached-++ (x ∷ y ∷ m) r rs = reached-++ (y ∷ m) r rs

All-first : (P : Record → Type 0) (xs ys : Log) → All P (xs ++ ys) → All P xs
All-first P [] ys h = tt
All-first P (x ∷ xs) ys h = (h.0, All-first P xs ys h.1)

last_is_in :
    (P : Position → Type 0) (x : Record) (ys : Log)
    → All (λ r. P r.position) (x ∷ ys)
    → P (last_position x ys)
unfolding last_position
last_is_in P x [] h = h.0
last_is_in P x (y ∷ ys) h = last_is_in P y ys h.1

-- The rows behind the last of the first ones are the others.
keep_behind :
    (x : Record) (ys rest : Log)
    → IsOrdered (x ∷ ys ++ rest)
    → keep (is_after (last_position x ys)) (x ∷ ys ++ rest) ≡ rest
unfolding IsOrdered last_position
keep_behind x [] rest h = rw (before_self x.position) (keep-All x.position rest h.0)
keep_behind x (y ∷ ys) rest h =
    let p = last_position y ys in
    let later : before x.position p ≡ true =
      last_is_in (λ q. before x.position q ≡ true) y ys
        (All-first (λ r. is_after x.position r ≡ true) (y ∷ ys) rest h.0) in
    rw (before_asym x.position p later) (keep_behind y ys rest h.1)

keep-reached : (m rest : Log) → IsLog (m ++ rest) → keep (is_after (reached m)) (m ++ rest) ≡ rest
unfolding IsLog reached
keep-reached [] rest h = keep-All start rest (after_start rest h.0)
keep-reached (x ∷ ys) rest h = keep_behind x ys rest h.1

-- The log is what the model holds and a rest behind it, and the checkpoint is where the model ends.
unfoldable IsKept : Text → World → Type 0
unfolding IsLog reached
IsKept projection w =
    IsLog w.log
    × (load projection w.checkpoints ≡ reached w.model)
    × ((rest : Log) × (w.log ≡ w.model ++ rest))

IsKept-rest :
    (projection : Text) (w : World)
    → IsKept projection w
    → w.log ≡ w.model ++ keep (is_after (load projection w.checkpoints)) w.log
unfolding IsKept
IsKept-rest projection w (ordered, at, kept) =
    let (rest, e) = kept in
    let left : keep (is_after (load projection w.checkpoints)) w.log ≡ rest =
      rw (at, e) (keep-reached w.model rest (subst IsLog e ordered)) in
    rw left e

handled-IsKept :
    (projection : Text) (w : World) (n : ℕ) (rest : Log)
    → IsLog w.log
    → load projection w.checkpoints ≡ reached w.model
    → w.log ≡ w.model ++ rest
    → IsKept projection (handled projection w (take (suc n) rest))
unfolding IsKept handled
handled-IsKept projection w n [] ordered at e = (ordered, at, ([], e))
handled-IsKept projection w n (r ∷ rs) ordered at e = (
  ordered,
  load-save_position projection (last_position r (take n rs)) w.checkpoints
      ∙ sym (reached-++ w.model r (take n rs)),
  (
    drop n rs,
    e
        ∙ ap (λ q. w.model ++ r ∷ q) (sym (take-drop n rs))
        ∙ sym (append_assoc w.model (r ∷ take n rs) (drop n rs)),
  ),
)

module _ {V : Type 0} (encode : V → Option (Text × Text)) (refuses : Text → ℕ → Log → Bool)
    (projection : Text) where
  settled-grows :
      (c : Call encode refuses) (log : Log)
      → (rs : Log) × (settled encode refuses c log ≡ log ++ rs)
  unfolding settled
  settled-grows c log =
      elim (Option-cases
        (append_with_metadata encode refuses c.stream c.expected c.events c.metadata log).1) [
          | inl n ↦
              let h =
                append_with_metadata-grows encode refuses c.stream c.expected c.events c.metadata
                  log n in
              rw (n, settled) (h.0, h.1)
          | inr (e, k) ↦ rw (k, settled) ([], sym (append-nil log))
        ]

  step-IsKept :
      (s : Step encode refuses projection) (w : World)
      → IsKept projection w
      → IsKept projection (step encode refuses projection s w)
  unfolding IsKept step read_all reset
  step-IsKept (append c) w (ordered, at, kept) =
      let (rest, e) = kept in
      let (rs, grown) = settled-grows c w.log in
      (
        settled-IsLog encode refuses c w.log ordered,
        at,
        (rest ++ rs, grown ∙ ap (λ q. q ++ rs) e ∙ append_assoc w.model rest rs),
      )
  step-IsKept (pass limit) w (ordered, at, kept) =
      let (rest, e) = kept in
      let left : keep (is_after (load projection w.checkpoints)) w.log ≡ rest =
        rw at (rw e (keep-reached w.model rest (subst IsLog e ordered))) in
      let (n, one) = at_least_one-suc limit in
      let rest_ordered : IsOrdered rest =
        subst IsOrdered left (IsOrdered-keep (load projection w.checkpoints) w.log ordered.1) in
      rw (left, in_order_ordered rest rest_ordered, one)
        (handled-IsKept projection w n rest ordered at e)
  step-IsKept (saved_other other p d) w (ordered, at, kept) =
      (ordered, load-save_position_other other projection p w.checkpoints d ∙ at, kept)
  step-IsKept replay w (ordered, at, kept) =
      (ordered, load-save_position projection start w.checkpoints, (w.log, refl))

  session-IsKept :
      (ss : List (Step encode refuses projection)) (w : World)
      → IsKept projection w
      → IsKept projection (session encode refuses projection ss w)
  unfolding session
  session-IsKept [] w h = h
  session-IsKept (s ∷ ss) w h =
      session-IsKept ss (step encode refuses projection s w) (step-IsKept s w h)

  new_world-IsKept : IsKept projection new_world
  unfolding IsKept IsOrdered load drel.Base.Assoc.lookup
  new_world-IsKept = ((tt, tt), refl, ([], refl))

  -- From empty tables, after any passes of a projection with any limits, each of which saves its
  -- checkpoint in the transaction of its read model, among appends, other projections and replays: what
  -- the read model handled, and then the rows behind the checkpoint, is the log, so that no event is
  -- handled twice, out of order or never.
  pub session_lem :
      (ss : List (Step encode refuses projection))
      → (session encode refuses projection ss new_world).log
        ≡ (session encode refuses projection ss new_world).model
          ++ keep
              (is_after
                (load projection (session encode refuses projection ss new_world).checkpoints))
              (session encode refuses projection ss new_world).log
  session_lem ss =
      IsKept-rest projection (session encode refuses projection ss new_world)
        (session-IsKept ss new_world new_world-IsKept)
