-- ===== src/EventStore/Checkpoints.antt =====
-- es/checkpoint.go: how far each projection has read the log. The table is an association list; the
-- time of an update is left out, and a failed statement undoes its transaction.
use drel.Base.{
  ◌≡◌, ◌∙◌, ap, false, Option, none, some, List, Text, same_text, same_text_iff, same_text_refl,
  if◌then◌else◌,
}
use drel.Base.Assoc.{lookup, insert, lookup-insert}
use drel.EventStore.{Position}

-- The zero position, where a projection begins.
abbrev pub start : Position
start = record { xact_id = 0; global_pos = 0 }

abbrev pub Checkpoints : Type 0
Checkpoints = List (Text × Position)

-- A row that is not found is the zero position.
unfoldable pub or_start : Option Position → Position
or_start none = start
or_start (some p) = p

unfoldable pub load : Text → Checkpoints → Position
unfolding or_start
load projection cps = or_start (lookup same_text projection cps)

unfoldable pub save_position : Text → Position → Checkpoints → Checkpoints
save_position projection p cps = insert same_text projection p cps

unfoldable pub reset : Text → Checkpoints → Checkpoints
unfolding save_position
reset projection cps = save_position projection start cps

pub load-save_position :
    (projection : Text) (p : Position) (cps : Checkpoints)
    → load projection (save_position projection p cps) ≡ p
unfolding load save_position
load-save_position projection p cps =
    let e = lookup-insert same_text same_text_iff projection projection p cps in
    let h = same_text_refl projection in
    ap or_start (e ∙ ap (λ b. if b then some p else lookup same_text projection cps) h)

pub load-save_position_other :
    (other projection : Text) (p : Position) (cps : Checkpoints)
    → same_text other projection ≡ false
    → load projection (save_position other p cps) ≡ load projection cps
unfolding load save_position
load-save_position_other other projection p cps e =
    let h = lookup-insert same_text same_text_iff other projection p cps in
    ap or_start (h ∙ ap (λ b. if b then some p else lookup same_text projection cps) e)
