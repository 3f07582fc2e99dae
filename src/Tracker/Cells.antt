-- ===== src/Tracker/Cells.antt =====
-- The types of tracker.go and the pieces that its operations share.
use drel.Base.{
  ℕ, suc, Bool, true, false, Option, none, some, List, [], ◌∷◌, ◌++◌, Text, ◌==◌, if◌then◌else◌,
}
use drel.Base.Assoc.{lookup, insert, erase}
use drel.Dialect.Builder.{ColumnValue}
use drel.Tracker.Keys.{Pk, Key, same_key, is_zero_pk}

pub data EntityState : Type 0 where
  unchanged added modified deleted : EntityState

pub data KeyStrategy : Type 0 where
  auto_increment app_assigned : KeyStrategy

-- The part of `ModelMetaBase` that the tracker reads. `E` is what an entity pointer points at, and
-- `S` is a snapshot; a nil function is `none`. A generator takes the seed of its next key.
pub record Meta (E S : Type 0) : Type 0 where
  pub table : Text
  pub pk_value : Option (E → Option Pk)
  pub snapshot : Option (E → S)
  pub diff : Option (E → S → List ColumnValue)
  pub key_strategy : KeyStrategy
  pub generate_key : Option (ℕ → Pk)
  pub set_key : Option (E → Pk → E)
  pub key_is_zero : Option (E → Bool)

pub record KeyConfig : Type 0 where
  pub strategy : KeyStrategy
  pub generate : Option (ℕ → Pk)

pub record TrackedEntity (E S : Type 0) : Type 0 where
  pub entity : ℕ
  pub state : EntityState
  pub snapshot : Option S
  pub meta : Meta E S
  pub hard_delete : Bool
  pub force_update : Bool
  pub loaded : Bool
  pub ever_dirty : Bool
  pub flushed : Bool

pub record Tracker (E S : Type 0) : Type 0 where
  pub entities : List ℕ
  pub cells : ℕ → TrackedEntity E S
  pub index : List (ℕ × ℕ)
  pub by_pk : List (Key × ℕ)
  pub next : ℕ

abbrev pub nat_same : ℕ → ℕ → Bool
nat_same a b = a == b

-- A write through a pointer.
abbrev pub update {ℓ} : {A : Type ℓ} → (ℕ → A) → ℕ → A → ℕ → A
update f i a j = if j == i then a else f j

abbrev pub is_unchanged : EntityState → Bool
is_unchanged EntityState.unchanged = true
is_unchanged _ = false

abbrev pub is_added : EntityState → Bool
is_added EntityState.added = true
is_added _ = false

abbrev pub is_modified : EntityState → Bool
is_modified EntityState.modified = true
is_modified _ = false

abbrev pub is_deleted : EntityState → Bool
is_deleted EntityState.deleted = true
is_deleted _ = false

key_of_pk : Text → Option Pk → Option Key
key_of_pk table none = none
key_of_pk table (some pk) = if is_zero_pk pk then none else some (record { table = table; pk = pk })

abbrev pub index_pk : Option Key → ℕ → List (Key × ℕ) → List (Key × ℕ)
index_pk none i by_pk = by_pk
index_pk (some k) i by_pk = insert same_key k i by_pk

-- `if cur, ok := byPK[key]; ok && cur == te { delete(byPK, key) }`
drop_if : Bool → Key → List (Key × ℕ) → List (Key × ℕ)
drop_if b k by_pk = if b then erase same_key k by_pk else by_pk

unfoldable pub drop_pk : Option Key → ℕ → List (Key × ℕ) → List (Key × ℕ)
unfolding drop_if
drop_pk none i by_pk = by_pk
drop_pk (some k) i by_pk = elim (lookup same_key k by_pk) [
  | none ↦ by_pk
  | some cur ↦ drop_if (cur == i) k by_pk
]

module _ {E S : Type 0} where
  key_of_content : Meta E S → E → Option (E → Option Pk) → Option Key
  unfolding key_of_pk
  key_of_content m e none = none
  key_of_content m e (some f) = key_of_pk m.table (f e)

  unfoldable pub pk_key : (ℕ → E) → ℕ → Meta E S → Option Key
  unfolding key_of_content
  pk_key mem e m = key_of_content m (mem e) m.pk_value

  -- `entities = append(entities, te)` and `index[entity] = te`, with a new cell.
  unfoldable pub add_cell : Tracker E S → TrackedEntity E S → Tracker E S
  add_cell t te = record t {
    entities = t.entities ++ t.next ∷ [];
    cells = update t.cells t.next te;
    index = insert nat_same te.entity t.next t.index;
    next = suc t.next;
  }

  unfoldable pub loaded_cell : ℕ → Option S → Meta E S → TrackedEntity E S
  loaded_cell e snap m = record {
    entity = e;
    state = EntityState.unchanged;
    snapshot = snap;
    meta = m;
    hard_delete = false;
    force_update = false;
    loaded = true;
    ever_dirty = false;
    flushed = false;
  }

  abbrev pub snapshot_with : Option (E → S) → E → Option S
  snapshot_with none e = none
  snapshot_with (some f) e = some (f e)

unfoldable pub new_tracker : (E S : Type 0) → Meta E S → Tracker E S
new_tracker E S m = record {
  entities = [];
  cells = λ i. loaded_cell i none m;
  index = [];
  by_pk = [];
  next = 0;
}
