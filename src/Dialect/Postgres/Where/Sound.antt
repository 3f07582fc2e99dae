-- ===== src/Dialect/Postgres/Where/Sound.antt =====
-- A clause prints with the arguments of its leaves in order, numbered without a gap.
use drel.Base.{
  ℕ, suc, ◌≤◌, ◌≡◌, refl, Bool, true, false, none, some, [], ◌∷◌, ◌++◌, List, arith, Text, codes,
  length, if◌then◌else◌, head_is, Bool-cases, inl, inr,
}
use drel.Ast.{
  Operator, Value, ComparisonNode, OrderByExpr, WhereClause, Clauses, clause, nil_slice, slice,
  no_clauses, cons_clause, logical_and, logical_or, logical_not,
}
use drel.Dialect.Numbered.{
  Numbered, lit, bind, nothing, ◌⊕◌, when, Prints, Prints-append, Prints-lit, Prints-nothing,
  Prints-bind, Prints-after, Prints-before, Prints-values, Numbers, Numbers-append, Numbers-lit,
  Numbers-join,
}
use drel.Dialect.Quote.{quote_col}
use drel.Dialect.Sqlite.Where.{is_empty_clause}
use drel.Dialect.Sqlite.Where.Sound.{IsFed}
use drel.Predicate.{
  count_loop, count_raw_placeholders, ScanState, scan_state, scan_skips, scan_is_mark,
}
use drel.Dialect.Postgres.Where.{
  write_order_by, operator_to_sql, write_between, write_in, write_binary, write_op,
  write_comparison, RawState, raw_state, raw_skips, raw_is_mark, raw_loop, has_content,
  write_logical, write_where, write_children,
}

-- The counter's state for the emitter's.
unfoldable pub counted : RawState → ScanState
counted RawState.normal = ScanState.normal
counted RawState.single_quoted = ScanState.single_quoted
counted RawState.double_quoted = ScanState.double_quoted
counted RawState.dollar_quoted = ScanState.dollar_quoted

abbrev SameNext : RawState → ℕ → Text → Type 0
SameNext st c rest =
    (scan_state (counted st) c rest ≡ counted (raw_state st c (head_is c rest)))
    × (scan_skips (counted st) c rest ≡ raw_skips st c (head_is c rest))
    × (scan_is_mark (counted st) c ≡ raw_is_mark st c)

same_steps : (st : RawState) (c : ℕ) (rest : Text) → SameNext st c rest
unfolding counted scan_state scan_skips scan_is_mark raw_state raw_skips raw_is_mark
same_steps RawState.normal c [] = (ground arith, ground arith, refl)
same_steps RawState.normal c (d ∷ rest) = (ground arith, ground arith, refl)
same_steps RawState.single_quoted c [] = (ground arith, ground arith, refl)
same_steps RawState.single_quoted c (d ∷ rest) = (ground arith, ground arith, refl)
same_steps RawState.double_quoted c rest = (ground arith, refl, refl)
same_steps RawState.dollar_quoted c [] = (ground arith, ground arith, refl)
same_steps RawState.dollar_quoted c (d ∷ rest) = (ground arith, ground arith, refl)

-- One step of the counter, in the emitter's terms.
counted_step :
    (st : RawState) (c : ℕ) (rest : Text)
    → count_loop (counted st) false (c ∷ rest) ≡ (
        let n =
          count_loop
            (counted (raw_state st c (head_is c rest)))
            (raw_skips st c (head_is c rest))
            rest in
        if raw_is_mark st c then suc n else n)
unfolding count_loop
counted_step st c rest = let (s, k, m) = same_steps st c rest in rw (s, k, m) refl

raw_loop-Prints :
    (st : RawState) (skip : Bool) (t : Text) (vs : List Value)
    → count_loop (counted st) skip t ≡ length vs
    → Prints vs (raw_loop st skip t vs)
unfolding raw_loop
raw_loop-Prints st skip [] [] h = Prints-nothing
raw_loop-Prints st skip [] (v ∷ vs) h = absurd (unfold count_loop in omega (arith, h))
raw_loop-Prints st true (c ∷ rest) vs h =
    Prints-after vs (c ∷ []) _ (raw_loop-Prints st false rest vs (unfold count_loop in h))
raw_loop-Prints st false (c ∷ rest) [] h = Prints-after [] (c ∷ []) _ (
    raw_loop-Prints (raw_state st c (head_is c rest)) (raw_skips st c (head_is c rest)) rest []
      (ground (arith, counted_step st c rest)))
raw_loop-Prints st false (c ∷ rest) (v ∷ vs) h = elim (Bool-cases (raw_is_mark st c)) [
  | inl mark ↦ rw mark (
      Prints-append (v ∷ []) vs (bind v) _ (Prints-bind v) (
        raw_loop-Prints (raw_state st c (head_is c rest)) (raw_skips st c (head_is c rest)) rest vs
          (ground (arith, counted_step st c rest))))
  | inr other ↦ rw other (
      Prints-after (v ∷ vs) (c ∷ []) _ (
        raw_loop-Prints (raw_state st c (head_is c rest)) (raw_skips st c (head_is c rest)) rest
          (v ∷ vs) (ground (arith, counted_step st c rest))))
]

-- The arguments of one comparison.
unfoldable pub op_arguments : Operator → Value → List Value → List Value
op_arguments Operator.op_is_null v vs = []
op_arguments Operator.op_is_not_null v vs = []
op_arguments Operator.op_in v vs = vs
op_arguments Operator.op_not_in v vs = vs
op_arguments Operator.op_between v (low ∷ high ∷ rest) = low ∷ high ∷ []
op_arguments Operator.op_between v vs = []
op_arguments op v vs = v ∷ []

-- The arguments of a clause: those of its leaves, from left to right.
unfoldable mutual
  unfolding op_arguments

  pub arguments : WhereClause → List Value
  arguments (clause cmp op children (some raw) args) = args
  arguments (clause (some cmp) op children none args) = op_arguments cmp.op cmp.value cmp.values
  arguments (clause none op nil_slice none args) = []
  arguments (clause none logical_not (slice no_clauses) none args) = []
  arguments (clause none logical_not (slice (cons_clause c cs)) none args) = arguments c
  arguments (clause none logical_and (slice cs) none args) = all_arguments cs
  arguments (clause none logical_or (slice cs) none args) = all_arguments cs

  pub all_arguments : Clauses → List Value
  all_arguments no_clauses = []
  all_arguments (cons_clause c cs) = arguments c ++ all_arguments cs

-- What the constructors of predicates guarantee at every depth: `Raw` has checked its count of
-- placeholders, `Between` has its two values, and `Not` has its child.
unfoldable mutual
  pub IsPrintable : WhereClause → Type 0
  IsPrintable (clause cmp op children (some raw) args) = count_raw_placeholders raw ≡ length args
  IsPrintable (clause (some cmp) op children none args) = IsFed cmp.op cmp.values
  IsPrintable (clause none logical_not nil_slice none args) = ⊥
  IsPrintable (clause none logical_not (slice no_clauses) none args) = ⊥
  IsPrintable (clause none logical_not (slice (cons_clause c cs)) none args) = IsPrintable c
  IsPrintable (clause none logical_and nil_slice none args) = Unit {0}
  IsPrintable (clause none logical_or nil_slice none args) = Unit {0}
  IsPrintable (clause none logical_and (slice cs) none args) = AllPrintable cs
  IsPrintable (clause none logical_or (slice cs) none args) = AllPrintable cs

  pub AllPrintable : Clauses → Type 0
  AllPrintable no_clauses = Unit {0}
  AllPrintable (cons_clause c cs) = IsPrintable c × AllPrintable cs

module _ (col : Text) where
  write_between-Prints :
      (v : Value) (vs : List Value)
      → 2 ≤ length vs
      → Prints (op_arguments Operator.op_between v vs) (write_between col vs)
  unfolding write_between op_arguments
  write_between-Prints v [] h = absurd (omega arith)
  write_between-Prints v (a ∷ []) h = absurd (omega arith)
  write_between-Prints v (a ∷ b ∷ vs) h = Prints-after _ col _ (
      Prints-after _ (codes " BETWEEN ") _ (
        Prints-append (a ∷ []) (b ∷ []) (bind a) _ (Prints-bind a)
          (Prints-after _ (codes " AND ") _ (Prints-bind b))))

  write_in-Prints :
      (keyword whole : Text) (vs : List Value) → Prints vs (write_in col keyword whole vs)
  unfolding write_in
  write_in-Prints keyword whole [] = Prints-lit whole
  write_in-Prints keyword whole (v ∷ vs) = Prints-after _ col _ (
      Prints-after _ keyword _
        (Prints-before (v ∷ vs) (codes ")") _ (Prints-values (codes ", ") (v ∷ vs))))

  write_binary-Prints : (op : Operator) (v : Value) → Prints (v ∷ []) (write_binary col op v)
  unfolding write_binary
  write_binary-Prints op v = Prints-after _ col _ (
      Prints-after _ (codes " ") _
        (Prints-after _ (operator_to_sql op) _ (Prints-after _ (codes " ") _ (Prints-bind v))))

  write_op-Prints :
      (op : Operator) (v : Value) (vs : List Value)
      → IsFed op vs
      → Prints (op_arguments op v vs) (write_op col op v vs)
  unfolding write_op op_arguments
  write_op-Prints Operator.op_is_null v vs h = Prints-after _ col _ (Prints-lit (codes " IS NULL"))
  write_op-Prints Operator.op_is_not_null v vs h =
      Prints-after _ col _ (Prints-lit (codes " IS NOT NULL"))
  write_op-Prints Operator.op_in v vs h = write_in-Prints (codes " IN (") (codes "FALSE") vs
  write_op-Prints Operator.op_not_in v vs h = write_in-Prints (codes " NOT IN (") (codes "TRUE") vs
  write_op-Prints Operator.op_between v vs h = write_between-Prints v vs h
  write_op-Prints op v vs h = write_binary-Prints op v

pub empty-arguments : (c : WhereClause) → is_empty_clause c ≡ true → arguments c ≡ []
unfolding arguments is_empty_clause
empty-arguments (clause (some cmp) op children raw args) h = absurd (ground (arith, h))
empty-arguments (clause none op children (some raw) args) h = absurd (ground (arith, h))
empty-arguments (clause none op (slice cs) none args) h = absurd (ground (arith, h))
empty-arguments (clause none op nil_slice none args) h = refl

both_nil : (vs ws : List Value) → vs ≡ [] → ws ≡ [] → vs ++ ws ≡ []
both_nil vs ws e f = rw (e, f) refl

no_content : (cs : Clauses) → has_content cs ≡ false → all_arguments cs ≡ []
unfolding has_content all_arguments
no_content no_clauses h = refl
no_content (cons_clause c cs) h = elim (Bool-cases (is_empty_clause c)) [
  | inl e ↦
      both_nil (arguments c) (all_arguments cs) (empty-arguments c e)
        (no_content cs (ground (arith, h, e)))
  | inr e ↦ absurd (ground (arith, h, e))
]

write_comparison-Prints :
    (cmp : ComparisonNode)
    → IsFed cmp.op cmp.values
    → Prints (op_arguments cmp.op cmp.value cmp.values) (write_comparison cmp)
unfolding write_comparison
write_comparison-Prints cmp h = write_op-Prints (quote_col cmp.column) cmp.op cmp.value cmp.values h

-- A clause that is skipped has no arguments.
skip_or_print :
    (skipped : Bool) (vs ws : List Value) (p q : Numbered)
    → (skipped ≡ true → vs ≡ [])
    → Prints ws p
    → Prints (vs ++ ws) q
    → Prints (vs ++ ws) (if skipped then p else q)
skip_or_print true vs ws p q e h k = rw (e refl) h
skip_or_print false vs ws p q e h k = k

write_logical-Prints :
    (content : Bool) (whole : Text) (vs : List Value) (body : Numbered)
    → (content ≡ false → vs ≡ [])
    → Prints vs body
    → Prints vs (write_logical content whole body)
unfolding write_logical
write_logical-Prints true whole vs body h k =
    Prints-after vs (codes "(") _ (Prints-before vs (codes ")") body k)
write_logical-Prints false whole vs body h k = rw (h refl) (Prints-lit whole)

separated :
    (b : Bool) (sep : Text) (vs : List Value) (p : Numbered)
    → Prints vs p
    → Prints vs (when b (lit sep) ⊕ p)
separated true sep vs p h = Prints-after vs sep p h
separated false sep vs p h = Prints-append [] vs nothing p Prints-nothing h

raw_fragment :
    (raw : Text) (args : List Value)
    → count_raw_placeholders raw ≡ length args
    → Prints args (raw_loop RawState.normal false raw args)
unfolding count_raw_placeholders counted
raw_fragment raw args h = raw_loop-Prints RawState.normal false raw args h

mutual
  unfolding write_where IsPrintable arguments

  where-Prints : (c : WhereClause) → IsPrintable c → Prints (arguments c) (write_where c)
  where-Prints (clause cmp op children (some raw) args) h = raw_fragment raw args h
  where-Prints (clause (some cmp) op children none args) h = write_comparison-Prints cmp h
  where-Prints (clause none logical_not nil_slice none args) h = absurd h
  where-Prints (clause none logical_not (slice no_clauses) none args) h = absurd h
  where-Prints (clause none logical_not (slice (cons_clause c cs)) none args) h =
      Prints-after _ (codes "NOT (") _ (Prints-before _ (codes ")") _ (where-Prints c h))
  where-Prints (clause none logical_and nil_slice none args) h = Prints-lit (codes "TRUE")
  where-Prints (clause none logical_or nil_slice none args) h = Prints-lit (codes "FALSE")
  where-Prints (clause none logical_and (slice cs) none args) h =
      write_logical-Prints (has_content cs) (codes "TRUE") (all_arguments cs) _ (no_content cs)
        (children-Prints (codes " AND ") false cs h)
  where-Prints (clause none logical_or (slice cs) none args) h =
      write_logical-Prints (has_content cs) (codes "FALSE") (all_arguments cs) _ (no_content cs)
        (children-Prints (codes " OR ") false cs h)

  children-Prints :
      (sep : Text) (started : Bool) (cs : Clauses)
      → AllPrintable cs
      → Prints (all_arguments cs) (write_children sep started cs)
  children-Prints sep started no_clauses h = Prints-nothing
  children-Prints sep started (cons_clause c cs) h =
      skip_or_print (is_empty_clause c) (arguments c) (all_arguments cs) _ _ (empty-arguments c)
        (children-Prints sep _ cs h.1)
        (separated started sep _ _ (
          Prints-append (arguments c) (all_arguments cs) (write_where c) _ (where-Prints c h.0)
            (children-Prints sep _ cs h.1)))

-- A clause prints without a panic, for every first number of its placeholders: they are numbered from
-- that number without a gap, and the arguments are those of its leaves from left to right. The clause
-- has what the constructors of predicates guarantee.
pub write_where-Prints : (c : WhereClause) → IsPrintable c → Prints (arguments c) (write_where c)
write_where-Prints = where-Prints

pub Numbers-write_order_by : (obs : List OrderByExpr) → Numbers (write_order_by obs)
unfolding write_order_by
Numbers-write_order_by =
    Numbers-join _
      (λ ob.
        Numbers-append _ _ (Numbers-lit _) (Numbers-append _ _ (Numbers-lit _) (Numbers-lit _)))
      (codes ", ")
