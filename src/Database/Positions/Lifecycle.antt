-- ===== src/Database/Positions/Lifecycle.antt =====
-- src/pkg/database/positions.go: a row's way from OPEN to CLOSED, and the keys of the table.
use navier_stocks.Base.{
  ℕ, suc, ◌≤◌, ◌<◌, ◌≡◌, ◌≢◌, refl, true, false, Option, none, some, List, [], ◌∷◌, String, arith,
  ◌==◌, if◌then◌else◌,
}
use navier_stocks.Float.{Float64}
use navier_stocks.Models.{Position, ExitReason, is_open}
use navier_stocks.Database.{no_rows, done, refused}
use navier_stocks.Database.Positions.{
  Table, has_ref, insert, open_rows, affected, close_row, close_rows, mark_closed,
}

module _ {F : Type 0} where
  -- The rows with another id, in their order.
  abbrev pub without : ℕ → List (Position F) → List (Position F)
  without id [] = []
  without id (p ∷ ps) = if p.id == id then without id ps else p ∷ without id ps

  -- The ids fall along the list, from below `n`.
  abbrev pub Below : ℕ → List (Position F) → Type 0
  Below n [] = Unit {0}
  Below n (p ∷ ps) = (p.id < n) × Below p.id ps

  -- No two rows have one reference.
  abbrev pub RefsDistinct : List (Position F) → Type 0
  RefsDistinct [] = Unit {0}
  RefsDistinct (p ∷ ps) = (has_ref p.execution_ref ps ≡ false) × RefsDistinct ps

  -- The primary key and the UNIQUE constraint.
  pub record IsTable (t : Table F) : Type 0 where
    pub keyed : Below t.next_id t.rows
    pub unique : RefsDistinct t.rows

  abbrev pub find_row : ℕ → List (Position F) → Option (Position F)
  find_row id [] = none
  find_row id (p ∷ ps) = if p.id == id then some p else find_row id ps

  abbrev pub inserted : Position F → Table F → Table F
  inserted p t = record { rows = record p { id = t.next_id } ∷ t.rows; next_id = suc t.next_id }

  find_row_above : (n id : ℕ) (ps : List (Position F)) → Below n ps → n ≤ id → find_row id ps ≡ none
  find_row_above n id [] b h = refl
  find_row_above n id (p ∷ ps) b h = ground (arith, find_row_above p.id id ps b.1)

  pub insert-eq-done :
      (p : Position F) (t t' : Table F) (id : ℕ)
      → insert none p t ≡ done (t', id)
      → (has_ref p.execution_ref t.rows ≡ false) × (t' ≡ inserted p t) × (id ≡ t.next_id)
  unfolding insert
  insert-eq-done p t t' id h = (ground arith, ground arith, ground arith)

  inserted-IsTable :
      (p : Position F) (t : Table F)
      → IsTable t
      → has_ref p.execution_ref t.rows ≡ false
      → IsTable (inserted p t)
  inserted-IsTable p t v h = record { keyed = (omega arith, v.keyed); unique = (h, v.unique) }

  -- An insert that succeeds keeps both keys, and puts the new row, under an id that no row had, in
  -- front of the open positions if it is open.
  pub insert-IsTable :
      (p : Position F) (t t' : Table F) (id : ℕ)
      → IsTable t
      → insert none p t ≡ done (t', id)
      → IsTable t'
        × (open_rows t'.rows ≡ (
            if is_open p.status then record p { id = id } ∷ open_rows t.rows else open_rows t.rows))
        × (find_row id t.rows ≡ none)
  insert-IsTable p t t' id v h =
      let (fresh, e, k) = insert-eq-done p t t' id h in
      rw (e, k)
        (
          inserted-IsTable p t v fresh,
          refl,
          find_row_above t.next_id t.next_id t.rows v.keyed (omega arith),
        )

module _ {F : Type 0} ⦃fl : Float64 F⦄ where
  pub open_rows-close_rows :
      (id : ℕ) (price : F) (reason : ExitReason) (now : ℕ) (ps : List (Position F))
      → open_rows (close_rows id price reason now ps) ≡ without id (open_rows ps)
  open_rows-close_rows id price reason now [] = refl
  open_rows-close_rows id price reason now (p ∷ ps) =
      ground (arith, open_rows-close_rows id price reason now ps)

  affected-close_rows :
      (id : ℕ) (price : F) (reason : ExitReason) (now : ℕ) (ps : List (Position F))
      → affected id (close_rows id price reason now ps) ≡ false
  affected-close_rows id price reason now [] = refl
  affected-close_rows id price reason now (p ∷ ps) =
      ground (arith, affected-close_rows id price reason now ps)

  find_row-close_rows :
      (id j : ℕ) (price : F) (reason : ExitReason) (now : ℕ) (ps : List (Position F))
      → j ≢ id
      → find_row j (close_rows id price reason now ps) ≡ find_row j ps
  find_row-close_rows id j price reason now [] h = refl
  find_row-close_rows id j price reason now (p ∷ ps) h =
      ground (arith, find_row-close_rows id j price reason now ps)

  -- What a successful `MarkClosed` leaves.
  pub record Closes (id : ℕ) (price : F) (reason : ExitReason) (now : ℕ) (t t' : Table F)
      : Type 0 where
    pub others_open : open_rows t'.rows ≡ without id (open_rows t.rows)
    pub others_kept : (j : ℕ) → j ≢ id → find_row j t'.rows ≡ find_row j t.rows
    pub again :
        (price' : F) (reason' : ExitReason) (later : ℕ)
        → mark_closed none id price' reason' later t' ≡ refused no_rows
    pub same_next : t'.next_id ≡ t.next_id

  abbrev closed_table : ℕ → F → ExitReason → ℕ → Table F → Table F
  closed_table id price reason now t = record t { rows = close_rows id price reason now t.rows }

  mark_closed-eq-done :
      (id : ℕ) (price : F) (reason : ExitReason) (now : ℕ) (t t' : Table F)
      → mark_closed none id price reason now t ≡ done t'
      → t' ≡ closed_table id price reason now t
  unfolding mark_closed
  mark_closed-eq-done id price reason now t t' h = ground arith

  mark_closed-missing :
      (id : ℕ) (price : F) (reason : ExitReason) (now : ℕ) (t : Table F)
      → affected id t.rows ≡ false
      → mark_closed none id price reason now t ≡ refused no_rows
  unfolding mark_closed
  mark_closed-missing id price reason now t h = rw h

  find_row-closed :
      (id : ℕ) (price : F) (reason : ExitReason) (now : ℕ) (ps : List (Position F)) (p : Position F)
      → find_row id ps ≡ some p
      → is_open p.status ≡ true
      → find_row id (close_rows id price reason now ps) ≡ some (close_row price reason now p)
  find_row-closed id price reason now [] p f o = cc
  find_row-closed id price reason now (q ∷ ps) p f o =
      ground (arith, find_row-closed id price reason now ps p)

  -- After a `MarkClosed` that succeeds the open positions are the others, in their order; the rows
  -- with other ids are untouched; and a second call for the id finds no row.
  pub mark_closed-Closes :
      (id : ℕ) (price : F) (reason : ExitReason) (now : ℕ) (t t' : Table F)
      → mark_closed none id price reason now t ≡ done t'
      → Closes id price reason now t t'
  mark_closed-Closes id price reason now t t' h =
      let e = mark_closed-eq-done id price reason now t t' h in
      rw e (record {
        others_open = open_rows-close_rows id price reason now t.rows;
        others_kept = λ j ne. find_row-close_rows id j price reason now t.rows ne;
        again = λ price' reason' later.
            mark_closed-missing id price' reason' later (closed_table id price reason now t)
              (affected-close_rows id price reason now t.rows);
        same_next = refl;
      })

  -- The row that is closed: its status, its accounting and its time are set, all else is kept.
  pub mark_closed-row :
      (id : ℕ) (price : F) (reason : ExitReason) (now : ℕ) (t t' : Table F) (p : Position F)
      → find_row id t.rows ≡ some p
      → is_open p.status ≡ true
      → mark_closed none id price reason now t ≡ done t'
      → find_row id t'.rows ≡ some (close_row price reason now p)
  mark_closed-row id price reason now t t' p f o h =
      rw (mark_closed-eq-done id price reason now t t' h)
        (find_row-closed id price reason now t.rows p f o)

  Below-close_rows :
      (n id : ℕ) (price : F) (reason : ExitReason) (now : ℕ) (ps : List (Position F))
      → Below n ps
      → Below n (close_rows id price reason now ps)
  Below-close_rows n id price reason now [] b = tt
  Below-close_rows n id price reason now (p ∷ ps) b =
      ground (arith, Below-close_rows p.id id price reason now ps b.1)

  has_ref-close_rows :
      (ref : String) (id : ℕ) (price : F) (reason : ExitReason) (now : ℕ) (ps : List (Position F))
      → has_ref ref (close_rows id price reason now ps) ≡ has_ref ref ps
  unfolding has_ref
  has_ref-close_rows ref id price reason now [] = refl
  has_ref-close_rows ref id price reason now (p ∷ ps) =
      ground (arith, has_ref-close_rows ref id price reason now ps)

  RefsDistinct-close_rows :
      (id : ℕ) (price : F) (reason : ExitReason) (now : ℕ) (ps : List (Position F))
      → RefsDistinct ps
      → RefsDistinct (close_rows id price reason now ps)
  RefsDistinct-close_rows id price reason now [] u = tt
  RefsDistinct-close_rows id price reason now (p ∷ ps) u = ground (
    arith,
    has_ref-close_rows p.execution_ref id price reason now ps,
    RefsDistinct-close_rows id price reason now ps u.1,
  )

  -- Closing keeps the keys of the table.
  pub mark_closed-IsTable :
      (id : ℕ) (price : F) (reason : ExitReason) (now : ℕ) (t t' : Table F)
      → IsTable t
      → mark_closed none id price reason now t ≡ done t'
      → IsTable t'
  mark_closed-IsTable id price reason now t t' v h =
      rw (mark_closed-eq-done id price reason now t t' h) (record {
        keyed = Below-close_rows t.next_id id price reason now t.rows v.keyed;
        unique = RefsDistinct-close_rows id price reason now t.rows v.unique;
      })
