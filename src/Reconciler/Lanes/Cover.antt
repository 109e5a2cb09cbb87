-- ===== src/Reconciler/Lanes/Cover.antt =====
-- Successive pages of a table that stays as it is go through all of its due rows, and end.
use native.Mathlib.Nat.{div-mul-le_self, lt-div-mul-add}
use rakazo.Common.{
  ==_refl, ℕ, zero, suc, ◌+◌, ◌-◌, ◌*◌, ◌/◌, ◌≤◌, ◌<◌, Bool, true, false, List, [], ◌∷◌, ◌++◌,
  append_assoc, append-nil, Option, none, some, length, take, drop, select, last?, last?-some,
  but_last, select_every, select_and, All-map, All-member, take-append-drop, length-drop,
  length-take_full, take-length_le, but_last-last, All, ◌≡◌, refl, sym, ap, ◌∙◌, subst, arith,
}
use rakazo.Reconciler.Lanes.{next_cursor, after_cursor, page}

All-true : {A : Type 0} (xs : List A) → All (λ x. true ≡ true) xs
All-true [] = tt
All-true (x ∷ xs) = (refl, All-true xs)

module _ {Row Cursor : Type 0} (is_after : Cursor → Row → Bool) (cursor_at : Row → Cursor) where
  -- The rows stand in the order that the cursors mean: the condition of a row's cursor holds of the
  -- rows after it, and neither of itself nor of those before it.
  abbrev pub Ordered : List Row → Type 0
  Ordered [] = Unit {0}
  Ordered (x ∷ xs) =
      (is_after (cursor_at x) x ≡ false)
      × All (λ y. (is_after (cursor_at x) y ≡ true) × (is_after (cursor_at y) x ≡ false)) xs
      × Ordered xs

  select_after :
      (before : List Row) (x : Row) (rest : List Row)
      → Ordered (before ++ x ∷ rest)
      → select (is_after (cursor_at x)) (before ++ x ∷ rest) ≡ rest
  select_after [] x rest (self, after, more) =
      rw self (select_every (is_after (cursor_at x)) rest (All-map _ _ rest (λ y h. h.0) after))
  select_after (y ∷ before) x rest (self, after, more) =
      rw
        ((All-member (λ z. (is_after (cursor_at y) z ≡ true) × (is_after (cursor_at z) y ≡ false))
          before x rest after).1)
        (select_after before x rest more)

  -- The rows that the query of a cursor selects.
  abbrev Front : List Row → Option Cursor → List Row → Type 0
  Front rows c rest = select (after_cursor is_after c) rows ≡ rest

  Front-none : (rows : List Row) → Front rows none rows
  Front-none rows = select_every (λ r. true) rows (All-true rows)

  Front-full :
      (batch_size : ℕ) (done rest : List Row)
      → 0 < batch_size
      → length (take batch_size rest) ≡ batch_size
      → Ordered (done ++ rest)
      → (x : Row) × (last? (take batch_size rest) ≡ some x)
        × ((done ++ but_last (take batch_size rest)) ++ x ∷ drop batch_size rest ≡ done ++ rest)
        × Front (done ++ rest) (some (cursor_at x)) (drop batch_size rest)
  Front-full b done rest pos full ord =
      let page_rows = take b rest in
      let (x, e) = last?-some page_rows (omega (arith, full)) in
      let split : (done ++ but_last page_rows) ++ x ∷ drop b rest ≡ done ++ rest =
        append_assoc done (but_last page_rows) (x ∷ drop b rest)
        ∙ ap (◌++◌ done) (
            sym (append_assoc (but_last page_rows) (x ∷ []) (drop b rest))
            ∙ ap (λ p. p ++ drop b rest) (but_last-last page_rows x e)
            ∙ take-append-drop b rest) in
      (
        x,
        e,
        split,
        subst (λ rows. select (is_after (cursor_at x)) rows ≡ drop b rest) split
            (select_after (done ++ but_last page_rows) x (drop b rest)
              (subst Ordered (sym split) ord)),
      )

  module _ (find_many : (Row → Bool) → ℕ → List Row) (cursor_of : Row → Option Cursor)
      (batch_size : ℕ) where
    abbrev then_pages :
        (Option Cursor → List Row × Option Cursor) → List Row → List Row × Option Cursor
    then_pages later rows =
        let (more, last) = later (next_cursor batch_size cursor_of rows) in (rows ++ more, last)

    -- Successive passes, each with the condition of its own time: the rows they find, one page after
    -- another, and the cursor at the end.
    unfoldable pub scan : List (Row → Bool) → Option Cursor → List Row × Option Cursor
    scan [] c = ([], c)
    scan (is_due ∷ later) c = then_pages (scan later) (page find_many is_due is_after batch_size c)

    -- The database: it answers the rows of the table that satisfy the condition, in order, as many as
    -- the limit allows.
    abbrev pub Answers : List Row → Type 0
    Answers table = (p : Row → Bool) (n : ℕ) → find_many p n ≡ take n (select p table)

    -- At the time of every pass the due rows are `rows`.
    abbrev pub SameDue : List Row → List Row → List (Row → Bool) → Type 0
    SameDue table rows = All (λ is_due. select is_due table ≡ rows)

    page-Front :
        (table rows rest : List Row) (c : Option Cursor) (is_due : Row → Bool)
        → Answers table
        → select is_due table ≡ rows
        → Front rows c rest
        → page find_many is_due is_after batch_size c ≡ take batch_size rest
    unfolding page
    page-Front table rows rest c is_due answers due front =
        answers _ batch_size
        ∙ ap (take batch_size) (
            select_and is_due (after_cursor is_after c) table
            ∙ ap (select (after_cursor is_after c)) due
            ∙ front)

    -- The cursor of each row is `cursor_at` of it.
    abbrev pub Cursors : List Row → Type 0
    Cursors = All (λ row. cursor_of row ≡ some (cursor_at row))

    next_of_full :
        (rows : List Row) (x : Row)
        → length rows ≡ batch_size
        → last? rows ≡ some x
        → cursor_of x ≡ some (cursor_at x)
        → next_cursor batch_size cursor_of rows ≡ some (cursor_at x)
    unfolding next_cursor
    next_of_full rows x full e cur = rw (full, ==_refl batch_size, e, cur) refl

    next_of_short :
        (rows : List Row) → length rows < batch_size → next_cursor batch_size cursor_of rows ≡ none
    unfolding next_cursor
    next_of_short rows short = ground arith

    scan-Front :
        (table rows done rest : List Row) (c : Option Cursor) (dues : List (Row → Bool)) (n : ℕ)
        → Answers table
        → SameDue table rows dues
        → 0 < batch_size
        → Ordered rows
        → Cursors rows
        → done ++ rest ≡ rows
        → Front rows c rest
        → length dues ≡ suc n
        → n * batch_size ≤ length rest
        → length rest < suc n * batch_size
        → scan dues c ≡ (rest, none)
    unfolding scan
    scan-Front table rows done rest c [] n answers due pos ord cur split front count low high =
        absurd (omega arith)
    scan-Front table rows done rest c (is_due ∷ []) zero answers (due, u) pos ord cur split front
          count low high =
        let short : length rest < batch_size = ground (arith, high) in
        let short_le : length rest ≤ batch_size = omega (arith, short) in
        let found : page find_many is_due is_after batch_size c ≡ rest =
          page-Front table rows rest c is_due answers due front
          ∙ take-length_le batch_size rest short_le in
        rw (found, next_of_short rest short) (ap (λ xs. (xs, none)) (append-nil rest))
    scan-Front table rows done rest c (is_due ∷ []) (suc n) answers due pos ord cur split front
          count low high =
        absurd (omega arith)
    scan-Front table rows done rest c (is_due ∷ next ∷ dues) zero answers due pos ord cur split
          front count low high =
        absurd (omega arith)
    scan-Front table rows done rest c (is_due ∷ next ∷ dues) (suc n) answers (due, later) pos ord
          cur split front count low high =
        let found = page-Front table rows rest c is_due answers due front in
        let fits : batch_size + n * batch_size ≤ length rest = ground (arith, low) in
        let full = length-take_full batch_size rest (omega (arith, fits)) in
        let (x, e, cut, ahead) =
          Front-full batch_size done rest pos full (subst Ordered (sym split) ord) in
        let next_one = next_of_full (take batch_size rest) x full e (
          All-member (λ row. cursor_of row ≡ some (cursor_at row))
            (done ++ but_last (take batch_size rest)) x (drop batch_size rest)
            (subst Cursors (sym (cut ∙ split)) cur)) in
        let left : length (drop batch_size rest) ≡ length rest - batch_size =
          length-drop batch_size rest in
        let more : scan (next ∷ dues) (some (cursor_at x)) ≡ (drop batch_size rest, none) =
          scan-Front table rows (done ++ take batch_size rest) (drop batch_size rest)
            (some (cursor_at x)) (next ∷ dues) n answers later pos ord cur
            (append_assoc done (take batch_size rest) (drop batch_size rest)
              ∙ ap (◌++◌ done) (take-append-drop batch_size rest)
              ∙ split)
            (subst (λ xs. Front xs (some (cursor_at x)) (drop batch_size rest)) split ahead)
            (omega (arith, count)) (omega (arith, left, fits)) (ground (arith, left, high, fits)) in
        ap (then_pages (scan (next ∷ dues))) found
        ∙ ap (λ k. (take batch_size rest ++ (scan (next ∷ dues) k).0, (scan (next ∷ dues) k).1))
            next_one
        ∙ ap (λ p. (take batch_size rest ++ p.0, p.1)) more
        ∙ ap (λ xs. (xs, none)) (take-append-drop batch_size rest)

    -- As many passes as there are pages find every due row once, in order, and end at no cursor, where
    -- the scan begins anew.
    pub scan_covers :
        (table rows : List Row) (dues : List (Row → Bool))
        → Answers table
        → SameDue table rows dues
        → 0 < batch_size
        → Ordered rows
        → Cursors rows
        → length dues ≡ suc (length rows / batch_size)
        → scan dues none ≡ (rows, none)
    scan_covers table rows dues answers due pos ord cur count =
        scan-Front table rows [] rows none dues (length rows / batch_size) answers due pos ord cur
          refl (Front-none rows) count (div-mul-le_self (length rows) batch_size)
          (omega (arith, lt-div-mul-add {a = length rows} pos))
