-- ===== src/Bytes/Writes.antt =====
-- Writes that follow one another from offset 0 to the end leave nothing of the old contents.
use trana.Prelude.{ℕ, ◌+◌, ◌-◌, ◌≤◌, ◌≡◌, refl, sym, ap, ◌∙◌, arith}
use trana.Prelude.{List, [], ◌∷◌, ◌++◌, append-nil, append_assoc, some}
use trana.Prelude.{length, drop, length-append, length-drop, take-append, drop-append}
use trana.Prelude.{drop-drop, drop-all, le→leb}
use trana.Bytes.{slice, put, write, write_each}

-- Each write starts where the one before it ended, the first at `offset`.
abbrev pub Contiguous : ℕ → List (ℕ × List ℕ) → Type 0
Contiguous offset [] = Unit {0}
Contiguous offset ((o, xs) ∷ rest) = (o ≡ offset) × Contiguous (offset + length xs) rest

abbrev pub written : List (ℕ × List ℕ) → List ℕ
written [] = []
written ((o, xs) ∷ rest) = xs ++ written rest

drop_past :
    (front old xs : List ℕ) → drop (length front + length xs) (front ++ old) ≡ drop (length xs) old
drop_past front old xs =
    sym (drop-drop (length front) (length xs) (front ++ old))
    ∙ ap (drop (length xs)) (drop-append front old (length front) refl)

write_next :
    (front old xs : List ℕ) (o : ℕ)
    → o ≡ length front
    → length xs ≤ length old
    → write (front ++ old) o xs ≡ some ((front ++ xs) ++ drop (length xs) old)
write_next front old xs o h fits =
    rw
      (
        h,
        le→leb (length front + length xs) (length (front ++ old))
            (omega (arith, length-append front old)),
      )
      (rw (take-append front old (length front) refl, drop_past front old xs)
        (ap some (sym (append_assoc front xs (drop (length xs) old)))))

regroup :
    (front xs ys old : List ℕ)
    → (front ++ xs) ++ (ys ++ drop (length ys) (drop (length xs) old))
      ≡ front ++ ((xs ++ ys) ++ drop (length (xs ++ ys)) old)
regroup front xs ys old =
    rw (drop-drop (length xs) (length ys) old, length-append xs ys) (simp append_assoc)

write_each_from :
    (ws : List (ℕ × List ℕ)) (front old : List ℕ)
    → Contiguous (length front) ws
    → length (written ws) ≤ length old
    → write_each ws (front ++ old) ≡ some (front ++ (written ws ++ drop (length (written ws)) old))
unfolding write_each
write_each_from [] front old c fits = refl
write_each_from ((o, xs) ∷ ws) front old (e, c) fits =
    rw (write_next front old xs o e (omega (arith, length-append xs (written ws)))) (
      write_each_from ws (front ++ xs) (drop (length xs) old) (rw (length-append front xs) c)
        (omega (arith, length-append xs (written ws), length-drop (length xs) old))
      ∙ ap some (regroup front xs (written ws) old))

-- The buffer's old contents do not matter.
pub write_each-written :
    (ws : List (ℕ × List ℕ)) (old : List ℕ)
    → Contiguous 0 ws
    → length (written ws) ≡ length old
    → write_each ws old ≡ some (written ws)
write_each-written ws old c fits =
    write_each_from ws [] old c (omega arith)
    ∙ ap some (
        ap (λ t. written ws ++ t) (drop-all old (length (written ws)) (omega arith))
        ∙ append-nil (written ws))

-- A write over a run of its own length.
pub put_middle :
    (front old back xs : List ℕ) (offset : ℕ)
    → length front ≡ offset
    → length xs ≡ length old
    → put (front ++ (old ++ back)) offset xs ≡ front ++ (xs ++ back)
put_middle front old back xs offset h k =
    rw
      (
        take-append front (old ++ back) offset h,
        ← drop-drop offset (length xs) (front ++ (old ++ back)),
        drop-append front (old ++ back) offset h,
        drop-append old back (length xs) (sym k),
      )
      refl

-- The slice that covers exactly one run.
pub slice-middle :
    (front xs back : List ℕ) (from to : ℕ)
    → length front ≡ from
    → from + length xs ≡ to
    → slice (front ++ (xs ++ back)) from to ≡ xs
slice-middle front xs back from to h k =
    rw (drop-append front (xs ++ back) from h) (take-append xs back (to - from) (omega arith))
