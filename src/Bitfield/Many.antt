-- ===== src/Bitfield/Many.antt =====
-- Several INSERTs in a row, as the code builds a datum: what EXTRACT reads back.
use libkatherine.Base.{ℕ, ◌+◌, ◌%◌, ◌^◌, ◌≤◌, ◌<◌, ◌≡◌, refl, ◌∙◌, ap, inl, inr, arith}
use libkatherine.Base.{Bool, true, ◌&&◌, ◌||◌, List, [], ◌∷◌, leb, ◌==◌, if◌then◌else◌}
use libkatherine.Base.{Bool-cases, ◌⊎◌}
use libkatherine.Bitfield.{Field, IsField, extract, insert}
use libkatherine.Bitfield.Arith.{extract_arith}
use libkatherine.Bitfield.Laws.{insert-lt, insert_parts, extract-insert_disjoint}

-- `val = INSERT(val, …, f, x)` for each pair, first to last.
abbrev pub inserts : ℕ → List (Field × ℕ) → ℕ
inserts val [] = val
inserts val ((f, x) ∷ rest) = inserts (insert val f x) rest

abbrev pub apart : Field → Field → Bool
apart f g = leb (f.start + f.width) g.start || leb (g.start + g.width) f.start

abbrev pub same : Field → Field → Bool
same f g = f.start == g.start && f.width == g.width

abbrev pub sound : Field → Bool
sound f = leb (f.start + f.width) 64 && leb f.width f.bits

-- Every field of the list is sound, and is `g` or apart from it.
abbrev pub clear : List (Field × ℕ) → Field → Bool
clear [] g = true
clear ((f, x) ∷ rest) g = (sound f && (same f g || apart f g)) && clear rest g

-- What `g` holds: the last value written to it, or what it held before.
abbrev pub reads : ℕ → List (Field × ℕ) → Field → ℕ
reads old [] g = old
reads old ((f, x) ∷ rest) g = reads (if same f g then x % 2 ^ g.width else old) rest g

IsField-sound : (f : Field) → sound f ≡ true → IsField f
IsField-sound f h = ground arith

apart-cases :
    (f g : Field) → apart f g ≡ true → (f.start + f.width ≤ g.start) ⊎ (g.start + g.width ≤ f.start)
apart-cases f g h = ground arith

extract-insert_same :
    (v : ℕ) (f g : Field) (x : ℕ)
    → IsField f
    → f.start ≡ g.start
    → f.width ≡ g.width
    → IsField g
    → v < 2 ^ 64
    → extract (insert v f x) g ≡ x % 2 ^ g.width
extract-insert_same v f g x ok es ew ok' fits =
    extract_arith (insert v f x) g ok' ∙ rw (← es, ← ew) ((insert_parts v f x ok fits).1)

extract-insert_step :
    (v : ℕ) (f g : Field) (x : ℕ)
    → (sound f && (same f g || apart f g)) ≡ true
    → IsField g
    → v < 2 ^ 64
    → extract (insert v f x) g ≡ (if same f g then x % 2 ^ g.width else extract v g)
extract-insert_step v f g x h ok fits =
    let ok' : IsField f = IsField-sound f (ground arith) in
    elim (Bool-cases (same f g)) [
      | inl e ↦ rw e (extract-insert_same v f g x ok' (ground arith) (ground arith) ok fits)
      | inr e ↦ rw e (extract-insert_disjoint v f g x ok' ok fits (apart-cases f g (ground arith)))
    ]

pub extract-inserts :
    (v : ℕ) (sets : List (Field × ℕ)) (g : Field)
    → clear sets g ≡ true
    → IsField g
    → v < 2 ^ 64
    → extract (inserts v sets) g ≡ reads (extract v g) sets g
extract-inserts v [] g h ok fits = refl
extract-inserts v ((f, x) ∷ rest) g h ok fits =
    extract-inserts (insert v f x) rest g (ground arith) ok
      (insert-lt v f x (IsField-sound f (ground arith)) fits)
    ∙ ap (λ t. reads t rest g) (extract-insert_step v f g x (ground arith) ok fits)
