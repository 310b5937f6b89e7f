-- ===== src/World/Shelves.antt =====
-- Where the shelves and books of the vault stand (world/tilemap.py).
use mnemonic_os.Base.{
  ℕ, suc, zero, ◌+◌, ◌%◌, ◌≤◌, ◌<◌, min, List, [], ◌∷◌, ◌≡◌, ◌≢◌, ◌⊎◌, refl, ap, arith, length,
  take, All,
}
use mnemonic_os.World.Models.{ZoneSection, LayoutObject, GameBook}
use mnemonic_os.World.Vault.{
  section_x, vault_x, vault_y, vault_shelf, book_on_shelf, books_from, place_vault_section,
}
use mnemonic_os.World.Grid.{Within, Apart, All-map}

-- The rectangle of a shelf.
abbrev pub OnShelf : ℕ → LayoutObject → Type 0
OnShelf index = Within (vault_x index) (vault_y index) (vault_x index + 260) (vault_y index + 200)

length-take_le : {A : Type 0} (n : ℕ) (xs : List A) → length (take n xs) ≡ min n (length xs)
length-take_le zero xs = omega arith
length-take_le (suc n) [] = omega arith
length-take_le (suc n) (x ∷ xs) = omega (arith, length-take_le n xs)

book-OnShelf :
    (index : ℕ) (section : ZoneSection) (i : ℕ) (b : GameBook)
    → i < 12
    → OnShelf index (book_on_shelf index section i b)
unfolding book_on_shelf
book-OnShelf index section i b h = (omega arith, omega arith, omega arith, omega arith)

books_from-OnShelf :
    (index : ℕ) (section : ZoneSection) (i : ℕ) (bs : List GameBook)
    → i + length bs ≤ 12
    → All (OnShelf index) (books_from index section i bs)
unfolding books_from
books_from-OnShelf index section i [] h = tt
books_from-OnShelf index section i (b ∷ bs) h = (
  book-OnShelf index section i b (omega arith),
  books_from-OnShelf index section (suc i) bs (omega arith),
)

length-books_from :
    (index : ℕ) (section : ZoneSection) (i : ℕ) (bs : List GameBook)
    → length (books_from index section i bs) ≡ length bs
unfolding books_from
length-books_from index section i [] = refl
length-books_from index section i (b ∷ bs) = ap suc (length-books_from index section (suc i) bs)

place_vault_section-OnShelf :
    (index : ℕ) (section : ZoneSection) → All (OnShelf index) (place_vault_section index section)
unfolding place_vault_section vault_shelf
place_vault_section-OnShelf index section = (
  (omega arith, omega arith, omega arith, omega arith),
  books_from-OnShelf index section 0 (take 12 section.books)
      (omega (arith, length-take_le 12 section.books)),
)

section_x-cases :
    (col : ℕ)
    → col < 4
    → ((col ≡ 0) × (section_x col ≡ 100))
      ⊎ (((col ≡ 1) × (section_x col ≡ 420))
          ⊎ (((col ≡ 2) × (section_x col ≡ 740)) ⊎ ((col ≡ 3) × (section_x col ≡ 1060))))
section_x-cases col h = ground arith

shelves-Apart : (i j : ℕ) (a b : LayoutObject) → i ≢ j → OnShelf i a → OnShelf j b → Apart a b
shelves-Apart i j a b ne ha hb =
    let cols = section_x-cases (i % 4) (omega arith) in
    let cols' = section_x-cases (j % 4) (omega arith) in ground (arith, cols, cols')

-- A section of the vault is given its shelf and its first twelve books, or all if there are fewer,
-- and each of these objects stands within the shelf.
pub place_vault_section-fits :
    (index : ℕ) (section : ZoneSection)
    → (length (place_vault_section index section) ≡ suc (min 12 (length section.books)))
      × All (OnShelf index) (place_vault_section index section)
unfolding place_vault_section
place_vault_section-fits index section = (
  omega (
    arith,
    length-books_from index section 0 (take 12 section.books),
    length-take_le 12 section.books,
  ),
  place_vault_section-OnShelf index section,
)

-- The shelf and books of one section of the vault never overlap those of another.
pub place_vault_section-Apart :
    (i j : ℕ) (s t : ZoneSection)
    → i ≢ j
    → All (λ a. All (Apart a) (place_vault_section j t)) (place_vault_section i s)
place_vault_section-Apart i j s t ne =
    All-map (OnShelf i) _
      (λ a ha.
        All-map (OnShelf j) (Apart a) (λ b hb. shelves-Apart i j a b ne ha hb)
          (place_vault_section j t) (place_vault_section-OnShelf j t))
      (place_vault_section i s) (place_vault_section-OnShelf i s)

-- Two books at different places of the twelve never overlap.
pub book_on_shelf-Apart :
    (index : ℕ) (section : ZoneSection) (i j : ℕ) (b c : GameBook)
    → i < 12
    → j < 12
    → i ≢ j
    → Apart (book_on_shelf index section i b) (book_on_shelf index section j c)
unfolding book_on_shelf
book_on_shelf-Apart index section i j b c hi hj ne = ground arith
