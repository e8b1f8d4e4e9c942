-- ===== src/File/Pieces.antt =====
-- The read loop of `write_from_file`: it ends, and its pieces are the file.
use mathlib.Core.List.{append-nil}
use distft.Prelude.{
  ℕ, zero, suc, ◌≡◌, refl, ◌<◌, ap, ◌∙◌, List, [], ◌∷◌, ◌++◌, length, take, drop, none, some, true,
  false, ltb, arith, Bool-cases, inl, inr, take-append-drop, length-drop, length-take,
}
use distft.Key.{Text}
use distft.File.{read_loop}

-- The pieces, put together.
unfoldable pub concat : List Text → Text
concat [] = []
concat (d ∷ ds) = d ++ concat ds

-- All pieces but the last are as long as the buffer, and the last is shorter.
abbrev pub WellCut : ℕ → List Text → Type 0
WellCut n [] = ⊥
WellCut n (d ∷ []) = length d < n
WellCut n (d ∷ e ∷ ds) = (length d ≡ n) × WellCut n (e ∷ ds)

WellCut-cons :
    (n : ℕ) (d : Text) (ds : List Text) → length d ≡ n → WellCut n ds → WellCut n (d ∷ ds)
WellCut-cons n d [] h w = absurd w
WellCut-cons n d (e ∷ ds) h w = (h, w)

-- With a buffer of at least one byte, and more fuel than the file has bytes, the read loop ends, if no
-- read fails. The pieces make up the file.
pub read_loop-total :
    (f n : ℕ) (content : Text)
    → 0 < n
    → length content < f
    → (ds : List Text) × (read_loop false f n content ≡ some ds)
      × (concat ds ≡ content)
      × WellCut n ds
unfolding read_loop concat
read_loop-total zero n content h l = elim l [ ]
read_loop-total (suc f) n content h l = elim (Bool-cases (ltb (length content) n)) [
  | inl e ↦ (content ∷ [], rw e, append-nil content, ground arith)
  | inr e ↦
      let (ds, q, c, w) =
        read_loop-total f n (drop n content) h (ground (arith, length-drop n content)) in
      (
        take n content ∷ ds,
        rw (e, q),
        ap (◌++◌ (take n content)) c ∙ take-append-drop n content,
        WellCut-cons n (take n content) ds (ground (arith, length-take n content)) w,
      )
]

read_loop-fails : (g n : ℕ) (content : Text) → read_loop true g n content ≡ none
unfolding read_loop
read_loop-fails zero n content = refl
read_loop-fails (suc g) n content = rw (read_loop-fails g n content) refl

-- With a buffer of at least one byte, and more fuel than the file has bytes, the read loop ends if no read
-- fails. The pieces make up the file, each fills the buffer but the last, and the last does not: it is
-- empty where the length of the file is a multiple of the buffer's. If the reads fail, the loop never ends,
-- whatever the fuel.
pub read_loop-ends :
    (f n : ℕ) (content : Text)
    → 0 < n
    → length content < f
    → ((ds : List Text) × (read_loop false f n content ≡ some ds)
        × (concat ds ≡ content)
        × WellCut n ds)
      × ((g : ℕ) → read_loop true g n content ≡ none)
read_loop-ends f n content h l = (read_loop-total f n content h l, λ g. read_loop-fails g n content)
