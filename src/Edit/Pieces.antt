-- ===== src/Edit/Pieces.antt =====
-- A specification of the edits: a text is cut into pieces, and each piece's old text gives way to
-- its new text, whatever stands between the pieces.
use morfx.Base.{
  ℕ, zero, suc, ◌≡◌, refl, ap, List, [], ◌∷◌, ◌++◌, length, take, drop, append_assoc, arith,
}
use morfx.Base.Bytes.{Bytes}

pub record Piece : Type 0 where
  pub gap : Bytes
  pub old : Bytes
  pub new : Bytes

abbrev pub original : List Piece → Bytes → Bytes
original [] tail = tail
original (p ∷ ps) tail = p.gap ++ (p.old ++ original ps tail)

abbrev pub rewritten : List Piece → Bytes → Bytes
rewritten [] tail = tail
rewritten (p ∷ ps) tail = p.gap ++ (p.new ++ rewritten ps tail)

-- the text with the bytes from `from` to `upto` replaced
abbrev pub splice : ℕ → ℕ → Bytes → Bytes → Bytes
splice from upto text result = take from result ++ (text ++ drop upto result)

pub take-length-append : (n : ℕ) (xs ys : Bytes) → n ≡ length xs → take n (xs ++ ys) ≡ xs
take-length-append zero [] ys h = refl
take-length-append zero (x ∷ xs) ys h = absurd (omega arith)
take-length-append (suc n) [] ys h = absurd (omega arith)
take-length-append (suc n) (x ∷ xs) ys h = ap (◌∷◌ x) (take-length-append n xs ys (omega arith))

pub drop-length-append : (n : ℕ) (xs ys : Bytes) → n ≡ length xs → drop n (xs ++ ys) ≡ ys
drop-length-append zero [] ys h = refl
drop-length-append zero (x ∷ xs) ys h = absurd (omega arith)
drop-length-append (suc n) [] ys h = absurd (omega arith)
drop-length-append (suc n) (x ∷ xs) ys h = drop-length-append n xs ys (omega arith)

pub regroup : (b g o x : Bytes) → b ++ (g ++ (o ++ x)) ≡ ((b ++ g) ++ o) ++ x
regroup b g o x = simp append_assoc

pub splice-front :
    (b g o new y : Bytes) (from upto : ℕ)
    → from ≡ length (b ++ g)
    → upto ≡ length ((b ++ g) ++ o)
    → splice from upto new (((b ++ g) ++ o) ++ y) ≡ b ++ (g ++ (new ++ y))
splice-front b g o new y from upto hf hu = rw (drop-length-append upto ((b ++ g) ++ o) y hu) (
    rw (append_assoc (b ++ g) o y, take-length-append from (b ++ g) (o ++ y) hf)
      (append_assoc b g (new ++ y)))
