-- ===== src/Base/Bytes.antt =====
-- Go strings as lists of bytes, and the functions of package strings that the program calls.
use Prim.Native.Nat.{ℕ, ◌-◌}
use Prim.Native.Char.{code}
use Prim.Native.String.{String}
use mathlib.Core.Path.{◌≡◌, refl, ap}
use mathlib.Core.Logic.{◌↔◌, ◌≢◌}
use mathlib.Core.Bool.{Bool, true, false, ◌&&◌, ◌||◌}
use mathlib.Core.Option.{Option, none, some}
use mathlib.Core.List.{List, [], ◌∷◌, ◌++◌, reverse}
use native.Mathlib.Omega.{arith}
use morfx.Base.Tests.{◌==◌, leb, if◌then◌else◌}

abbrev pub Bytes : Type 0
Bytes = List ℕ

-- The code points of a literal; these are its bytes where the text is ASCII.
abbrev pub codes : String → Bytes
codes String.[] = []
codes (String.◌∷◌ c s) = code c ∷ codes s

-- `a == b` on strings.
unfoldable pub beq : Bytes → Bytes → Bool
beq [] [] = true
beq (a ∷ s) (b ∷ t) = a == b && beq s t
beq _ _ = false

pub beq→eq : (s t : Bytes) → beq s t ≡ true → s ≡ t
unfolding beq
beq→eq [] [] h = refl
beq→eq [] (b ∷ t) h = cc
beq→eq (a ∷ s) [] h = cc
beq→eq (a ∷ s) (b ∷ t) h = ground (arith, beq→eq s t)

pub beq_refl : (s : Bytes) → beq s s ≡ true
unfolding beq
beq_refl [] = refl
beq_refl (a ∷ s) = ground (arith, beq_refl s)

pub beq_iff : (s t : Bytes) → (beq s t ≡ true) ↔ (s ≡ t)
beq_iff s t = (beq→eq s t, λ e. cc (ap (beq s) e, beq_refl s))

-- `s == ""`
unfoldable pub is_empty : Bytes → Bool
is_empty [] = true
is_empty (_ ∷ _) = false

-- `strings.IndexByte(s, b) >= 0`, which is `strings.Contains` at a text of one byte
unfoldable pub contains : Bytes → ℕ → Bool
contains [] b = false
contains (c ∷ s) b = c == b || contains s b

-- `strings.Cut(s, sep)` at a separator of one byte that occurs: what stands before it and behind.
unfoldable pub cut_byte : ℕ → Bytes → Option (Bytes × Bytes)
cut_byte b [] = none
cut_byte b (c ∷ s) =
    let rest = cut_byte b s in
    if c == b then some ([], s) else elim rest [ none ↦ none | some (k, v) ↦ some (c ∷ k, v) ]

-- `strings.Join`
unfoldable pub join : List Bytes → Bytes → Bytes
join [] sep = []
join (p ∷ []) sep = p
join (p ∷ q ∷ ps) sep = p ++ sep ++ join (q ∷ ps) sep

-- `unicode.IsSpace(rune(b))` at one byte: the white space of Latin-1.
unfoldable pub is_space : ℕ → Bool
is_space c = c == 9 || c == 10 || c == 11 || c == 12 || c == 13 || c == 32 || c == 0x85 || c == 0xA0

is_ascii_space : ℕ → Bool
is_ascii_space c = c == 9 || c == 10 || c == 11 || c == 12 || c == 13 || c == 32

-- The UTF-8 encodings of the white space beyond ASCII (U+0085, U+00A0, U+1680, U+2000 to U+200A,
-- U+2028, U+2029, U+202F, U+205F, U+3000).
is_space_pair : ℕ → ℕ → Bool
is_space_pair a b = a == 0xC2 && (b == 0x85 || b == 0xA0)

is_space_triple : ℕ → ℕ → ℕ → Bool
is_space_triple a b c =
    a == 0xE1 && b == 0x9A && c == 0x80
    || a == 0xE2 && b == 0x80 && (leb 0x80 c && leb c 0x8A || c == 0xA8 || c == 0xA9 || c == 0xAF)
    || a == 0xE2 && b == 0x81 && c == 0x9F
    || a == 0xE3 && b == 0x80 && c == 0x80

trim_left : Bytes → Bytes
trim_left [] = []
trim_left (a ∷ []) = if is_ascii_space a then [] else a ∷ []
trim_left (a ∷ b ∷ []) =
    let one = trim_left (b ∷ []) in
    if is_ascii_space a then one else if is_space_pair a b then [] else a ∷ b ∷ []
trim_left (a ∷ b ∷ c ∷ s) =
    let one = trim_left (b ∷ c ∷ s) in
    let two = trim_left (c ∷ s) in
    let three = trim_left s in
    if is_ascii_space a
    then one
    else if is_space_pair a b
    then two
    else if is_space_triple a b c
    then three
    else a ∷ b ∷ c ∷ s

-- `trim_left` on the text read backwards.
trim_left_rev : Bytes → Bytes
trim_left_rev [] = []
trim_left_rev (a ∷ []) = if is_ascii_space a then [] else a ∷ []
trim_left_rev (a ∷ b ∷ []) =
    let one = trim_left_rev (b ∷ []) in
    if is_ascii_space a then one else if is_space_pair b a then [] else a ∷ b ∷ []
trim_left_rev (a ∷ b ∷ c ∷ s) =
    let one = trim_left_rev (b ∷ c ∷ s) in
    let two = trim_left_rev (c ∷ s) in
    let three = trim_left_rev s in
    if is_ascii_space a
    then one
    else if is_space_pair b a
    then two
    else if is_space_triple c b a
    then three
    else a ∷ b ∷ c ∷ s

-- `strings.TrimSpace`
unfoldable pub trim_space : Bytes → Bytes
unfolding trim_left trim_left_rev is_ascii_space is_space_pair is_space_triple
trim_space s = reverse (trim_left_rev (reverse (trim_left s)))

-- `strings.ToUpper`, for the comparison with words of ASCII letters other than I, K and S: no other
-- character becomes one of these letters, and the others stay here as they are.
unfoldable pub to_upper : Bytes → Bytes
to_upper [] = []
to_upper (c ∷ s) = (if leb b'a' c && leb c b'z' then c - 32 else c) ∷ to_upper s

-- a path differs from the same path with something behind it
pub beq-append : (s t : Bytes) → t ≢ [] → beq (s ++ t) s ≡ false
unfolding beq
beq-append [] [] h = absurd (h refl)
beq-append [] (b ∷ t) h = refl
beq-append (a ∷ s) t h = ground (arith, beq-append s t)
