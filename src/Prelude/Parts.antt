-- ===== src/Prelude/Parts.antt =====
-- A buffer that is written part after part, and the reads of one of its parts.
use Prim.Native.Nat.{ℕ, ◌+◌, ◌-◌, ◌≤◌}
use mathlib.Core.Path.{◌≡◌, refl, sym, ap, ◌∙◌}
use mathlib.Core.Option.{some}
use mathlib.Core.List.{List, [], ◌∷◌, ◌++◌}
use native.Mathlib.Omega.{arith}
use xhubv.Prelude.Tests.{le→leb}
use xhubv.Prelude.Lists.{length, take, drop, length-append, append_assoc}
use xhubv.Prelude.Octets.{
  Bytes, slice, c_string, IsText, slice_skip, slice_whole, c_string_skip, c_string_whole,
}

abbrev pub concat : List Bytes → Bytes
concat [] = []
concat (p ∷ ps) = p ++ concat ps

abbrev pub total : List Bytes → ℕ
total [] = 0
total (p ∷ ps) = length p + total ps

pub length-concat : (ps : List Bytes) → length (concat ps) ≡ total ps
length-concat [] = refl
length-concat (p ∷ ps) = omega (arith, length-append p (concat ps), length-concat ps)

pub slice-concat :
    (pre : List Bytes) (x : Bytes) (post : List Bytes) (off n : ℕ)
    → total pre ≡ off
    → length x ≡ n
    → slice off n (concat (pre ++ x ∷ post)) ≡ some x
slice-concat [] x post off n e l =
    ap (λ o. slice o n (x ++ concat post)) (sym e) ∙ slice_whole n x (concat post) l
slice-concat (p ∷ pre) x post off n e l =
    slice_skip off n (length p) p (concat (pre ++ x ∷ post)) refl (omega arith)
    ∙ slice-concat pre x post (off - length p) n (omega arith) l

-- A text that stands in a part with a NUL behind it.
pub c_string-concat :
    (pre : List Bytes) (s rest : Bytes) (post : List Bytes) (off : ℕ)
    → total pre ≡ off
    → IsText s
    → c_string off (concat (pre ++ (s ++ 0 ∷ rest) ∷ post)) ≡ some s
c_string-concat [] s rest post off e h =
    ap (λ o. c_string o ((s ++ 0 ∷ rest) ++ concat post)) (sym e)
    ∙ ap (c_string 0) (append_assoc s (0 ∷ rest) (concat post))
    ∙ c_string_whole s (rest ++ concat post) h
c_string-concat (p ∷ pre) s rest post off e h =
    c_string_skip off (length p) p (concat (pre ++ (s ++ 0 ∷ rest) ∷ post)) refl (omega arith)
    ∙ c_string-concat pre s rest post (off - length p) (omega arith) h

-- A read that ends inside the buffer.
pub slice_inside :
    (off n : ℕ) (xs : Bytes) → off + n ≤ length xs → (b : Bytes) × (slice off n xs ≡ some b)
unfolding slice
slice_inside off n xs h = (take n (drop off xs), rw (le→leb (off + n) (length xs) h) refl)
