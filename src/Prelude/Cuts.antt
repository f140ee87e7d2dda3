-- ===== src/Prelude/Cuts.antt =====
-- `s[:n]` of a Go string. A native text is whole characters: a character that the cut goes through
-- is left out, where Go keeps its first bytes.
use Prim.Native.Nat.{ℕ, ◌-◌, ◌≤◌, Ordering, compare as compare_ℕ}
use Prim.Native.Char.{Char, len_utf8}
use Prim.Native.String.{String, [], ◌∷◌, len, slice, fits}
use Prim.Native.String.len
use Prim.Native.String.slice
use mathlib.Core.Path.{◌≡◌, refl, subst⁻¹}
use native.Mathlib.Omega.{arith, compare-lt, compare-eq}
use web_gobbler.Prelude.Tests.{leb, if◌then◌else◌}

-- `if len(s) > n { s = s[:n] }`
unfoldable pub cut : ℕ → String → String
cut n s = if leb (len s) n then s else slice s 0 n

len-fits :
    (o : Ordering) (b : ℕ) (c : Char) (r : String)
    → compare_ℕ (len_utf8 c) b ≡ o
    → len r ≤ b - len_utf8 c
    → len (fits o c r) ≤ b
len-fits Ordering.lt b c r e h =
    let w = compare-lt (len_utf8 c) b e in subst⁻¹ (λ k. k ≤ b) (len.cons c r) (omega (arith, w, h))
len-fits Ordering.eq b c r e h =
    let w = compare-eq (len_utf8 c) b e in subst⁻¹ (λ k. k ≤ b) (len.cons c r) (omega (arith, w, h))
len-fits Ordering.gt b c r e h = subst⁻¹ (λ k. k ≤ b) len.nil (omega arith)

len-slice : (s : String) (n : ℕ) → len (slice s 0 n) ≤ n
len-slice [] n =
    subst⁻¹ (λ t. len t ≤ n) (slice.nil 0 n) (subst⁻¹ (λ k. k ≤ n) len.nil (omega arith))
len-slice (c ∷ s) n =
    subst⁻¹ (λ t. len t ≤ n) (slice.cons-zero c s n)
      (len-fits (compare_ℕ (len_utf8 c) n) n c (slice s 0 (n - len_utf8 c)) refl
        (len-slice s (n - len_utf8 c)))

pub len-cut : (n : ℕ) (s : String) → len (cut n s) ≤ n
unfolding cut
len-cut n s = ground (arith, len-slice s n)
