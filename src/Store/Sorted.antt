-- ===== src/Store/Sorted.antt =====
-- What ORDER BY created_at DESC gives (ListJobs of internal/store/store.go): the rows, newest
-- first.
use mathlib.Core.List.{Permᴰ}
use mathlib.Core.List.Permᴰ
use web_gobbler.Prelude.{
  suc, ◌≤◌, length, List, [], ◌∷◌, Memᴰ, All, All-mem, ◌≡◌, refl, sym, subst, ap, ◌∙◌, arith,
}
use web_gobbler.Store.Table.{Row}

-- No row is older than one after it: rows of one time may be in any order.
abbrev pub NewestFirst : List Row → Type 0
NewestFirst [] = Unit
NewestFirst (r ∷ rs) = All (λ s. s.created_at ≤ r.created_at) rs × NewestFirst rs

-- What a query may answer that orders these rows by created_at DESC.
abbrev pub IsOrdered : List Row → List Row → Type 0
IsOrdered rows sorted = Permᴰ rows sorted × NewestFirst sorted

-- No two of the rows are of one time.
abbrev pub TimesDiffer : List Row → Type 0
TimesDiffer [] = Unit
TimesDiffer (r ∷ rs) = All (λ s. ¬ (s.created_at ≡ r.created_at)) rs × TimesDiffer rs

Perm-mem : {r : Row} {xs ys : List Row} → Permᴰ xs ys → Memᴰ r xs → Memᴰ r ys
Perm-mem Permᴰ.nil m = m
Perm-mem (Permᴰ.cons e d) (Memᴰ.head q) = Memᴰ.head (q ∙ e)
Perm-mem (Permᴰ.cons e d) (Memᴰ.tail m) = Memᴰ.tail (Perm-mem d m)
Perm-mem (Permᴰ.swap e₁ e₂) (Memᴰ.head q) = Memᴰ.tail (Memᴰ.head (q ∙ e₁))
Perm-mem (Permᴰ.swap e₁ e₂) (Memᴰ.tail (Memᴰ.head q)) = Memᴰ.head (q ∙ e₂)
Perm-mem (Permᴰ.swap e₁ e₂) (Memᴰ.tail (Memᴰ.tail m)) = Memᴰ.tail (Memᴰ.tail m)
Perm-mem (Permᴰ.trans d₁ d₂) m = Perm-mem d₂ (Perm-mem d₁ m)

Perm-All : (P : Row → Type 0) {xs ys : List Row} → Permᴰ xs ys → All P xs → All P ys
Perm-All P Permᴰ.nil h = h
Perm-All P (Permᴰ.cons e d) h = (subst P e h.0, Perm-All P d h.1)
Perm-All P (Permᴰ.swap e₁ e₂) h = (subst P e₂ h.1.0, (subst P e₁ h.0, h.1.1))
Perm-All P (Permᴰ.trans d₁ d₂) h = Perm-All P d₂ (Perm-All P d₁ h)

Perm-TimesDiffer : {xs ys : List Row} → Permᴰ xs ys → TimesDiffer xs → TimesDiffer ys
Perm-TimesDiffer Permᴰ.nil h = h
Perm-TimesDiffer (Permᴰ.cons {l₂ = l₂} e d) h = (
  subst (λ r. All (λ s. ¬ (s.created_at ≡ r.created_at)) l₂) e (Perm-All _ d h.0),
  Perm-TimesDiffer d h.1,
)
Perm-TimesDiffer (Permᴰ.swap {l = l} e₁ e₂) h = (
  (
    (λ q. h.0.0 (ap (λ r. r.created_at) e₂ ∙ sym q ∙ sym (ap (λ r. r.created_at) e₁))),
    subst (λ r. All (λ s. ¬ (s.created_at ≡ r.created_at)) l) e₂ h.1.0,
  ),
  (subst (λ r. All (λ s. ¬ (s.created_at ≡ r.created_at)) l) e₁ h.0.1, h.1.1),
)
Perm-TimesDiffer (Permᴰ.trans d₁ d₂) h = Perm-TimesDiffer d₂ (Perm-TimesDiffer d₁ h)

Perm-length : {xs ys : List Row} → Permᴰ xs ys → length xs ≡ length ys
Perm-length Permᴰ.nil = refl
Perm-length (Permᴰ.cons e d) = ap suc (Perm-length d)
Perm-length (Permᴰ.swap e₁ e₂) = refl
Perm-length (Permᴰ.trans d₁ d₂) = Perm-length d₁ ∙ Perm-length d₂

pub IsOrdered-length :
    {rows sorted : List Row} → IsOrdered rows sorted → length rows ≡ length sorted
IsOrdered-length h = Perm-length h.0

-- Two lists have the same rows.
abbrev SameRows : List Row → List Row → Type 0
SameRows xs ys = ((r : Row) → Memᴰ r xs → Memᴰ r ys) × ((r : Row) → Memᴰ r ys → Memᴰ r xs)

not_again : {x r : Row} (xs : List Row) → TimesDiffer (x ∷ xs) → Memᴰ r xs → ¬ (r ≡ x)
not_again xs h m e = All-mem _ xs h.0 m (ap (λ s. s.created_at) e)

same_head :
    (x y : Row) (xs ys : List Row)
    → NewestFirst (x ∷ xs)
    → NewestFirst (y ∷ ys)
    → TimesDiffer (x ∷ xs)
    → Memᴰ x (y ∷ ys)
    → Memᴰ y (x ∷ xs)
    → x ≡ y
same_head x y xs ys h k apart (Memᴰ.head e) m = e
same_head x y xs ys h k apart (Memᴰ.tail n) (Memᴰ.head e) = sym e
same_head x y xs ys h k apart (Memᴰ.tail n) (Memᴰ.tail m) =
    let x_old : x.created_at ≤ y.created_at = All-mem _ ys k.0 n in
    let y_old : y.created_at ≤ x.created_at = All-mem _ xs h.0 m in
    let same : y.created_at ≡ x.created_at = omega arith in elim (All-mem _ xs apart.0 m same) [ ]

in_tail :
    {r x y : Row} (xs ys : List Row)
    → TimesDiffer (x ∷ xs)
    → x ≡ y
    → Memᴰ r xs
    → Memᴰ r (y ∷ ys)
    → Memᴰ r ys
in_tail xs ys apart e m (Memᴰ.head q) = elim (not_again xs apart m (q ∙ sym e)) [ ]
in_tail xs ys apart e m (Memᴰ.tail n) = n

sorted_once :
    (xs ys : List Row)
    → NewestFirst xs
    → NewestFirst ys
    → TimesDiffer xs
    → TimesDiffer ys
    → SameRows xs ys
    → xs ≡ ys
sorted_once [] [] h k a b s = refl
sorted_once [] (y ∷ ys) h k a b s = elim (s.1 y (Memᴰ.head refl)) [ ]
sorted_once (x ∷ xs) [] h k a b s = elim (s.0 x (Memᴰ.head refl)) [ ]
sorted_once (x ∷ xs) (y ∷ ys) h k a b s =
    let e = same_head x y xs ys h k a (s.0 x (Memᴰ.head refl)) (s.1 y (Memᴰ.head refl)) in
    let rest = sorted_once xs ys h.1 k.1 a.1 b.1 (
      (λ r m. in_tail xs ys a e m (s.0 r (Memᴰ.tail m))),
      (λ r m. in_tail ys xs b (sym e) m (s.1 r (Memᴰ.tail m))),
    ) in
    ap (λ r. r ∷ xs) e ∙ ap (λ rs. y ∷ rs) rest

-- Rows of different times have one order, newest first.
pub ordered_once :
    {rows xs ys : List Row} → TimesDiffer rows → IsOrdered rows xs → IsOrdered rows ys → xs ≡ ys
ordered_once {rows} {xs} {ys} apart h k =
    sorted_once xs ys h.1 k.1 (Perm-TimesDiffer h.0 apart) (Perm-TimesDiffer k.0 apart) (
      (λ r m. Perm-mem (Permᴰ.trans (Permᴰ.symm h.0) k.0) m),
      (λ r m. Perm-mem (Permᴰ.trans (Permᴰ.symm k.0) h.0) m),
    )
