-- ===== src/Base/Order.antt =====
-- The order of texts by their code points, which `sorted` and `<` of the program compare.
use multinexus.Base.{
  ℕ, ◌≡◌, refl, Bool, true, false, ◌&&◌, ◌||◌, List, [], ◌∷◌, arith, inl, inr, Bool-cases,
}
use multinexus.Base.{ltb, eqb}

-- `s <= t` on texts
unfoldable pub codes_leb : List ℕ → List ℕ → Bool
codes_leb [] t = true
codes_leb (c ∷ s) [] = false
codes_leb (c ∷ s) (d ∷ t) = ltb c d || (eqb c d && codes_leb s t)

pub codes_leb_refl : (s : List ℕ) → codes_leb s s ≡ true
unfolding codes_leb
codes_leb_refl [] = refl
codes_leb_refl (c ∷ s) = ground (arith, codes_leb_refl s)

-- The order of texts is total and antisymmetric, and it is transitive.
pub codes_leb_total : (s t : List ℕ) → codes_leb s t ≡ false → codes_leb t s ≡ true
unfolding codes_leb
codes_leb_total [] t h = cc
codes_leb_total (c ∷ s) [] h = refl
codes_leb_total (c ∷ s) (d ∷ t) h = elim (Bool-cases (codes_leb s t)) [
  | inl e ↦ ground arith
  | inr e ↦ ground (arith, codes_leb_total s t e)
]

pub codes_leb-antisym : (s t : List ℕ) → codes_leb s t ≡ true → codes_leb t s ≡ true → s ≡ t
unfolding codes_leb
codes_leb-antisym [] [] h k = refl
codes_leb-antisym [] (d ∷ t) h k = cc
codes_leb-antisym (c ∷ s) [] h k = cc
codes_leb-antisym (c ∷ s) (d ∷ t) h k =
    let first : c ≡ d = ground arith in
    let rest = codes_leb-antisym s t (ground arith) (ground arith) in cc

pub codes_leb_trans :
    (s t u : List ℕ) → codes_leb s t ≡ true → codes_leb t u ≡ true → codes_leb s u ≡ true
unfolding codes_leb
codes_leb_trans [] t u h k = refl
codes_leb_trans (c ∷ s) [] u h k = cc
codes_leb_trans (c ∷ s) (d ∷ t) [] h k = cc
codes_leb_trans (c ∷ s) (d ∷ t) (e ∷ u) h k = elim (Bool-cases (codes_leb s t)) [
  | inl f ↦ elim (Bool-cases (codes_leb t u)) [
    | inl g ↦ ground (arith, codes_leb_trans s t u f g)
    | inr g ↦ ground arith
  ]
  | inr f ↦ ground arith
]
