-- ===== src/Net/Copy.antt =====
-- `memcpy` into a buffer, and what a reader finds in it.
use pdp.Base.{
  ℕ, zero, suc, ◌+◌, ◌-◌, ◌≤◌, ◌<◌, ◌≡◌, ◌⊎◌, refl, ap, ◌∙◌, arith, List, [], ◌∷◌, length, get_or,
  take, drop,
}

-- `memcpy(d + i, src, length src)`; bytes that would fall outside are dropped.
abbrev pub write_at : List ℕ → ℕ → List ℕ → List ℕ
write_at [] i src = []
write_at (x ∷ d) zero [] = x ∷ d
write_at (x ∷ d) zero (y ∷ src) = y ∷ write_at d zero src
write_at (x ∷ d) (suc i) src = x ∷ write_at d i src

pub length-write_at : (d : List ℕ) (i : ℕ) (src : List ℕ) → length (write_at d i src) ≡ length d
length-write_at [] i src = refl
length-write_at (x ∷ d) zero [] = refl
length-write_at (x ∷ d) zero (y ∷ src) = ap suc (length-write_at d zero src)
length-write_at (x ∷ d) (suc i) src = ap suc (length-write_at d i src)

-- Inside the copied range a reader finds the source.
pub get_or-write_at_inside :
    (d : List ℕ) (i : ℕ) (src : List ℕ) (j : ℕ)
    → i + length src ≤ length d
    → i ≤ j
    → j < i + length src
    → get_or (write_at d i src) j 0 ≡ get_or src (j - i) 0
get_or-write_at_inside [] i src j h lo hi = absurd (omega arith)
get_or-write_at_inside (x ∷ d) zero [] j h lo hi = absurd (omega arith)
get_or-write_at_inside (x ∷ d) zero (y ∷ src) zero h lo hi =
    ap (λ n. get_or (y ∷ src) n 0) (let e : 0 ≡ 0 - 0 = omega arith in e)
get_or-write_at_inside (x ∷ d) zero (y ∷ src) (suc j) h lo hi =
    get_or-write_at_inside d zero src j (omega arith) (omega arith) (omega arith)
    ∙ ap (λ n. get_or (y ∷ src) n 0) (let e : suc (j - 0) ≡ suc j - 0 = omega arith in e)
get_or-write_at_inside (x ∷ d) (suc i) src zero h lo hi = absurd (omega arith)
get_or-write_at_inside (x ∷ d) (suc i) src (suc j) h lo hi =
    get_or-write_at_inside d i src j (omega arith) (omega arith) (omega arith)
    ∙ ap (λ n. get_or src n 0) (let e : j - i ≡ suc j - suc i = omega arith in e)

-- Outside of it a reader finds what was there.
pub get_or-write_at_outside :
    (d : List ℕ) (i : ℕ) (src : List ℕ) (j : ℕ)
    → (j < i) ⊎ (i + length src ≤ j)
    → get_or (write_at d i src) j 0 ≡ get_or d j 0
get_or-write_at_outside [] i src j h = refl
get_or-write_at_outside (x ∷ d) zero [] j h = refl
get_or-write_at_outside (x ∷ d) zero (y ∷ src) zero h = absurd (omega arith)
get_or-write_at_outside (x ∷ d) zero (y ∷ src) (suc j) h =
    get_or-write_at_outside d zero src j (omega arith)
get_or-write_at_outside (x ∷ d) (suc i) src zero h = refl
get_or-write_at_outside (x ∷ d) (suc i) src (suc j) h =
    get_or-write_at_outside d i src j (omega arith)

pub get_or-drop : (xs : List ℕ) (n j d : ℕ) → get_or (drop n xs) j d ≡ get_or xs (n + j) d
get_or-drop xs zero j d = ap (λ n. get_or xs n d) (let e : j ≡ 0 + j = omega arith in e)
get_or-drop [] (suc n) j d = refl
get_or-drop (x ∷ xs) (suc n) j d =
    get_or-drop xs n j d
    ∙ ap (λ n. get_or (x ∷ xs) n d) (let e : suc (n + j) ≡ suc n + j = omega arith in e)

pub get_or-take : (xs : List ℕ) (n j d : ℕ) → j < n → get_or (take n xs) j d ≡ get_or xs j d
get_or-take xs zero j d h = absurd (omega arith)
get_or-take [] (suc n) j d h = refl
get_or-take (x ∷ xs) (suc n) zero d h = refl
get_or-take (x ∷ xs) (suc n) (suc j) d h = get_or-take xs n j d (omega arith)
