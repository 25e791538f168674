-- ===== src/Convert/Cache.antt =====
-- The cache of conversions: what a lookup finds, and that the cache stays small.
use pdp.Base.{
  ℕ, zero, suc, ◌-◌, ◌≤◌, ◌<◌, ◌≡◌, ◌≢◌, refl, ap, ◌∙◌, sym, arith, false, ◌&&◌, Option, none, some,
  List, [], ◌∷◌, ◌==◌, inl, inr, Bool-cases, leb, leb→lt, length, get_or, set, length-set,
  length-append, get_or-set_self, get_or-set_ne,
}
use native.Mathlib.Decide.{ℕ_discrete}
use pdp.Convert.{
  Conversion, Conversions, max_cache_size, find_index, swap_last, find_cached, evict,
  register_cached, no_conversion,
}

length-evict : (cs : List Conversion) → length (evict cs) < max_cache_size
unfolding evict
length-evict [] = omega arith
length-evict (c ∷ cs) = elim (Bool-cases (leb max_cache_size (length (c ∷ cs)))) [
  | inl over ↦ rw over (length-evict cs)
  | inr fits ↦ rw fits (leb→lt max_cache_size (length (c ∷ cs)) fits)
]

-- The cache never holds more than its bound, whatever it held before.
pub length-register_cached :
    (cs : Conversions) (c : Conversion) → length (register_cached cs c).cached ≤ max_cache_size
unfolding register_cached
length-register_cached cs c =
    omega (arith, length-append {0} (evict cs.cached) (c ∷ []), length-evict cs.cached)

-- The conversion at an index is the one asked for.
abbrev pub IsFor : ℕ → ℕ → Conversion → Type 0
IsFor src dst c = (src ≡ c.src_pattern) × (dst ≡ c.dst_pattern)

-- What a search for a conversion may answer: the first one, or that there is none.
abbrev pub FoundAt : List Conversion → ℕ → ℕ → Option ℕ → Type 0
FoundAt cs src dst none = (i : ℕ) → i < length cs → ¬ IsFor src dst (get_or cs i no_conversion)
FoundAt cs src dst (some i) = (i < length cs) × IsFor src dst (get_or cs i no_conversion)

find_index-FoundAt :
    (src dst : ℕ) (cs : List Conversion) → FoundAt cs src dst (find_index src dst cs)
unfolding find_index
find_index-FoundAt src dst [] = λ i h e. absurd (omega arith)
find_index-FoundAt src dst (c ∷ cs) =
    elim (Bool-cases (src == c.src_pattern && dst == c.dst_pattern)) [
      | inl hit ↦ rw hit (omega arith, (ground arith, ground arith))
      | inr miss ↦ rw miss (later (find_index src dst cs) (find_index-FoundAt src dst cs) miss)
    ]
  where
    none_later :
        FoundAt cs src dst none
        → (src == c.src_pattern && dst == c.dst_pattern) ≡ false
        → FoundAt (c ∷ cs) src dst none
    none_later f miss zero h e = ground arith
    none_later f miss (suc i) h e = f i (omega arith) e

    later :
        (o : Option ℕ)
        → FoundAt cs src dst o
        → (src == c.src_pattern && dst == c.dst_pattern) ≡ false
        → FoundAt
            (c ∷ cs)
            src
            dst
            (elim o as (λ x. Option ℕ) [ none ↦ none | some i ↦ some (suc i) ])
    later none f miss = λ i h e. none_later f miss i h e
    later (some i) f miss = (omega arith, f.1)

-- What a lookup in the cache does. With no entry for the pair it changes nothing. Else it gives that
-- entry's program, and the entry changes places with the last one.
abbrev pub LooksUp : Conversions → ℕ → ℕ → Conversions × Option (List ℕ) → Type 0
LooksUp cs src dst (cs', none) =
    (cs' ≡ cs)
    × ((i : ℕ) → i < length cs.cached → ¬ IsFor src dst (get_or cs.cached i no_conversion))
LooksUp cs src dst (cs', some program) =
    (i : ℕ) × (i < length cs.cached)
    × IsFor src dst (get_or cs.cached i no_conversion)
    × (program ≡ (get_or cs.cached i no_conversion).program)
    × (length cs'.cached ≡ length cs.cached)
    × (get_or cs'.cached (length cs.cached - 1) no_conversion ≡ get_or cs.cached i no_conversion)
    × (get_or cs'.cached i no_conversion ≡ get_or cs.cached (length cs.cached - 1) no_conversion)
    × ((j : ℕ)
        → j ≢ i
        → j ≢ length cs.cached - 1
        → get_or cs'.cached j no_conversion ≡ get_or cs.cached j no_conversion)

module _ (cs : List Conversion) (i : ℕ) (inside : i < length cs) where
  length-swap_last : length (swap_last cs i) ≡ length cs
  unfolding swap_last
  length-swap_last =
      length-set (set cs (length cs - 1) (get_or cs i no_conversion)) i
        (get_or cs (length cs - 1) no_conversion)
      ∙ length-set cs (length cs - 1) (get_or cs i no_conversion)

  get_or-swap_last_here :
      get_or (swap_last cs i) i no_conversion ≡ get_or cs (length cs - 1) no_conversion
  unfolding swap_last
  get_or-swap_last_here =
      get_or-set_self (set cs (length cs - 1) (get_or cs i no_conversion)) i _ no_conversion
        (omega (arith, length-set {0} cs (length cs - 1) (get_or cs i no_conversion)))

  get_or-swap_last_end :
      get_or (swap_last cs i) (length cs - 1) no_conversion ≡ get_or cs i no_conversion
  unfolding swap_last
  get_or-swap_last_end = elim (ℕ_discrete i (length cs - 1)) [
    | yes same ↦
        ap (λ j. get_or (swap_last cs i) j no_conversion) (sym same)
        ∙ get_or-swap_last_here
        ∙ ap (λ j. get_or cs j no_conversion) (sym same)
    | no other ↦
        get_or-set_ne (set cs (length cs - 1) (get_or cs i no_conversion)) i (length cs - 1) _
          no_conversion other
        ∙ get_or-set_self cs (length cs - 1) _ no_conversion (omega arith)
  ]

  get_or-swap_last_else :
      (j : ℕ)
      → j ≢ i
      → j ≢ length cs - 1
      → get_or (swap_last cs i) j no_conversion ≡ get_or cs j no_conversion
  unfolding swap_last
  get_or-swap_last_else j ne ne' =
      get_or-set_ne (set cs (length cs - 1) (get_or cs i no_conversion)) i j _ no_conversion
        (λ e. ne (sym e))
      ∙ get_or-set_ne cs (length cs - 1) j _ no_conversion (λ e. ne' (sym e))

-- A lookup in the cache finds an entry for exactly the pair where there is one, and then only makes
-- the entry change places with the last one.
pub find_cached-LooksUp :
    (cs : Conversions) (src dst : ℕ) → LooksUp cs src dst (find_cached cs src dst)
unfolding find_cached
find_cached-LooksUp cs src dst =
    answer (find_index src dst cs.cached) (find_index-FoundAt src dst cs.cached)
  where
    answer :
        (o : Option ℕ)
        → FoundAt cs.cached src dst o
        → LooksUp cs src dst (elim o as (λ x. Conversions × Option (List ℕ)) [
          | none ↦ (cs, none)
          | some i ↦ (
            record cs { cached = swap_last cs.cached i },
            some (get_or cs.cached i no_conversion).program,
          )
        ])
    answer none f = (refl, f)
    answer (some i) f = (
      i,
      f.0,
      f.1,
      refl,
      length-swap_last cs.cached i f.0,
      get_or-swap_last_end cs.cached i f.0,
      get_or-swap_last_here cs.cached i f.0,
      get_or-swap_last_else cs.cached i f.0,
    )
