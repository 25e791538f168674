-- ===== src/Convert/Match.antt =====
-- The match of type descriptions, and the parsing of a description.
use pdp.Base.{
  ℕ, ◌≡◌, refl, ap, ◌∙◌, sym, arith, Bool, true, false, ◌&&◌, ◌||◌, List, [], ◌∷◌, ◌++◌, ◌==◌, inl,
  inr, Bool-cases, ==-refl, ==→eq, suc, ◌<◌, ◌+◌, ltb, length, lt→ltb, ltb→lt, Outcome, ok, fault,
  if◌then◌else◌,
}
use pdp.Convert.{
  Symbols, split_name, fits_names, scan_names, match_lists, type_to_list, wildcard, last_or,
  description_match,
}

==-comm : (a b : ℕ) → (a == b) ≡ (b == a)
==-comm a b = ground arith

match_lists_comm : (w a b : ℕ) (ds ps : List ℕ) → match_lists w a b ds ps ≡ match_lists w b a ps ds
unfolding match_lists
match_lists_comm w a b [] [] = refl
match_lists_comm w a b [] (p ∷ ps) = refl
match_lists_comm w a b (d ∷ ds) [] = refl
match_lists_comm w a b (d ∷ ds) (p ∷ ps) =
    rw (match_lists_comm w a b ds ps, ==-comm d p)
      (swap (d == w) (p == w) (p == d) (match_lists w b a ps ds))
  where
    swap : (x y z r : Bool) → ((x || y || z) && r) ≡ ((y || x || z) && r)
    swap true true z r = refl
    swap true false z r = refl
    swap false true z r = refl
    swap false false z r = refl

-- The match of a description and a pattern is symmetric: which of the two has the wildcards, or is
-- the shorter one, does not matter.
pub description_match_comm :
    (syms : Symbols) (d p : ℕ) → description_match syms d p ≡ description_match syms p d
unfolding description_match
description_match_comm syms d p =
    let ds = type_to_list syms d in
    let ps = type_to_list syms p in
    rw (match_lists_comm (wildcard syms) (last_or ds 0) (last_or ps 0) ds ps, ==-comm d p) refl

-- Each description matches itself.
pub description_match_self : (syms : Symbols) (d : ℕ) → description_match syms d d ≡ true
unfolding description_match
description_match_self syms d = rw (==-refl d) refl

-- The names put together again, with a slash before each but the first.
abbrev pub join_names : List ℕ → List (List ℕ) → List ℕ
join_names n [] = n
join_names n (m ∷ ms) = n ++ (b'/' ∷ join_names m ms)

abbrev pub has_slash : List ℕ → Bool
has_slash [] = false
has_slash (c ∷ cs) = c == b'/' || has_slash cs

abbrev pub AllPlain : List (List ℕ) → Type 0
AllPlain [] = Unit {0}
AllPlain (n ∷ ns) = (has_slash n ≡ false) × AllPlain ns

-- What the parts of a name are.
abbrev pub IsSplit : List ℕ → List ℕ × List (List ℕ) → Type 0
IsSplit s (n, ns) = (join_names n ns ≡ s) × (has_slash n ≡ false) × AllPlain ns

join_names-cons :
    (c : ℕ) (n : List ℕ) (ns : List (List ℕ)) → join_names (c ∷ n) ns ≡ c ∷ join_names n ns
join_names-cons c n [] = refl
join_names-cons c n (m ∷ ms) = refl

-- The scan cuts a name where its slashes are.
pub split_name-IsSplit : (s : List ℕ) → IsSplit s (split_name s)
unfolding split_name
split_name-IsSplit [] = (refl, refl, tt)
split_name-IsSplit (c ∷ cs) =
    let (same, plain, all) = split_name-IsSplit cs in
    let rest = split_name cs in
    elim (Bool-cases (c == b'/')) [
      | inl slash ↦ rw slash (
        ap (λ l. b'/' ∷ l) same ∙ ap (λ x. x ∷ cs) (sym (==→eq c b'/' slash)),
        refl,
        (plain, all),
      )
      | inr other ↦
          rw other (join_names-cons c rest.0 rest.1 ∙ ap (λ l. c ∷ l) same, rw other plain, all)
    ]

-- All parts are shorter than the assertion allows; `n` characters of the first one are gone already.
abbrev pub all_short : List (List ℕ) → Bool
all_short [] = true
all_short (m ∷ ms) = ltb (length m) 1024 && all_short ms

short_parts : ℕ → List ℕ × List (List ℕ) → Bool
short_parts n (m, ms) = ltb (n + length m) 1024 && all_short ms

short_parts_zero :
    (parts : List ℕ × List (List ℕ)) → short_parts 0 parts ≡ all_short (parts.0 ∷ parts.1)
unfolding short_parts
short_parts_zero (m, ms) =
    let e : 0 + length m ≡ length m = omega arith in ap (λ t. ltb t 1024 && all_short ms) e

fits_names-short_parts :
    (s : List ℕ) (n : ℕ) → n < 1024 → fits_names s n ≡ short_parts n (split_name s)
unfolding fits_names split_name short_parts
fits_names-short_parts [] n h = rw (lt→ltb (n + 0) 1024 (omega arith)) refl
fits_names-short_parts (c ∷ cs) n h = elim (Bool-cases (c == b'/')) [
  | inl slash ↦
      rw (slash, lt→ltb (n + 0) 1024 (omega arith))
        (fits_names-short_parts cs 0 (omega arith) ∙ short_parts_zero (split_name cs))
  | inr other ↦
      let sum : n + suc (length (split_name cs).0) ≡ n + 1 + length (split_name cs).0 =
        omega arith in
      elim (Bool-cases (ltb (n + 1) 1024)) [
        | inl small ↦
            rw (other, small, sum) (fits_names-short_parts cs (n + 1) (ltb→lt (n + 1) 1024 small))
        | inr large ↦
            let late : ltb (n + 1 + length (split_name cs).0) 1024 ≡ false = ground arith in
            rw (other, large, sum) (rw late refl)
      ]
]

-- What the scan of a name gives: its parts, or a failed assertion on a part that is too long.
abbrev pub Scanned : List ℕ → Outcome (List ℕ × List (List ℕ)) → Type 0
Scanned s result =
    (parts : List ℕ × List (List ℕ)) × IsSplit s parts
    × (result ≡ (if all_short (parts.0 ∷ parts.1) then ok parts else fault))

-- A description's name is cut into parts that hold no slash and that give the name again when they are
-- joined by slashes: nothing is lost, and empty parts are kept. The scan's assertion fails exactly for
-- the names with a part of 1024 characters or more.
pub scan_names-Scanned : (s : List ℕ) → Scanned s (scan_names s)
unfolding scan_names
scan_names-Scanned s = (
  split_name s,
  split_name-IsSplit s,
  ap (λ b. if b then ok (split_name s) else fault)
      (fits_names-short_parts s 0 (omega arith) ∙ short_parts_zero (split_name s)),
)
