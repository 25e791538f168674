-- ===== src/Convert/Tests.antt =====
-- Descriptions and the conversion cache: runs, and the theorems at concrete inputs.
use pdp.Base.{◌≡◌, refl, true, [], ◌∷◌, ◌==◌, if◌then◌else◌}
use pdp.Convert.{
  split_name, Symbols, Conversion, Conversions, scan_names, description_match, find_cached,
  match_lists, type_to_list,
}
use pdp.Convert.Match.{Scanned, scan_names-Scanned}
use pdp.Convert.Cache.{LooksUp, find_cached-LooksUp}

-- Symbol 1 is `a`, 2 is `b`, 3 is `*`, 4 is `a/b` and 5 is `a/*`.
abbrev few_symbols : Symbols
few_symbols = record {
  name = λ n.
      if n == 4
      then b'a' ∷ b'/' ∷ b'b' ∷ []
      else if n == 5
      then b'a' ∷ b'/' ∷ b'*' ∷ []
      else b'a' ∷ [];
  gensym = λ s. elim s [ c ∷ [] ↦ if c == b'a' then 1 else if c == b'b' then 2 else 3 | _ ↦ 0 ];
}

split_example : split_name (b'a' ∷ b'/' ∷ b'b' ∷ []) ≡ (b'a' ∷ [], (b'b' ∷ []) ∷ [])
unfolding split_name
split_example = refl

wildcard_matches : description_match few_symbols 4 5 ≡ true
unfolding description_match match_lists type_to_list split_name
wildcard_matches = refl

abbrev invert : Conversion
invert = record { src_pattern = 4; dst_pattern = 5; program = 9 ∷ [] }

abbrev two_cached : Conversions
two_cached = record { registered = []; cached = invert ∷ record invert { src_pattern = 5 } ∷ [] }

scan_names-Scanned_example : Scanned (b'a' ∷ b'/' ∷ []) (scan_names (b'a' ∷ b'/' ∷ []))
scan_names-Scanned_example = scan_names-Scanned (b'a' ∷ b'/' ∷ [])

find_cached-LooksUp_example : LooksUp two_cached 4 5 (find_cached two_cached 4 5)
find_cached-LooksUp_example = find_cached-LooksUp two_cached 4 5
