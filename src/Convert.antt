-- ===== src/Convert.antt =====
-- Type descriptions and conversions, system/kernel/pdp_type.c. A symbol is a number; its parsed
-- description, which the source caches in the symbol, is computed here where it is used.
pub mod Match
pub mod Cache
mod Tests
use mathlib.Core.List.{flat_map}
use pdp.Base.{
  ℕ, zero, suc, ◌+◌, ◌-◌, Bool, true, false, not, ◌&&◌, ◌||◌, Option, none, some, List, [], ◌∷◌,
  ◌++◌, map, ◌==◌, ltb, leb, if◌then◌else◌, length, get_or, set, Outcome, ok, fault,
}
use pdp.Packet.{Header, Pool, Env, header}
use pdp.Packet.Handle.{copy_ro, copy_rw, mark_unused}

-- The symbol table of pdp_symbol.c as this file uses it.
pub record Symbols : Type 0 where
  pub name : ℕ → List ℕ
  pub gensym : List ℕ → ℕ

-- The scan of `pdp_type_to_list`: the name between two slashes that is open, and those behind it.
unfoldable pub split_name : List ℕ → List ℕ × List (List ℕ)
split_name [] = ([], [])
split_name (c ∷ cs) =
    let rest = split_name cs in if c == b'/' then ([], rest.0 ∷ rest.1) else (c ∷ rest.0, rest.1)

-- The assertion of the scan, on the length of the name that is open: `TMPSIZE` is 1024.
unfoldable pub fits_names : List ℕ → ℕ → Bool
fits_names [] n = true
fits_names (c ∷ cs) n =
    if c == b'/' then fits_names cs 0 else ltb (n + 1) 1024 && fits_names cs (n + 1)

-- The scan with its assertion.
unfoldable pub scan_names : List ℕ → Outcome (List ℕ × List (List ℕ))
scan_names s = if fits_names s 0 then ok (split_name s) else fault

-- `pdp_type_to_list` of a symbol whose name passes the assertion.
unfoldable pub type_to_list : Symbols → ℕ → List ℕ
unfolding split_name
type_to_list syms type =
    let names = split_name (syms.name type) in map syms.gensym (names.0 ∷ names.1)

abbrev pub wildcard : Symbols → ℕ
wildcard syms = syms.gensym (b'*' ∷ [])

abbrev pub last_or : List ℕ → ℕ → ℕ
last_or [] d = d
last_or (x ∷ xs) d = last_or xs x

-- The loop over both lists, and the tests behind it: `last_d` and `last_p` are the last symbols of the
-- whole lists.
unfoldable pub match_lists : ℕ → ℕ → ℕ → List ℕ → List ℕ → Bool
match_lists wild last_d last_p [] [] = true
match_lists wild last_d last_p [] (p ∷ ps) = last_d == wild
match_lists wild last_d last_p (d ∷ ds) [] = last_p == wild
match_lists wild last_d last_p (d ∷ ds) (p ∷ ps) =
    (d == wild || p == wild || d == p) && match_lists wild last_d last_p ds ps

-- `pdp_type_description_match`
unfoldable pub description_match : Symbols → ℕ → ℕ → Bool
description_match syms description pattern =
    let ds = type_to_list syms description in
    let ps = type_to_list syms pattern in
    description == pattern || match_lists (wildcard syms) (last_or ds 0) (last_or ps 0) ds ps

-- `t_pdp_conversion`. A program is the list of its methods, which are numbers.
pub record Conversion : Type 0 where
  pub src_pattern : ℕ
  pub dst_pattern : ℕ
  pub program : List ℕ

-- The registered conversions, and those that were found before.
pub record Conversions : Type 0 where
  pub registered : List Conversion
  pub cached : List Conversion

abbrev pub max_cache_size : ℕ
max_cache_size = 32

-- `pdp_type_register_conversion`
unfoldable pub register_conversion : Conversions → Conversion → Conversions
register_conversion cs c = record cs { registered = cs.registered ++ c ∷ [] }

-- `_pdp_type_find_conversion_program`
unfoldable pub find_program : Symbols → ℕ → ℕ → List Conversion → Option (List ℕ)
find_program syms src dst [] = none
find_program syms src dst (c ∷ cs) =
    let rest = find_program syms src dst cs in
    if description_match syms src c.src_pattern && description_match syms dst c.dst_pattern
    then some c.program
    else rest

-- The place of the conversion that is exactly the one asked for.
unfoldable pub find_index : ℕ → ℕ → List Conversion → Option ℕ
find_index src dst [] = none
find_index src dst (c ∷ cs) =
    let rest = find_index src dst cs in
    if src == c.src_pattern && dst == c.dst_pattern
    then some 0
    else elim rest [ none ↦ none | some i ↦ some (suc i) ]

abbrev pub no_conversion : Conversion
no_conversion = record { src_pattern = 0; dst_pattern = 0; program = [] }

-- The conversion at `i` changes places with the last one.
unfoldable pub swap_last : List Conversion → ℕ → List Conversion
swap_last cs i =
    let last = length cs - 1 in
    let c = get_or cs i no_conversion in set (set cs last c) i (get_or cs last no_conversion)

-- `_pdp_type_find_cached_conversion_program`
unfoldable pub find_cached : Conversions → ℕ → ℕ → Conversions × Option (List ℕ)
find_cached cs src dst = elim (find_index src dst cs.cached) [
  | none ↦ (cs, none)
  | some i ↦ (
    record cs { cached = swap_last cs.cached i },
    some (get_or cs.cached i no_conversion).program,
  )
]

-- The loop that makes room in a full cache.
unfoldable pub evict : List Conversion → List Conversion
evict [] = []
evict (c ∷ cs) =
    let rest = evict cs in if leb max_cache_size (length (c ∷ cs)) then rest else c ∷ cs

-- `pdp_type_register_cached_conversion`
unfoldable pub register_cached : Conversions → Conversion → Conversions
register_cached cs c = record cs { cached = evict cs.cached ++ c ∷ [] }

-- What a conversion method does with a packet, for a destination template.
abbrev pub Methods : Type 0
Methods = ℕ → Pool → Option ℕ → ℕ → Pool × Option ℕ

-- `pdp_packet_get_description`
unfoldable pub get_description : Symbols → Pool → Option ℕ → ℕ
get_description syms pool none = syms.gensym (b'i' ∷ b'n' ∷ b'v' ∷ b'a' ∷ b'l' ∷ b'i' ∷ b'd' ∷ [])
get_description syms pool (some p) = elim (header pool p) [
  | none ↦ syms.gensym (b'i' ∷ b'n' ∷ b'v' ∷ b'a' ∷ b'l' ∷ b'i' ∷ b'd' ∷ [])
  | some h ↦ elim h.desc [
    | none ↦ syms.gensym (b'u' ∷ b'n' ∷ b'k' ∷ b'n' ∷ b'o' ∷ b'w' ∷ b'n' ∷ [])
    | some d ↦ d
  ]
]

-- `pdp_packet_mark_unused`, which ignores the handle -1.
unfoldable pub release : Env → Pool → Option ℕ → Outcome Pool
release env pool none = ok pool
release env pool (some p) = mark_unused env pool p

-- The lines behind the first one: each takes the packet of the line before and gives it back.
unfoldable pub run_rest : Env → Methods → ℕ → Pool → Option ℕ → List ℕ → Outcome (Pool × Option ℕ)
run_rest env methods dest pool p [] = ok (pool, p)
run_rest env methods dest pool p (m ∷ ms) =
    let (pool', tmp) = methods m pool p dest in
    elim (release env pool' p) [
      | fault ↦ fault
      | ok released ↦ run_rest env methods dest released tmp ms
    ]

-- `_pdp_type_run_conversion_program`; a program has at least one line.
unfoldable pub run_program :
    Env → Methods → ℕ → Pool → Option ℕ → List ℕ → Outcome (Pool × Option ℕ)
run_program env methods dest pool p [] = fault
run_program env methods dest pool p (m ∷ ms) =
    let (pool', tmp) = methods m pool p dest in run_rest env methods dest pool' tmp ms

-- The result of `_pdp_packet_convert`, with the conversions and the pool that it leaves.
pub record Converted : Type 0 where
  pub conversions : Conversions
  pub pool : Pool
  pub packet : Option ℕ

-- The loop that converts on until the template matches, with the rounds that are left; `program`
-- collects what was run. The source has no bound: without one it may go round for ever.
unfoldable pub convert_loop :
    ℕ → Symbols → Env → Methods → ℕ → ℕ → Conversions → List ℕ → Pool → Option ℕ → Outcome Converted
convert_loop zero syms env methods type dest cs program pool p = fault
convert_loop (suc rounds) syms env methods type dest cs program pool p =
    let tmp_type = get_description syms pool p in
    elim (description_match syms tmp_type dest) [
      | true ↦ ok (record {
        conversions =
            register_cached cs
              (record { src_pattern = type; dst_pattern = dest; program = program });
        pool = pool;
        packet = p;
      })
      | false ↦ elim (find_program syms tmp_type dest cs.registered) [
        | none ↦ elim (release env pool p) [
          | fault ↦ fault
          | ok released ↦ ok (record { conversions = cs; pool = released; packet = none })
        ]
        | some tail ↦ elim (run_program env methods dest pool p tail) [
          | fault ↦ fault
          | ok (pool', new_packet) ↦ elim (release env pool' p) [
            | fault ↦ fault
            | ok released ↦
                convert_loop rounds syms env methods type dest cs (program ++ tail) released
                  new_packet
          ]
        ]
      ]
    ]

-- `_pdp_packet_convert`
unfoldable pub packet_convert :
    ℕ → Symbols → Env → Methods → Conversions → Pool → ℕ → ℕ → Outcome Converted
packet_convert rounds syms env methods cs pool packet dest =
    let type = get_description syms pool (some packet) in
    let (cs', cached) = find_cached cs type dest in
    elim cached [
      | some program ↦ elim (run_program env methods dest pool (some packet) program) [
        | fault ↦ fault
        | ok (pool', p) ↦ ok (record { conversions = cs'; pool = pool'; packet = p })
      ]
      | none ↦ elim (find_program syms type dest cs'.registered) [
        | none ↦ ok (record { conversions = cs'; pool = pool; packet = none })
        | some program ↦ elim (run_program env methods dest pool (some packet) program) [
          | fault ↦ fault
          | ok (pool', p) ↦ convert_loop rounds syms env methods type dest cs' program pool' p
        ]
      ]
    ]

abbrev pub with_conversions : Conversions → Outcome (Pool × Option ℕ) → Outcome Converted
with_conversions cs fault = fault
with_conversions cs (ok (pool, p)) = ok (record { conversions = cs; pool = pool; packet = p })

-- `pdp_packet_convert_ro`
unfoldable pub convert_ro :
    ℕ → Symbols → Env → Methods → Conversions → Pool → ℕ → ℕ → Outcome Converted
convert_ro rounds syms env methods cs pool packet dest =
    if description_match syms (get_description syms pool (some packet)) dest
    then with_conversions cs (copy_ro pool packet)
    else packet_convert rounds syms env methods cs pool packet dest

-- `pdp_packet_convert_rw`
unfoldable pub convert_rw :
    ℕ → Symbols → Env → Methods → Conversions → Pool → ℕ → ℕ → Outcome Converted
convert_rw rounds syms env methods cs pool packet dest =
    if description_match syms (get_description syms pool (some packet)) dest
    then with_conversions cs (copy_rw env pool packet)
    else packet_convert rounds syms env methods cs pool packet dest
