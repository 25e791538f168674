-- ===== src/Comm/Converting.antt =====
-- The variants of puredata/pdp_comm.c that convert a packet to a template first. A busy variable drops the
-- packet; without a template it is copied.
use pdp.Base.{ℕ, Bool, true, false, Option, none, some, Outcome, ok, fault}
use pdp.Packet.{Pool, Env}
use pdp.Convert.{Symbols, Methods, Conversions, Converted, convert_ro, convert_rw}
use pdp.Comm.{copy_ro_or_drop, copy_rw_or_drop}

-- The pool, the variable and the result of a copy, with the conversions, which it leaves alone.
abbrev copied : Conversions → Outcome (Pool × Option ℕ × Bool) → Outcome (Converted × Bool)
copied cs fault = fault
copied cs (ok (pool, p, drop)) = ok (record { conversions = cs; pool = pool; packet = p }, drop)

-- A conversion that was not dropped.
abbrev kept : Outcome Converted → Outcome (Converted × Bool)
kept fault = fault
kept (ok c) = ok (c, false)

-- `pdp_packet_convert_ro_or_drop`
unfoldable pub convert_ro_or_drop :
    ℕ
    → Symbols
    → Env
    → Methods
    → Conversions
    → Pool
    → Option ℕ
    → ℕ
    → Option ℕ
    → Outcome (Converted × Bool)
convert_ro_or_drop rounds syms env methods cs pool dpacket spacket none =
    copied cs (copy_ro_or_drop pool dpacket spacket)
convert_ro_or_drop rounds syms env methods cs pool none spacket (some template) =
    kept (convert_ro rounds syms env methods cs pool spacket template)
convert_ro_or_drop rounds syms env methods cs pool (some held) spacket (some template) =
    ok (record { conversions = cs; pool = pool; packet = some held }, true)

-- `pdp_packet_convert_rw_or_drop`
unfoldable pub convert_rw_or_drop :
    ℕ
    → Symbols
    → Env
    → Methods
    → Conversions
    → Pool
    → Option ℕ
    → ℕ
    → Option ℕ
    → Outcome (Converted × Bool)
convert_rw_or_drop rounds syms env methods cs pool dpacket spacket none =
    copied cs (copy_rw_or_drop env pool dpacket spacket)
convert_rw_or_drop rounds syms env methods cs pool none spacket (some template) =
    kept (convert_rw rounds syms env methods cs pool spacket template)
convert_rw_or_drop rounds syms env methods cs pool (some held) spacket (some template) =
    ok (record { conversions = cs; pool = pool; packet = some held }, true)
