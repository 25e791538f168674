-- ===== src/Plasma/Tests.antt =====
-- A small plasma.
use pdp.Base.{ℕ, ◌+◌, ◌*◌, ◌%◌, pos}
use pdp.Image.{Memory}

abbrev blank : Memory
blank a = pos 0

abbrev drawn : ℕ → ℕ
drawn n = (n * 7919 + 13) % 32768
