-- ===== src/Flip/Tests.antt =====
-- A small image flipped.
use pdp.Base.{◌≡◌, refl, arith, pos}
use pdp.Image.{Memory}
use pdp.Flip.{flip_row, flip_rows, flip_lr_process}
use pdp.Flip.Mirror.{Mirrored, flip_lr_process-Mirrored}

abbrev ramp : Memory
ramp a = pos a

first_is_last : flip_lr_process 5 2 10 ramp 10 ≡ pos 14
unfolding flip_lr_process flip_rows flip_row
first_is_last = refl

flip_lr_process-Mirrored_example : Mirrored 5 3 10 ramp (flip_lr_process 5 3 10 ramp)
flip_lr_process-Mirrored_example = flip_lr_process-Mirrored 5 3 10 ramp (omega arith)
