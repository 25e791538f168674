-- ===== src/Picture/Dispatch.antt =====
-- The dispatchers of system/image/pdp_imageproc_common.c, which run a kernel over the planes of a picture.
-- What the kernel's object holds is part of the kernel here.
use pdp.Base.{
  ℕ, zero, suc, ◌+◌, ◌-◌, ◌/◌, ◌%◌, ◌^◌, Bool, true, false, ◌==◌, if◌then◌else◌, Option, none, some,
  Outcome, ok, fault,
}
use pdp.Image.{Memory, pixel_count}
use pdp.Image.Biquad.{has_bit}
use pdp.Picture.{Picture, yv12, grey, mchp, image_isvalid, image_compat}

-- A kernel on `width`, `height` and the address of a plane.
abbrev pub Kernel : Type 0
Kernel = ℕ → ℕ → ℕ → Memory → Memory

abbrev pub run_if : Bool → (Memory → Memory) → Memory → Memory
run_if true f memory = f memory
run_if false f memory = memory

-- `while (d--)` with the mask `1 << bit`, which is 0 from the bit 32 on.
unfoldable pub mchp_loop : Kernel → ℕ → ℕ → ℕ → ℕ → ℕ → ℕ → Memory → Memory
mchp_loop kernel chanmask w h zero bit p memory = memory
mchp_loop kernel chanmask w h (suc d) bit p memory =
    mchp_loop kernel chanmask w h d (suc bit) (p + pixel_count w h)
      (run_if (has_bit bit (chanmask % 2 ^ 32)) (kernel w h p) memory)

-- The three planes of a YV12 picture.
unfoldable pub yv12_planes : Kernel → ℕ → ℕ → ℕ → ℕ → Memory → Memory
yv12_planes kernel chanmask w h p memory =
    let v = p + pixel_count w h in
    let u = v + pixel_count w h / 4 in
    run_if (has_bit 2 chanmask) (kernel (w / 2) (h / 2) u) (
      run_if (has_bit 1 chanmask) (kernel (w / 2) (h / 2) v)
        (run_if (has_bit 0 chanmask) (kernel w h p) memory))

-- The switch on the encoding.
unfoldable pub dispatch_planes : Kernel → ℕ → Picture → Memory → Memory
dispatch_planes kernel chanmask x memory =
    if x.encoding == grey
    then run_if (has_bit 0 chanmask) (kernel x.width x.height x.pixels) memory
    else if x.encoding == yv12
    then yv12_planes kernel chanmask x.width x.height x.pixels memory
    else if x.encoding == mchp
    then mchp_loop kernel chanmask x.width x.height x.depth 0 x.pixels memory
    else memory

-- The mask of the packet, if it has one, replaces the one of the call.
abbrev pub chosen_mask : ℕ → Picture → ℕ
chosen_mask chanmask x = if x.chanmask == 0 then chanmask else x.chanmask

-- `pdp_imageproc_dispatch_1buf`
unfoldable pub dispatch_1buf : Kernel → ℕ → Option Picture → Memory → Option Picture × Memory
dispatch_1buf kernel chanmask none memory = (none, memory)
dispatch_1buf kernel chanmask (some x) memory =
    if image_isvalid (some x)
    then (
      some (record x { chanmask = 0 }),
      dispatch_planes kernel (chosen_mask chanmask x) x memory,
    )
    else (some x, memory)

-- `pdp_imageproc_dispatch_2buf`: a plane of the second picture stands as far behind its data as that of the
-- first one does.
unfoldable pub dispatch_2buf :
    (ℕ → ℕ → ℕ → ℕ → Memory → Memory)
    → ℕ
    → Option Picture
    → Option Picture
    → Memory
    → Option Picture × Memory
dispatch_2buf kernel chanmask (some x) (some y) memory =
    if image_compat (some x) (some y)
    then (
      some (record x { chanmask = 0 }),
      dispatch_planes (λ w h p. kernel w h p (y.pixels + (p - x.pixels))) (chosen_mask chanmask x) x
          memory,
    )
    else (some x, memory)
dispatch_2buf kernel chanmask x y memory = (x, memory)

-- `pdp_imageproc_dispatch_3buf`, which compares the first two pictures only; the data of
-- a third one that is not there is dereferenced.
unfoldable pub dispatch_3buf :
    (ℕ → ℕ → ℕ → ℕ → ℕ → Memory → Memory)
    → ℕ
    → Option Picture
    → Option Picture
    → Option Picture
    → Memory
    → Outcome (Option Picture × Memory)
dispatch_3buf kernel chanmask (some x) (some y) z memory =
    if image_compat (some x) (some y)
    then elim z [
      | none ↦ fault
      | some t ↦ ok (
        some (record x { chanmask = 0 }),
        dispatch_planes
            (λ w h p. kernel w h p (y.pixels + (p - x.pixels)) (t.pixels + (p - x.pixels)))
            (chosen_mask chanmask x) x memory,
      )
    ]
    else ok (some x, memory)
dispatch_3buf kernel chanmask x y z memory = ok (x, memory)
