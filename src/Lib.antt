-- ===== src/Lib.antt =====
-- A verification development for the core of pdp, a packet processing library and its extensions
-- for Pure Data: how packets are created, shared and reused, how their types are matched and
-- converted, how they are sent over a network, and how work goes to the processing thread.
--
-- The parts and the files that model them:
--
-- - Base: the names that the other files share, tests on numbers, lists over native numbers, masks
--   and 32-bit words, and `Outcome`, the result of code that may fail an assertion or leave its
--   memory.
-- - LinkedList models the flat lists of system/kernel/pdp_list.c: LinkedList.Operations has the
--   functions, named without `pdp_list_`, over a heap of atoms at addresses. LinkedList.Segment
--   says what it means that a header stands for a list of cells; LinkedList.Ends,
--   LinkedList.Splice and LinkedList.Search have the proofs. Other parts take lists as values.
-- - Mem models the atom allocator of system/kernel/pdp_mem.c: `new_atom` is
--   `pdp_fastalloc_new_atom`, `save_atom` is `pdp_fastalloc_save_atom`. Mem.Fresh has its calls as
--   a step relation and the proofs.
-- - Tree models the trees of system/kernel/pdp_list.c as values. Tree.Parser has `tree_from`,
--   which is `pdp_tree_from_cstring`, Tree.Printer `print_tree`, which is `_pdp_atomlist_fprint`,
--   and Tree.Syntax `check_syntax`, which is `pdp_tree_check_syntax`. The proofs are in Tree.Text,
--   Tree.RoundTrip and Tree.Rounds.
-- - Image models system/image/pdp_imageproc_portable.c, over a memory of 16-bit pixels.
--   Image.Kernels has the kernels that treat each pixel alone, Image.Filters the convolution,
--   Image.Biquad the filters and Image.Resample the resampling; their functions have the source's
--   names without `pdp_imageproc_`. Image.Planes models system/image/pdp_llconv_portable.c,
--   pictures of bytes and their images. Image.Pixels and Image.Exact have the lemmas on the pixel
--   loop and on 32-bit words, Image.Results, Image.Convolve, Image.Recursion, Image.Inside,
--   Image.Affine and Image.Planes.RoundTrip the proofs.
-- - Resize models system/image/pdp_resample.c: doubling and halving, and in Resize.Scale the
--   scaling to any size. Resize.Double, Resize.Halve and Resize.Steps have the proofs.
-- - Packed models the kernels of system/image/pdp_imageproc_common.c that treat two pixels in one
--   word; Packed.Words has the lemmas on the bits, Packed.Pixels the proofs. Flip models the
--   mirror image of that file, with the proofs in Flip.Mirror, and Plasma its plasma, with the
--   proofs in Plasma.Ends.
-- - Picture models the image packets of system/type/pdp_image.c, their sizes, checks and
--   constructors. Picture.Dispatch has the dispatchers of system/image/pdp_imageproc_common.c,
--   which run a kernel over the planes of a picture, Picture.Convert the conversions between the
--   encodings, Picture.Resample those to another size and Picture.Describe the text of a
--   description and Picture.Factory the factory that reads it, with their proofs, and
--   Picture.Planes and Picture.RoundTrip the other proofs.
-- - Symbol models system/kernel/pdp_symbol.c: `dogensym` is `_pdp_dogensym`, `gensym` is
--   `pdp_gensym`, `symbol_setup` is `pdp_symbol_setup`. The table is a function from a hash to a
--   chain of entries. Symbol.Intern has the proofs.
-- - Packet models system/kernel/pdp_packet.c: the pool is a list of slots with a reuse fifo for
--   each symbol. Packet.Factory has the functions that create and revive packets (`create`, `new`,
--   `save`, `reuse`, `newpacket`), Packet.Handle those that users call (`copy_ro`, `clone_rw`,
--   `copy_rw`, `mark_unused`, `delete`, `replace_with_writable`). The proofs are in Packet.Slots,
--   Packet.Live, Packet.Revive, Packet.Reuse and Packet.Share.
-- - Comm models puredata/pdp_comm.c: how a sender offers a packet to receivers in two phases, in
--   which they take a reference or drop it and may do more of their own, and lets its own go, with
--   the count of drops of puredata/pdp_control.c; Comm.Converting has the variants that convert
--   first, Comm.Passing the proofs.
-- - Convert models system/kernel/pdp_type.c: descriptions, their match, the two lists of
--   conversions and `packet_convert`, which is `_pdp_packet_convert`. It uses the packet pool, and
--   a symbol table by the record `Symbols`. The proofs are in Convert.Match and Convert.Cache.
-- - Net models system/net/pdp_net.c. Net.Receiver is the receiving end (`receive` is
--   `pdp_udp_receiver_receive`), Net.Sender the sending end (`send` is `pdp_udp_sender_send`).
--   Net.Copy, Net.Transfer, Net.Delivery and Net.Session follow a transmission through the
--   receiver, Net.Complete the one that loses nothing; Net.Resend is about the request for missing
--   chunks; Net.Chunks and Net.Send are about what the sender emits, Net.RoundTrip joins both
--   ends, and Net.Silence is about a receiver that does not answer.
-- - Queue models puredata/pdp_queue.c: the ring of tasks with its three indices. Queue.Index and
--   Queue.Repr relate the ring to three lists of tasks, Queue.Ops has the operations,
--   Queue.Threads the interleavings of the two threads as a step relation, Queue.Live the runs of
--   the threads alone, Queue.Sync the loops of the main thread.
--
-- Numbers are natural numbers, and pixels and their sums are integers of Base.Int; where the
-- source has 16-bit or 32-bit words the wrap-around is written out. The packet handle -1 is `none`
-- as a result. A null pointer that is dereferenced, a failed assertion, a write past the end of a
-- block, a size that leaves an `int` and a division by 0 give `fault`; the plasma gives no result
-- for an image whose pixels an `int` does not count.
--
-- Loops that the source does not bound run on fuel. `create_loop` gets two turns, since a pool
-- that has doubled has an empty slot; `reuse_loop` as many as the fifo has packets, since each
-- turn takes one out; the callback loop of the queue as many as the ring has slots. `tree_from`
-- gets two calls for each character of the text and two more, and `skip_loop` a turn for each
-- character and one more. `for_rows` gets a turn for each pixel of the image, and a row has at
-- least one. `flip_row` gets a turn for each column, and each turn takes two of them;
-- `plasma_subdiv` a level for each row and each column, since a part is smaller than the whole.
-- The retry loops of the sender have the source's own bounds. `convert_loop` has a bound that its
-- caller gives, since the source's loop has none.
--
-- What comes from outside is a parameter: the methods of packet classes and conversions (they
-- stand in other files or modules), the allocator, what receivers do in the phases after the
-- first, the replies and inputs of a socket, random numbers, and `sprintf` and `sscanf` of
-- numbers. Locks are not modelled outside the queue: each operation of the pool, the symbol table
-- and the conversion lists is taken as one step. A packet method acts on its own packet only.
--
-- Not modelled: floating point, the matrix and bitmap types, the conversions to packed colour
-- formats, the kernels in assembly, the other glue to Pure Data, the modules, the OpenGL
-- extension, and the Scaf compiler.
pub mod Base
pub mod Mem
pub mod LinkedList
pub mod Tree
pub mod Symbol
pub mod Packet
pub mod Comm
pub mod Convert
pub mod Image
pub mod Resize
pub mod Packed
pub mod Flip
pub mod Plasma
pub mod Picture
pub mod Net
pub mod Queue
