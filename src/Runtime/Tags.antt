-- ===== src/Runtime/Tags.antt =====
-- The tagged words of oox/oox.h: `arc_list::head`, `output_node::next_writer` and the storage
-- pointer of an argument keep marks in the low bits of a pointer.
pub mod Encoding
use oox_kirkon_fork.Base.{ℕ, ◌==◌, Bool, not, ◌&&◌, ◌||◌, Option, none, some, if◌then◌else◌}
use oox_kirkon_fork.Base.Bits.{low_bits, bit, set_bit, clear_low}

abbrev pub k_task_done_tag : ℕ
k_task_done_tag = 1

-- The tags 0x1, 0x2 and 0x4 are the bits 0, 1 and 2, and their mask is 0x7.
abbrev pub done_bit : ℕ
done_bit = 0

abbrev pub exception_done_bit : ℕ
exception_done_bit = 1

abbrev pub deferred_redirect_bit : ℕ
deferred_redirect_bit = 2

abbrev pub tag_bits : ℕ
tag_bits = 3

unfoldable pub is_live_arc : ℕ → Bool
is_live_arc a = not (a == 0) && (low_bits a tag_bits == 0)

unfoldable pub is_terminal_exception_arc : ℕ → Bool
is_terminal_exception_arc a = bit a exception_done_bit

unfoldable pub is_done_arc_head : ℕ → Bool
is_done_arc_head a = (a == k_task_done_tag) || bit a exception_done_bit

unfoldable pub is_arc_list_tagged : ℕ → Bool
is_arc_list_tagged p = not (low_bits p tag_bits == 0)

unfoldable pub is_deferred_redirect : ℕ → Bool
is_deferred_redirect h = bit h deferred_redirect_bit

unfoldable pub terminal_exception_arc : ℕ → ℕ
terminal_exception_arc a = clear_low a tag_bits

-- `none` where the assertion fails.
unfoldable pub tagged_terminal_exception_arc : ℕ → Option ℕ
tagged_terminal_exception_arc a =
    if low_bits a tag_bits == 0 then some (set_bit a exception_done_bit) else none

unfoldable pub encode_deferred_redirect_arc : ℕ → Option ℕ
encode_deferred_redirect_arc p =
    if low_bits p tag_bits == 0 then some (set_bit p deferred_redirect_bit) else none

unfoldable pub decode_deferred_redirect_arc : ℕ → Option ℕ
decode_deferred_redirect_arc p =
    if bit p deferred_redirect_bit then some (clear_low p tag_bits) else none

-- Words of `next_writer`: `k_next_writer_ready_tag` is bit 0.
abbrev pub next_writer_ready_marker : ℕ
next_writer_ready_marker = 1

abbrev pub next_writer_no_owner_marker : ℕ
next_writer_no_owner_marker = 3

unfoldable pub is_tagged_next_writer : ℕ → Bool
is_tagged_next_writer p = bit p 0

unfoldable pub is_next_writer_ready_marker : ℕ → Bool
is_next_writer_ready_marker p = p == next_writer_ready_marker

unfoldable pub is_next_writer_no_owner_marker : ℕ → Bool
is_next_writer_no_owner_marker p = p == next_writer_no_owner_marker

unfoldable pub encode_next_writer_owner : ℕ → Option ℕ
encode_next_writer_owner p = if bit p 0 then none else some (set_bit p 0)

unfoldable pub decode_next_writer_owner : ℕ → ℕ
decode_next_writer_owner p = clear_low p 1

-- Words of `my_ptr`: `k_forwarded_storage_ptr_tag` is bit 0.
unfoldable pub encode_forwarded_storage_ptr : ℕ → Option ℕ
encode_forwarded_storage_ptr p = if bit p 0 then none else some (set_bit p 0)

unfoldable pub is_forwarded_storage_ptr : ℕ → Bool
is_forwarded_storage_ptr p = bit p 0

unfoldable pub decode_forwarded_storage_ptr : ℕ → ℕ
decode_forwarded_storage_ptr p = clear_low p 1
