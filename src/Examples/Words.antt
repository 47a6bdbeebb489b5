-- ===== src/Examples/Words.antt =====
-- The theorems on the tagged words of oox/oox.h at concrete addresses.
use oox_kirkon_fork.Base.{ℕ, ◌+◌, ◌*◌, ◌%◌, ◌≡◌, refl, ◌≢◌, true, false, some, arith}
use oox_kirkon_fork.Runtime.Node.{terminal_exception, owner}
use oox_kirkon_fork.Runtime.Tags.{
  tagged_terminal_exception_arc, terminal_exception_arc, encode_deferred_redirect_arc,
  decode_deferred_redirect_arc, encode_next_writer_owner, decode_next_writer_owner,
  encode_forwarded_storage_ptr, is_forwarded_storage_ptr, decode_forwarded_storage_ptr,
}
use oox_kirkon_fork.Runtime.Tags.Encoding.{
  head_word, HeadTests, next_writer_word, WriterTests, tagged_words,
}

-- Task `t` lies at the address 8 + 8 t.
abbrev address : ℕ → ℕ
address t = 8 + 8 * t

address-aligned : (t : ℕ) → (address t % 8 ≡ 0) × (address t ≢ 0)
address-aligned t = (omega arith, λ e. omega arith)

tagged_words_example :
    ((w v : ℕ) × (tagged_terminal_exception_arc 64 ≡ some w)
      × (terminal_exception_arc w ≡ 64)
      × (encode_deferred_redirect_arc 64 ≡ some v)
      × (decode_deferred_redirect_arc v ≡ some 64))
    × ((w : ℕ) × (encode_next_writer_owner 48 ≡ some w)
        × (decode_next_writer_owner w ≡ 48)
        × (encode_forwarded_storage_ptr 48 ≡ some w)
        × (decode_forwarded_storage_ptr w ≡ 48)
        × (is_forwarded_storage_ptr w ≡ true)
        × (is_forwarded_storage_ptr 48 ≡ false))
    × HeadTests (head_word 64 (terminal_exception 3)) (terminal_exception 3)
    × WriterTests (next_writer_word address (owner 5)) (owner 5)
tagged_words_example =
    tagged_words 64 48 64 (terminal_exception 3) address (owner 5) refl refl refl (omega arith)
      address-aligned
