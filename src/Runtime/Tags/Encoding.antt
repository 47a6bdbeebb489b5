-- ===== src/Runtime/Tags/Encoding.antt =====
-- The tagged words of oox/oox.h stand for the constructors of `Head` and `NextWriter`: each test
-- of a word is the test of the constructor, and each decoding gives the pointer back.
use oox_kirkon_fork.Base.{ℕ, ◌+◌, ◌%◌, ◌≡◌, ◌≢◌, true, false, [], ◌∷◌, some, arith}
use oox_kirkon_fork.Base.Bits.{set_bit}
use oox_kirkon_fork.Runtime.Node.{
  Head, live, task_done, terminal_exception, deferred_redirect, NextWriter, unknown, ready,
  no_owner, owner, writer, head_is_live, head_is_tagged, head_is_terminal, head_is_done,
  head_is_redirect, writer_is_tagged, writer_is_ready, writer_is_no_owner,
}
use oox_kirkon_fork.Runtime.Tags.{
  k_task_done_tag, is_live_arc, is_terminal_exception_arc, is_done_arc_head, is_arc_list_tagged,
  is_deferred_redirect, terminal_exception_arc, tagged_terminal_exception_arc,
  encode_deferred_redirect_arc, decode_deferred_redirect_arc, next_writer_ready_marker,
  next_writer_no_owner_marker, is_tagged_next_writer, is_next_writer_ready_marker,
  is_next_writer_no_owner_marker, encode_next_writer_owner, decode_next_writer_owner,
  encode_forwarded_storage_ptr, is_forwarded_storage_ptr, decode_forwarded_storage_ptr,
  exception_done_bit, deferred_redirect_bit,
}

-- The word of a head whose arc lies at `p`: the first arc, the terminal arc or the forwarding arc.
abbrev pub head_word : ℕ → Head → ℕ
head_word p (live []) = 0
head_word p (live (a ∷ rest)) = p
head_word p task_done = k_task_done_tag
head_word p (terminal_exception c) = set_bit p exception_done_bit
head_word p (deferred_redirect n q) = set_bit p deferred_redirect_bit

pub record HeadTests (w : ℕ) (h : Head) : Type 0 where
  pub is_live : is_live_arc w ≡ head_is_live h
  pub is_tagged : is_arc_list_tagged w ≡ head_is_tagged h
  pub is_terminal : is_terminal_exception_arc w ≡ head_is_terminal h
  pub is_done : is_done_arc_head w ≡ head_is_done h
  pub is_redirect : is_deferred_redirect w ≡ head_is_redirect h

-- For an arc at an address that is a multiple of 8 and not null, the five tests of the word of a
-- head give what the head is: live, tagged, terminal, done or redirected.
head_word-tests : (p : ℕ) (h : Head) → p % 8 ≡ 0 → p ≢ 0 → HeadTests (head_word p h) h
unfolding is_live_arc is_terminal_exception_arc is_done_arc_head is_arc_list_tagged
    is_deferred_redirect
head_word-tests p (live []) al nz = ground arith
head_word-tests p (live (a ∷ rest)) al nz = ground arith
head_word-tests p task_done al nz = ground arith
head_word-tests p (terminal_exception c) al nz = ground arith
head_word-tests p (deferred_redirect n q) al nz = ground arith

-- The word of `next_writer`, for tasks at the addresses `at`.
abbrev pub next_writer_word : (ℕ → ℕ) → NextWriter → ℕ
next_writer_word at unknown = 0
next_writer_word at ready = next_writer_ready_marker
next_writer_word at no_owner = next_writer_no_owner_marker
next_writer_word at (owner t) = set_bit (at t) 0
next_writer_word at (writer t) = at t

pub record WriterTests (w : ℕ) (n : NextWriter) : Type 0 where
  pub is_tagged : is_tagged_next_writer w ≡ writer_is_tagged n
  pub is_ready : is_next_writer_ready_marker w ≡ writer_is_ready n
  pub is_no_owner : is_next_writer_no_owner_marker w ≡ writer_is_no_owner n

-- For tasks at addresses that are multiples of 8 and not null, the three tests of the word of a
-- next writer give whether it is tagged, the ready marker and the marker without an owner.
next_writer_word-tests :
    (at : ℕ → ℕ) (n : NextWriter)
    → ((t : ℕ) → (at t % 8 ≡ 0) × (at t ≢ 0))
    → WriterTests (next_writer_word at n) n
unfolding is_tagged_next_writer is_next_writer_ready_marker is_next_writer_no_owner_marker
next_writer_word-tests at unknown al = ground arith
next_writer_word-tests at ready al = ground arith
next_writer_word-tests at no_owner al = ground arith
next_writer_word-tests at (owner t) al = ground (arith, al t)
next_writer_word-tests at (writer t) al = ground (arith, al t)

-- Tagging the address of an aligned arc passes the assertion, and untagging gives the address back,
-- for the terminal arc of an exception and for the descriptor of a deferred redirect.
tagged_arc_round_trip :
    (p : ℕ)
    → p % 8 ≡ 0
    → (w v : ℕ) × (tagged_terminal_exception_arc p ≡ some w)
      × (terminal_exception_arc w ≡ p)
      × (encode_deferred_redirect_arc p ≡ some v)
      × (decode_deferred_redirect_arc v ≡ some p)
unfolding tagged_terminal_exception_arc terminal_exception_arc encode_deferred_redirect_arc
    decode_deferred_redirect_arc
tagged_arc_round_trip p al = (p + 2, p + 4, ground arith, ground arith, ground arith, ground arith)

-- An owner's address, if it is even, passes the assertion of its encoding and is decoded again;
-- so is a pointer to forwarded storage, whose encoding also passes the test for it, which the
-- plain pointer does not.
owner_round_trip :
    (p : ℕ)
    → p % 2 ≡ 0
    → (w : ℕ) × (encode_next_writer_owner p ≡ some w)
      × (decode_next_writer_owner w ≡ p)
      × (encode_forwarded_storage_ptr p ≡ some w)
      × (decode_forwarded_storage_ptr w ≡ p)
      × (is_forwarded_storage_ptr w ≡ true)
      × (is_forwarded_storage_ptr p ≡ false)
unfolding encode_next_writer_owner decode_next_writer_owner encode_forwarded_storage_ptr
    decode_forwarded_storage_ptr is_forwarded_storage_ptr
owner_round_trip p even =
    (p + 1, ground arith, ground arith, ground arith, ground arith, ground arith, ground arith)

-- Tagging the address of an arc that is a multiple of 8 passes the assertion, and untagging gives the
-- address back, for the terminal arc of an exception and for the descriptor of a deferred redirect. An
-- even address of an owner passes the assertion of its encoding and is decoded again; so is a pointer
-- to forwarded storage, whose encoding also passes the test for it, which the plain pointer does not.
-- For addresses that are multiples of 8 and not null, the five tests of the word of a head give what
-- the head is (live, tagged, terminal, done or redirected), and the three tests of the word of a next
-- writer whether it is tagged, the ready marker and the marker without an owner.
pub tagged_words :
    (i p q : ℕ) (h : Head) (at : ℕ → ℕ) (n : NextWriter)
    → i % 8 ≡ 0
    → p % 2 ≡ 0
    → q % 8 ≡ 0
    → q ≢ 0
    → ((t : ℕ) → (at t % 8 ≡ 0) × (at t ≢ 0))
    → ((w v : ℕ) × (tagged_terminal_exception_arc i ≡ some w)
        × (terminal_exception_arc w ≡ i)
        × (encode_deferred_redirect_arc i ≡ some v)
        × (decode_deferred_redirect_arc v ≡ some i))
      × ((w : ℕ) × (encode_next_writer_owner p ≡ some w)
          × (decode_next_writer_owner w ≡ p)
          × (encode_forwarded_storage_ptr p ≡ some w)
          × (decode_forwarded_storage_ptr w ≡ p)
          × (is_forwarded_storage_ptr w ≡ true)
          × (is_forwarded_storage_ptr p ≡ false))
      × HeadTests (head_word q h) h
      × WriterTests (next_writer_word at n) n
tagged_words i p q h at n aligned even al nz al' = (
  tagged_arc_round_trip i aligned,
  owner_round_trip p even,
  head_word-tests q h al nz,
  next_writer_word-tests at n al',
)
