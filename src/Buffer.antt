-- ===== src/Buffer.antt =====
-- base/buffer.h, class `Buffer`: a block of bytes with a fill point and a link. `cur_` is kept as
-- an offset into `data_`, and an array that a caller hands over is a list of bytes.
pub mod Laws
use libserverkit.Base.{ℕ, ◌+◌, ◌-◌, List, Bytes, memset, memcpy, ltb, if◌then◌else◌, length}
use libserverkit.ObjectPool.{null}

abbrev pub buffer_size : ℕ
buffer_size = 4096

pub record Buffer : Type 0 where
  pub bytes : Bytes
  pub cur : ℕ
  pub next : ℕ

-- `Reset` leaves `next_` as it was. The byte 48 is the character '0'.
unfoldable pub reset : Buffer → Buffer
reset b = record b { bytes = memset b.bytes b'0' buffer_size; cur = 0 }

-- `Buffer()` on the raw memory `raw`.
unfoldable pub new_buffer : Bytes → Buffer
unfolding reset
new_buffer raw = reset (record { bytes = raw; cur = 0; next = null })

unfoldable pub buffer_length : Buffer → ℕ
buffer_length b = b.cur

unfoldable pub available : Buffer → ℕ
available b = buffer_size - b.cur

-- `AppendData`, and with it `AppendString`: what does not fit is dropped.
unfoldable pub append_data : Buffer → List ℕ → Buffer
unfolding available
append_data b src =
    if ltb (length src) (available b)
    then record b { bytes = memcpy b.bytes b.cur src; cur = b.cur + length src }
    else b
