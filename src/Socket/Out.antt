-- ===== src/Socket/Out.antt =====
-- The loop of `Out`, by what a call of `Send` gave.
use libserverkit.Base.{ℕ, suc, ◌≡◌, refl, true, false, some, List, [], ◌++◌, ◌==◌, arith}
use libserverkit.BufferList.{Pool, is_empty}
use libserverkit.Net.{WriteAnswer, Sent, send_buffer, k_ok, is_io_try_again}
use libserverkit.Socket.{Socket, on_error, out_run, out_loop, tell, close}

-- A round in which the system takes no more for now.
pub out_loop-blocked :
    (fuel : ℕ) (rs : List WriteAnswer) (errno n : ℕ) (bytes : List ℕ) (s : Pool) (k : Socket)
    (r : Sent)
    → is_empty k.write_list ≡ false
    → send_buffer rs errno s k.write_list ≡ some r
    → is_io_try_again r.err ≡ true
    → out_loop (suc fuel) rs errno n bytes s k
      ≡ some
          (out_run r.pool (record k { write_list = r.buffer }) [] false r.result (bytes ++ r.bytes))
unfolding out_loop
out_loop-blocked fuel rs errno n bytes s k r e h again =
    let ok : (r.err == k_ok) ≡ false = ground arith in rw (e, h, out_loop, ok, again) refl

-- A round in which the connection fails.
pub out_loop-fatal :
    (fuel : ℕ) (rs : List WriteAnswer) (errno n : ℕ) (bytes : List ℕ) (s : Pool) (k : Socket)
    (r : Sent)
    → is_empty k.write_list ≡ false
    → send_buffer rs errno s k.write_list ≡ some r
    → (r.err == k_ok) ≡ false
    → is_io_try_again r.err ≡ false
    → out_loop (suc fuel) rs errno n bytes s k
      ≡ some (
          out_run r.pool
            (record k { write_list = r.buffer })
            (tell k (on_error r.err) ++ close k)
            true
            r.result
            (bytes ++ r.bytes))
unfolding out_loop
out_loop-fatal fuel rs errno n bytes s k r e h ok other = rw (e, h, out_loop, ok, other) refl

-- A round after which all is sent, and the round that finds the list empty.
pub out_loop-ok :
    (fuel : ℕ) (rs : List WriteAnswer) (errno n : ℕ) (bytes : List ℕ) (s : Pool) (k : Socket)
    (r : Sent)
    → is_empty k.write_list ≡ false
    → send_buffer rs errno s k.write_list ≡ some r
    → r.err ≡ k_ok
    → is_empty r.buffer ≡ true
    → out_loop (suc (suc fuel)) rs errno n bytes s k
      ≡ some (
          out_run r.pool
            (record k { write_list = r.buffer; is_writable = false })
            []
            false
            r.result
            (bytes ++ r.bytes))
unfolding out_loop
out_loop-ok fuel rs errno n bytes s k r e h ok empty = rw (e, h, out_loop, ok, empty) refl

pub out_loop-empty :
    (fuel : ℕ) (rs : List WriteAnswer) (errno n : ℕ) (bytes : List ℕ) (s : Pool) (k : Socket)
    → is_empty k.write_list ≡ true
    → out_loop (suc fuel) rs errno n bytes s k
      ≡ some (out_run s (record k { is_writable = false }) [] false n bytes)
unfolding out_loop
out_loop-empty fuel rs errno n bytes s k e = rw e refl
