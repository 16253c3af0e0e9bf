-- ===== src/Net/Recv.antt =====
-- `Recv` appends what the system reads to the buffer list.
use libserverkit.Base.{
  ℕ, ◌+◌, ◌%◌, ◌^◌, ◌<◌, ◌≡◌, refl, ap, subst, sym, ◌∙◌, Bool, true, false, inl, inr, Option, some,
  List, [], ◌∷◌, ◌++◌, length, ◌==◌, if◌then◌else◌, arith, append_assoc, append-nil, length-append,
  has, Bool-cases,
}
use libserverkit.BufferList.{Pool, BufferList, size_mod, poke, write_advance}
use libserverkit.BufferList.Rep.{Rep}
use libserverkit.BufferList.Extend.{write_advance-Put}
use libserverkit.Net.{
  ReadAnswer, got, ended, read_failed, Received, recv, recv_loop, eintr, is_io_try_again, k_error,
}
use libserverkit.Net.Script.{arrived, verdict, HasRoom}

-- The end of `Recv` on the buffers of `s`, which held `xs`; before, `total` bytes were read.
pub record Ends (run : Option Received) (s : Pool) (others xs news : List ℕ) (total : ℕ)
    (failed : Bool) (e : ℕ) : Type 0 where
  pub final : Received
  pub chain : List ℕ
  pub returns : run ≡ some final
  pub err_is : final.err ≡ e
  pub result_is : final.result ≡ (if failed then k_error else (total + length news) % 2 ^ 32)
  pub rep : Rep final.pool final.buffer others chain (xs ++ news)
  pub kept : (a : ℕ) → has a others ≡ true → final.pool.cell a ≡ s.cell a

module _ (others : List ℕ) where
  stops :
      (final : Received) (ps xs : List ℕ) (total : ℕ) (bad failed : Bool) (e : ℕ)
      → Rep final.pool final.buffer others ps xs
      → final.result ≡ (if bad then k_error else total % 2 ^ 32)
      → ◌≡◌ {A = Option (Bool × ℕ)} (some (bad, final.err)) (some (failed, e))
      → Ends (some final) final.pool others xs [] total failed e
  stops final ps xs total bad failed e r h v = record {
    final = final;
    chain = ps;
    returns = refl;
    err_is = cc;
    result_is = h ∙ ground arith;
    rep = subst (Rep final.pool final.buffer others ps) (sym (append-nil xs)) r;
    kept = λ a i. refl;
  }

  gets :
      (run : Option Received) (s t : Pool) (xs bytes news : List ℕ) (total : ℕ) (failed : Bool)
      (e : ℕ)
      → ((a : ℕ) → has a others ≡ true → t.cell a ≡ s.cell a)
      → Ends run t others (xs ++ bytes) news (total + length bytes) failed e
      → Ends run s others xs (bytes ++ news) total failed e
  gets run s t xs bytes news total failed e kept d = record {
    final = d.final;
    chain = d.chain;
    returns = d.returns;
    err_is = d.err_is;
    result_is =
        d.result_is
        ∙ ap (λ k. if failed then k_error else k % 2 ^ 32)
            (omega (arith, length-append bytes news));
    rep = subst (Rep d.final.pool d.final.buffer others d.chain) (append_assoc xs bytes news) d.rep;
    kept = λ a i. d.kept a i ∙ kept a i;
  }

  recv_loop-Ends :
      (rs : List ReadAnswer) (errno total : ℕ) (s : Pool) (l : BufferList) (ps xs : List ℕ)
      (failed : Bool) (e : ℕ)
      → Rep s l others ps xs
      → HasRoom rs s l
      → length xs + length (arrived rs) < size_mod
      → verdict rs errno ≡ some (failed, e)
      → Ends (recv_loop rs errno (total % 2 ^ 32) s l) s others xs (arrived rs) total failed e
  unfolding recv_loop
  recv_loop-Ends [] errno total s l ps xs failed e r room small v = cc
  recv_loop-Ends (ended ∷ rs) errno total s l ps xs failed e r room small v =
      stops _ ps xs total true failed e r refl v
  recv_loop-Ends (read_failed n ∷ rs) errno total s l ps xs failed e r room small v =
      elim (Bool-cases (is_io_try_again n)) [
        | inl again ↦ rw again (stops _ ps xs total false failed e r refl (rw again at v))
        | inr other ↦ elim (Bool-cases (n == eintr)) [
          | inl intr ↦
              rw (other, intr)
                (recv_loop-Ends rs n total s l ps xs failed e r room (rw (other, intr) at small)
                  (rw (other, intr) at v))
          | inr bad ↦
              rw (other, bad) (stops _ ps xs total true failed e r refl (rw (other, bad) at v))
        ]
      ]
  recv_loop-Ends (got bytes ∷ rs) errno total s l ps xs failed e r room small v =
      let t = (write_advance (length bytes) (poke s l bytes) l).0 in
      let m = (write_advance (length bytes) (poke s l bytes) l).1 in
      let n = length-append bytes (arrived rs) in
      let put = write_advance-Put s l others ps xs bytes r (omega (arith, n)) room.0 in
      let goal = λ (k : ℕ).
        Ends (recv_loop rs errno k t m) t others (xs ++ bytes) (arrived rs) (total + length bytes)
          failed e in
      gets _ s t xs bytes (arrived rs) total failed e put.kept (
        subst goal (omega arith) (
          recv_loop-Ends rs errno (total + length bytes) t m put.chain (xs ++ bytes) failed e
            put.rep room.1 (omega (arith, n, length-append xs bytes)) v))

-- For a buffer list that holds `xs`, and answers of the system that fit into the buffers, are fewer
-- than 2^64 bytes with `xs`, and come to an end: `Recv` returns, having appended the bytes in the
-- order in which they came. Its result is their number modulo 2^32, or `kError` where the stream
-- failed or ended, `*err` is as the answers tell, and no buffer of another owner is changed.
pub recv_refines :
    (rs : List ReadAnswer) (errno : ℕ) (s : Pool) (l : BufferList) (others ps xs : List ℕ)
    (failed : Bool) (e : ℕ)
    → Rep s l others ps xs
    → HasRoom rs s l
    → length xs + length (arrived rs) < size_mod
    → verdict rs errno ≡ some (failed, e)
    → (r : Received) × (qs : List ℕ) × (recv rs errno s l ≡ some r)
      × (r.err ≡ e)
      × (r.result ≡ (if failed then k_error else length (arrived rs) % 2 ^ 32))
      × Rep r.pool r.buffer others qs (xs ++ arrived rs)
      × ((a : ℕ) → has a others ≡ true → r.pool.cell a ≡ s.cell a)
unfolding recv
recv_refines rs errno s l others ps xs failed e r room small v =
    let d = recv_loop-Ends others rs errno 0 s l ps xs failed e r room small v in
    (
      d.final,
      d.chain,
      d.returns,
      d.err_is,
      d.result_is ∙ ap (λ k. if failed then k_error else k % 2 ^ 32) (omega arith),
      d.rep,
      d.kept,
    )
