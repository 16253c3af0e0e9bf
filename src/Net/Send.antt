-- ===== src/Net/Send.antt =====
-- `Send` (base/net.cc) on a buffer list whose bytes stand in one buffer.
use libserverkit.Base.{
  ℕ, ◌+◌, ◌-◌, ◌%◌, ◌^◌, ◌≡◌, refl, ap, subst, sym, ◌∙◌, Bool, true, false, inl, inr, Option, some,
  List, [], ◌∷◌, ◌++◌, length, ◌==◌, arith, append_assoc, append-nil, length-append, has,
  Bool-cases, length-slice, eq_of_==, eq-nil_of_length, not, ◌||◌,
}
use libserverkit.BufferList.{Pool, BufferList, peek, read_advance, readable_size}
use libserverkit.BufferList.Rep.{Rep, readable_size-length}
use libserverkit.BufferList.Advance.{read_advance-Took}
use libserverkit.Net.{
  WriteAnswer, took, took_none, write_failed, Sent, sent_with, send_buffer, send_loop, eintr,
  is_io_try_again, k_error, k_ok,
}
use libserverkit.Net.Script.{InBlock, IsFair}

-- How `Send` ends with `left` still to be sent, after `count` bytes: all is sent, the system takes no
-- more for now, or the connection failed or closed; with a system that is `Fair` the error is then one
-- that does not say "try again".
pub data Ending (Fair : Type 0) (final : Sent) (left : List ℕ) (count : ℕ) : Type 0 where
  drained :
      left ≡ [] → final.err ≡ k_ok → final.result ≡ count % 2 ^ 32 → Ending Fair final left count
  blocked :
      is_io_try_again final.err ≡ true
      → final.result ≡ count % 2 ^ 32
      → Ending Fair final left count
  broken :
      final.result ≡ k_error
      → (Fair → ((final.err == k_ok) ≡ false) × (is_io_try_again final.err ≡ false))
      → Ending Fair final left count

-- With `n` bytes to send, the answers suffice for `Send` to return.
abbrev pub settles : List WriteAnswer → ℕ → Bool
settles [] n = n == 0
settles (took k ∷ rs) n = (n == 0) || settles rs (n - k)
settles (write_failed e ∷ rs) n = (n == 0) || (not (e == eintr) || settles rs n)
settles (took_none ∷ rs) n = true

-- The end of `Send` on the buffers of `s`, which held `xs`; `before` was sent before.
pub record Sends (Fair : Type 0) (run : Option Sent) (s : Pool) (others xs before : List ℕ)
    (total : ℕ) : Type 0 where
  pub final : Sent
  pub chain : List ℕ
  pub news : List ℕ
  pub left : List ℕ
  pub returns : run ≡ some final
  pub bytes_are : final.bytes ≡ before ++ news
  pub split : xs ≡ news ++ left
  pub rep : Rep final.pool final.buffer others chain left
  pub ending : Ending Fair final left (total + length news)
  pub kept : (a : ℕ) → has a others ≡ true → final.pool.cell a ≡ s.cell a

length-peek : (s : Pool) (l : BufferList) (n : ℕ) → length (peek s l n) ≡ n
unfolding peek
length-peek s l n = length-slice (s.cell l.read).bytes l.read_inx n

Ending-weaken :
    (F G : Type 0) (final : Sent) (left : List ℕ) (count : ℕ)
    → (F → G)
    → Ending G final left count
    → Ending F final left count
Ending-weaken F G final left count f (drained a b c) = drained a b c
Ending-weaken F G final left count f (blocked a b) = blocked a b
Ending-weaken F G final left count f (broken a b) = broken a (λ x. b (f x))

module _ (others : List ℕ) (Fair : Type 0) where
  stops :
      (result err errno : ℕ) (s : Pool) (l : BufferList) (ps xs before : List ℕ)
      (rest : List WriteAnswer) (total : ℕ)
      → Rep s l others ps xs
      → Ending Fair (sent_with result err errno s l before rest) xs total
      → Sends Fair (some (sent_with result err errno s l before rest)) s others xs before total
  stops result err errno s l ps xs before rest total r h = record {
    final = sent_with result err errno s l before rest;
    chain = ps;
    news = [];
    left = xs;
    returns = refl;
    bytes_are = sym (append-nil before);
    split = refl;
    rep = r;
    ending = subst (Ending Fair (sent_with result err errno s l before rest) xs) (omega arith) h;
    kept = λ a i. refl;
  }

  -- With nothing left to send the loop ends.
  empty :
      (errno : ℕ) (s : Pool) (l : BufferList) (ps xs before : List ℕ) (rest : List WriteAnswer)
      (total : ℕ)
      → Rep s l others ps xs
      → (readable_size l == 0) ≡ true
      → Sends Fair
          (some (sent_with (total % 2 ^ 32) k_ok errno s l before rest))
          s
          others
          xs
          before
          total
  empty errno s l ps xs before rest total r h = stops _ _ errno s l ps xs before rest total r (
      drained
        (eq-nil_of_length xs
          (sym (readable_size-length s l others ps xs r) ∙ eq_of_== (readable_size l) 0 h))
        refl refl)

  takes :
      (run : Option Sent) (s t : Pool) (block xs before : List ℕ) (total n : ℕ) (rest : List ℕ)
      → xs ≡ block ++ rest
      → length block ≡ n
      → ((a : ℕ) → has a others ≡ true → t.cell a ≡ s.cell a)
      → Sends Fair run t others rest (before ++ block) (total + n)
      → Sends Fair run s others xs before total
  takes run s t block xs before total n rest split size kept d = record {
    final = d.final;
    chain = d.chain;
    news = block ++ d.news;
    left = d.left;
    returns = d.returns;
    bytes_are = d.bytes_are ∙ append_assoc before block d.news;
    split = split ∙ ap (λ ys. block ++ ys) d.split ∙ sym (append_assoc block d.news d.left);
    rep = d.rep;
    ending =
        subst (Ending Fair d.final d.left) (omega (arith, length-append block d.news, size))
          d.ending;
    kept = λ a i. d.kept a i ∙ kept a i;
  }

-- After an interrupt, what is fair of the call is fair of the calls that follow.
Sends-weaken :
    (F G : Type 0) (run : Option Sent) (s : Pool) (others xs before : List ℕ) (total : ℕ)
    → (F → G)
    → Sends G run s others xs before total
    → Sends F run s others xs before total
Sends-weaken F G run s others xs before total f d = record {
  final = d.final;
  chain = d.chain;
  news = d.news;
  left = d.left;
  returns = d.returns;
  bytes_are = d.bytes_are;
  split = d.split;
  rep = d.rep;
  ending = Ending-weaken F G d.final d.left (total + length d.news) f d.ending;
  kept = d.kept;
}

module _ (others : List ℕ) where
  some_left :
      (s : Pool) (l : BufferList) (ps xs : List ℕ)
      → Rep s l others ps xs
      → (readable_size l == 0) ≡ false
      → (length xs == 0) ≡ false
  some_left s l ps xs r e = ap (λ k. k == 0) (sym (readable_size-length s l others ps xs r)) ∙ e

  -- After a part was taken, the answers suffice for the rest.
  settles_rest :
      (rs : List WriteAnswer) (n : ℕ) (xs block left : List ℕ)
      → xs ≡ block ++ left
      → length block ≡ n
      → settles rs (length xs - n) ≡ true
      → settles rs (length left) ≡ true
  settles_rest rs n xs block left e size h =
      ap (settles rs) (omega (arith, ap length e, length-append block left, size)) ∙ h

  send_loop-Sends :
      (rs : List WriteAnswer) (errno total : ℕ) (s : Pool) (l : BufferList) (ps xs before : List ℕ)
      → Rep s l others ps xs
      → InBlock rs s l
      → settles rs (length xs) ≡ true
      → Sends (IsFair rs) (send_loop rs errno (total % 2 ^ 32) before s l) s others xs before total
  unfolding send_loop
  send_loop-Sends [] errno total s l ps xs before r b st =
      let none_left = ap (λ k. k == 0) (readable_size-length s l others ps xs r) ∙ st in
      rw none_left (empty others (IsFair []) errno s l ps xs before [] total r none_left)
  send_loop-Sends (took n ∷ rs) errno total s l ps xs before r b st =
      elim (Bool-cases (readable_size l == 0)) [
        | inl e ↦
            rw e
              (empty others (IsFair (took n ∷ rs)) errno s l ps xs before (took n ∷ rs) total r e)
        | inr e ↦ rw e (
            let t = (read_advance n s l).0 in
            let m = (read_advance n s l).1 in
            let taken = read_advance-Took n s l others ps xs r b.0 in
            let size = length-peek s l n in
            let more = rw (some_left s l ps xs r e) at st in
            let goal = λ (k : ℕ).
              Sends (IsFair rs) (send_loop rs errno k (before ++ peek s l n) t m) t others
                taken.left (before ++ peek s l n) (total + n) in
            takes others (IsFair rs) _ s t (peek s l n) xs before total n taken.left taken.split
              size taken.kept
              (subst goal (omega arith) (
                send_loop-Sends rs errno (total + n) t m taken.chain taken.left
                  (before ++ peek s l n) taken.rep b.1
                  (settles_rest rs n xs (peek s l n) taken.left taken.split size more))))
      ]
  send_loop-Sends (write_failed n ∷ rs) errno total s l ps xs before r b st =
      elim (Bool-cases (readable_size l == 0)) [
        | inl e ↦ rw e (
            empty others (IsFair (write_failed n ∷ rs)) errno s l ps xs before (write_failed n ∷ rs)
              total r e)
        | inr e ↦ elim (Bool-cases (n == eintr)) [
          | inl intr ↦
              rw (e, intr)
                (Sends-weaken (IsFair (write_failed n ∷ rs)) (IsFair rs) _ s others xs before total
                  (λ f. f.1)
                  (send_loop-Sends rs n total s l ps xs before r b
                    (rw (some_left s l ps xs r e, intr) at st)))
          | inr other ↦ elim (Bool-cases (is_io_try_again n)) [
            | inl again ↦
                rw (e, other, again)
                  (stops others (IsFair (write_failed n ∷ rs)) _ n n s l ps xs before rs total r
                    (blocked again refl))
            | inr bad ↦
                rw (e, other, bad)
                  (stops others (IsFair (write_failed n ∷ rs)) k_error n n s l ps xs before rs total
                    r (broken refl (λ f. (f.0, bad))))
          ]
        ]
      ]
  send_loop-Sends (took_none ∷ rs) errno total s l ps xs before r b st =
      elim (Bool-cases (readable_size l == 0)) [
        | inl e ↦ rw e (
            empty others (IsFair (took_none ∷ rs)) errno s l ps xs before (took_none ∷ rs) total r
              e)
        | inr e ↦ rw e (
            stops others (IsFair (took_none ∷ rs)) k_error errno errno s l ps xs before rs total r
              (broken refl (λ f. absurd f)))
      ]

-- `Send` where no more is taken at a time than the buffer at `ReadPoint()` holds.
pub send_block_refines :
    (rs : List WriteAnswer) (errno : ℕ) (s : Pool) (l : BufferList) (others ps xs : List ℕ)
    → Rep s l others ps xs
    → InBlock rs s l
    → settles rs (length xs) ≡ true
    → (r : Sent) × (qs left : List ℕ) × (send_buffer rs errno s l ≡ some r)
      × (xs ≡ r.bytes ++ left)
      × Rep r.pool r.buffer others qs left
      × Ending (IsFair rs) r left (length r.bytes)
      × ((a : ℕ) → has a others ≡ true → r.pool.cell a ≡ s.cell a)
unfolding send_buffer
send_block_refines rs errno s l others ps xs r b st =
    let d = send_loop-Sends others rs errno 0 s l ps xs [] r b st in
    (
      d.final,
      d.chain,
      d.left,
      d.returns,
      d.split ∙ ap (λ ys. ys ++ d.left) (sym d.bytes_are),
      d.rep,
      subst (Ending (IsFair rs) d.final d.left) (omega (arith, ap length d.bytes_are)) d.ending,
      d.kept,
    )
