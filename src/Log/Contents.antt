-- ===== src/Log/Contents.antt =====
-- What of a log message reaches the log thread.
use libserverkit.Base.{
  ℕ, zero, suc, ◌+◌, ◌-◌, ◌≤◌, ◌<◌, List, [], ◌∷◌, ◌++◌, append_assoc, append-nil, ◌≡◌, refl, sym,
  ap, ◌∙◌, Bytes, slice, memcpy, slice-memcpy, slice-memcpy_before, length-slice, take, take_all,
  take_within, length-append, update, update_self, ltb, Bool-cases, inl, inr, arith, ltb→lt,
}
use libserverkit.Log.{
  LogLevel, max_log_message_len, LogMessageData, new_data, sputc, stream, stream_all, log_prefix,
  new_message, finish, contents,
}

-- The room for a message's text.
abbrev pub room : ℕ
room = max_log_message_len - 2

abbrev pub concat : List (List ℕ) → List ℕ
concat [] = []
concat (s ∷ ss) = s ++ concat ss

take-append_take : (n : ℕ) (xs ys : List ℕ) → take n (take n xs ++ ys) ≡ take n (xs ++ ys)
take-append_take zero xs ys = refl
take-append_take (suc n) [] ys = refl
take-append_take (suc n) (x ∷ xs) ys = ap (◌∷◌ x) (take-append_take n xs ys)

-- One character more, where the text has room for it.
slice_snoc : (m : Bytes) (n ch : ℕ) → slice (update m n ch) 0 (n + 1) ≡ slice m 0 n ++ ch ∷ []
unfolding memcpy
slice_snoc m n ch = slice-memcpy m n 0 n (ch ∷ []) (omega arith)

take_fits : (n : ℕ) (m : Bytes) (k : ℕ) → k ≤ n → take n (slice m 0 k) ≡ slice m 0 k
take_fits n m k h = take_all n (slice m 0 k) (omega (arith, length-slice m 0 k))

snoc_fits :
    (n : ℕ) (m : Bytes) (k ch : ℕ)
    → k < n
    → take n (slice m 0 k ++ ch ∷ []) ≡ slice m 0 k ++ ch ∷ []
snoc_fits n m k ch h =
    take_all n (slice m 0 k ++ ch ∷ [])
      (omega (arith, length-append (slice m 0 k) (ch ∷ []), length-slice m 0 k))

take_full :
    (n : ℕ) (m : Bytes) (k : ℕ) (ys : List ℕ) → k ≡ n → take n (slice m 0 k ++ ys) ≡ slice m 0 k
take_full n m k ys h =
    take_within n (slice m 0 k) ys (omega (arith, length-slice m 0 k))
    ∙ take_fits n m k (omega arith)

contents-sputc :
    (ch : ℕ) (d : LogMessageData)
    → d.pcount ≤ room
    → contents (sputc ch d) ≡ take room (contents d ++ ch ∷ [])
unfolding sputc
contents-sputc ch d h = elim (Bool-cases (ltb d.pcount room)) [
  | inl e ↦ rw e (
      slice_snoc d.text d.pcount ch
      ∙ sym (snoc_fits room d.text d.pcount ch (ltb→lt d.pcount room e)))
  | inr e ↦ rw e (sym (take_full room d.text d.pcount (ch ∷ []) (ground arith)))
]

pcount-sputc : (ch : ℕ) (d : LogMessageData) → d.pcount ≤ room → (sputc ch d).pcount ≤ room
unfolding sputc
pcount-sputc ch d h = ground arith

pcount-stream : (s : List ℕ) (d : LogMessageData) → d.pcount ≤ room → (stream s d).pcount ≤ room
unfolding stream
pcount-stream [] d h = h
pcount-stream (ch ∷ s) d h = pcount-stream s (sputc ch d) (pcount-sputc ch d h)

contents-stream :
    (s : List ℕ) (d : LogMessageData)
    → d.pcount ≤ room
    → contents (stream s d) ≡ take room (contents d ++ s)
unfolding stream
contents-stream [] d h = rw append-nil (sym (take_fits room d.text d.pcount h))
contents-stream (ch ∷ s) d h =
    contents-stream s (sputc ch d) (pcount-sputc ch d h)
    ∙ (ap (λ xs. take room (xs ++ s)) (contents-sputc ch d h)
        ∙ (take-append_take room (contents d ++ ch ∷ []) s
            ∙ ap (take room) (append_assoc (contents d) (ch ∷ []) s)))

pcount-stream_all :
    (ss : List (List ℕ)) (d : LogMessageData) → d.pcount ≤ room → (stream_all ss d).pcount ≤ room
unfolding stream_all
pcount-stream_all [] d h = h
pcount-stream_all (s ∷ ss) d h = pcount-stream_all ss (stream s d) (pcount-stream s d h)

contents-stream_all :
    (ss : List (List ℕ)) (d : LogMessageData)
    → d.pcount ≤ room
    → contents (stream_all ss d) ≡ take room (contents d ++ concat ss)
unfolding stream_all
contents-stream_all [] d h = rw append-nil (sym (take_fits room d.text d.pcount h))
contents-stream_all (s ∷ ss) d h =
    contents-stream_all ss (stream s d) (pcount-stream s d h)
    ∙ (ap (λ xs. take room (xs ++ concat ss)) (contents-stream s d h)
        ∙ (take-append_take room (contents d ++ s) (concat ss)
            ∙ ap (take room) (append_assoc (contents d) s (concat ss))))

contents-finish :
    (d : LogMessageData) → d.pcount ≤ room → contents (finish d) ≡ take room (contents d ++ 10 ∷ [])
unfolding finish memcpy
contents-finish d h =
    let d' = stream (10 ∷ []) d in
    slice-memcpy_before d'.text d'.pcount (0 ∷ []) 0 d'.pcount (omega arith)
    ∙ contents-stream (10 ∷ []) d h

finish-IsTerminated :
    (d : LogMessageData)
    → d.pcount ≤ room
    → ((finish d).text (finish d).pcount ≡ 0) × ((finish d).pcount ≤ room)
unfolding finish
finish-IsTerminated d h =
    let d' = stream (10 ∷ []) d in (update_self d'.text d'.pcount 0, pcount-stream (10 ∷ []) d h)

-- A message's life from the constructor to the end of `finish`.
abbrev pub message :
    Bytes → LogLevel → List ℕ → List ℕ → List ℕ → List ℕ → List (List ℕ) → LogMessageData
message text level thread time base line body =
    finish (stream_all body (new_message text level thread time base line).data_)

-- Whatever is streamed into a log message, what reaches the log thread is the first 29,998 bytes of
-- the level's name, the thread's name, the time, the file and the line, what was streamed, and a
-- newline, in this order; and behind it, inside the array, stands a zero byte.
pub message-contents :
    (text : Bytes) (level : LogLevel) (thread time base line : List ℕ) (body : List (List ℕ))
    → let d = message text level thread time base line body in
      (contents d
        ≡ take room (concat (log_prefix level thread time base line) ++ (concat body ++ 10 ∷ [])))
      × (d.text d.pcount ≡ 0)
      × (d.pcount < max_log_message_len + 1)
unfolding new_message new_data slice
message-contents text level thread time base line body =
    let d0 = new_data text in
    let d1 = stream_all (log_prefix level thread time base line) d0 in
    let d2 = stream_all body d1 in
    let h1 = pcount-stream_all (log_prefix level thread time base line) d0 (omega arith) in
    let h2 = pcount-stream_all body d1 h1 in
    let p = concat (log_prefix level thread time base line) in
    let ends = finish-IsTerminated d2 h2 in
    (
      contents-finish d2 h2
          ∙ (ap (λ xs. take room (xs ++ 10 ∷ []))
                (contents-stream_all body d1 h1
                  ∙ (ap (λ xs. take room (xs ++ concat body))
                        (contents-stream_all (log_prefix level thread time base line) d0
                          (omega arith))
                      ∙ take-append_take room p (concat body)))
              ∙ (take-append_take room (p ++ concat body) (10 ∷ [])
                  ∙ ap (take room) (append_assoc p (concat body) (10 ∷ [])))),
      ends.0,
      omega (arith, ends.1),
    )
