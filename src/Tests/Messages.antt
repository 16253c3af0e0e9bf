-- ===== src/Tests/Messages.antt =====
-- A log message, and two views of the same bytes.
use libserverkit.Base.{◌+◌, ◌<◌, [], ◌∷◌, ◌++◌, ◌≡◌, Bytes, memcpy, take}
use libserverkit.Log.{LogMessageData, info, contents, log_prefix, max_log_message_len}
use libserverkit.Log.Contents.{concat, message, message-contents, room}

abbrev no_text : Bytes
no_text i = 255

-- "[I w1 10:00 a.cc:7]hi"
abbrev greeting : LogMessageData
greeting =
    message no_text info (119 ∷ 49 ∷ []) (49 ∷ 48 ∷ []) (97 ∷ 46 ∷ 99 ∷ 99 ∷ []) (55 ∷ [])
      ((104 ∷ 105 ∷ []) ∷ [])

message-contents_example :
    (contents greeting
      ≡ take room (
          concat (log_prefix info (119 ∷ 49 ∷ []) (49 ∷ 48 ∷ []) (97 ∷ 46 ∷ 99 ∷ 99 ∷ []) (55 ∷ []))
          ++ (concat ((104 ∷ 105 ∷ []) ∷ []) ++ 10 ∷ [])))
    × (greeting.text greeting.pcount ≡ 0)
    × (greeting.pcount < max_log_message_len + 1)
message-contents_example =
    message-contents no_text info (119 ∷ 49 ∷ []) (49 ∷ 48 ∷ []) (97 ∷ 46 ∷ 99 ∷ 99 ∷ []) (55 ∷ [])
      ((104 ∷ 105 ∷ []) ∷ [])

-- "abcab" at address 8
abbrev memory : Bytes
memory = memcpy no_text 8 (97 ∷ 98 ∷ 99 ∷ 97 ∷ 98 ∷ [])
