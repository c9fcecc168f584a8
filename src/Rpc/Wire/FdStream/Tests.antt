-- ===== src/Rpc/Wire/FdStream/Tests.antt =====
-- Messages with descriptors in pieces.
use rsbinder.Prelude.{ℕ, ◌+◌, ◌≤◌, ◌≡◌, refl, List, [], ◌∷◌, ◌++◌, length, take, drop, replicate}
use rsbinder.Prelude.Bytes.{from_le}
use rsbinder.Rpc.Result.{ok, err, timed_out, truncated, peer_closed}
use rsbinder.Rpc.Framing.{Answer, bytes, fails}
use rsbinder.Rpc.Wire.Readers.{max_frame_len}
use rsbinder.Rpc.Wire.Stream.{read_aosp_message}
use rsbinder.Rpc.Wire.FdStream.{
  max_fds_per_frame, Recv, brings, refuses, fill, read_aosp_message_with_fds, budget,
}
use rsbinder.Rpc.Wire.FdStream.Received.{bytes_of, fds_of, read_aosp_message_with_fds_lem}
use rsbinder.Rpc.Wire.FdStream.Plain.{plain, with_no_fds, read_aosp_message_with_fds-plain}

abbrev head : List ℕ
head = 2 ∷ 0 ∷ 0 ∷ 0 ∷ 3 ∷ 0 ∷ 0 ∷ 0 ∷ 0 ∷ 0 ∷ 0 ∷ 0 ∷ 0 ∷ 0 ∷ 0 ∷ 0 ∷ []

-- Two descriptors with the header and one with the body, behind which another message begins.
abbrev stream : List Recv
stream = brings head (5 ∷ 6 ∷ []) ∷ brings (7 ∷ 8 ∷ 9 ∷ 2 ∷ []) (4 ∷ []) ∷ brings [] (3 ∷ []) ∷ []

abbrev rest : List Recv
rest = brings (2 ∷ []) [] ∷ brings [] (3 ∷ []) ∷ []

stream-read : read_aosp_message_with_fds stream ≡ ok (head ++ 7 ∷ 8 ∷ 9 ∷ [], 5 ∷ 6 ∷ 4 ∷ [], rest)
unfolding read_aosp_message_with_fds fill from_le
stream-read = refl

read_aosp_message_with_fds_lem_example :
    let msg : List ℕ = head ++ 7 ∷ 8 ∷ 9 ∷ [] in
    let fds : List ℕ = 5 ∷ 6 ∷ 4 ∷ [] in
    (length msg ≡ 16 + from_le (take 4 (drop 4 msg)))
    × (length msg ≤ 16 + max_frame_len)
    × (length fds ≤ max_fds_per_frame)
    × (bytes_of stream ≡ msg ++ bytes_of rest)
    × (fds_of stream ≡ fds ++ fds_of rest)
read_aosp_message_with_fds_lem_example = read_aosp_message_with_fds_lem stream stream-read

-- One descriptor too many.
too_many : read_aosp_message_with_fds (brings head (replicate 65 1) ∷ []) ≡ err budget
unfolding read_aosp_message_with_fds fill
too_many = refl

abbrev slow : List Answer
slow = bytes head ∷ bytes (7 ∷ []) ∷ fails timed_out ∷ bytes (8 ∷ 9 ∷ []) ∷ []

read_aosp_message_with_fds-plain_example :
    read_aosp_message_with_fds (plain slow) ≡ with_no_fds (read_aosp_message slow).result
read_aosp_message_with_fds-plain_example = read_aosp_message_with_fds-plain slow (refl, tt)

slow-truncated : read_aosp_message_with_fds (plain slow) ≡ err truncated
unfolding read_aosp_message_with_fds fill from_le
slow-truncated = refl

-- A connection that is reset behind the header.
reset : read_aosp_message_with_fds (brings head [] ∷ refuses peer_closed ∷ []) ≡ err peer_closed
unfolding read_aosp_message_with_fds fill from_le
reset = refl
