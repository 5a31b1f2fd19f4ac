-- ===== src/Tests/Links.antt =====
-- Framed messages on a stream.
use grandma_scheduling_servi.Prelude.{◌≡◌, refl, [], ◌∷◌, done, panic, replicate, arith}
use grandma_scheduling_servi.Cluster.Framing.{
  Link, copy, append_buffer, first_bytes, take_message, read_more, read_data,
}
use grandma_scheduling_servi.Cluster.Framing.Receive.{IsLink}
use grandma_scheduling_servi.Cluster.Framing.Short.{read_data-panic}

-- The message `7 8 9` in three reads, with the start of the next message behind it.
abbrev streamed : Link
streamed = record {
  read_buffer = replicate 6 0;
  level_2_buffer = replicate 6 0;
  level_2_size = 0;
  conn = (0 ∷ 3 ∷ []) ∷ (7 ∷ 8 ∷ []) ∷ (9 ∷ 0 ∷ 1 ∷ []) ∷ [];
}

abbrev after : Link
after = record {
  read_buffer = 7 ∷ 8 ∷ 9 ∷ 0 ∷ 0 ∷ 0 ∷ [];
  level_2_buffer = 0 ∷ 1 ∷ 0 ∷ 0 ∷ 0 ∷ 0 ∷ [];
  level_2_size = 2;
  conn = [];
}

read_data-streamed : read_data 6 streamed ≡ done (3, after)
unfolding read_data first_bytes take_message read_more append_buffer copy
read_data-streamed = refl

-- Another message behind it, and the start of a third.
abbrev two_messages : Link
two_messages = record streamed {
  conn = (0 ∷ 3 ∷ []) ∷ (7 ∷ 8 ∷ []) ∷ (9 ∷ 0 ∷ 1 ∷ []) ∷ (5 ∷ 0 ∷ []) ∷ [];
}

abbrev one_byte : Link
one_byte = record {
  read_buffer = replicate 6 0;
  level_2_buffer = replicate 6 0;
  level_2_size = 0;
  conn = (0 ∷ []) ∷ (3 ∷ 7 ∷ 8 ∷ 9 ∷ []) ∷ [];
}

one_byte-IsLink : IsLink 6 one_byte
one_byte-IsLink = record {
  read_fits = refl;
  level_2_fits = refl;
  size_fits = omega arith;
  chunks_fit = ((omega arith, omega arith), ((omega arith, omega arith), tt));
}

read_data-panic_example : read_data 6 one_byte ≡ panic
read_data-panic_example =
    read_data-panic 6 one_byte 0 (3 ∷ 7 ∷ 8 ∷ 9 ∷ []) [] one_byte-IsLink refl refl (omega arith)
      (omega arith)
