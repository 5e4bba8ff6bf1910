-- ===== src/Ext/Samples/Writer.antt =====
-- A writer of frames that takes those with schemas for large.
use bottledwater_pg.Prelude.{
  ℕ, zero, suc, Result, einval, ◌≡◌, refl, Option, none, some, List, [], ◌∷◌, length, err, arith,
}
use bottledwater_pg.Client.Frames.{Message}
use bottledwater_pg.Ext.Writing.{writes}
use bottledwater_pg.Ext.Frames.{Frame, all_made}
use bottledwater_pg.Ext.Decoder.{FrameWriter}
use bottledwater_pg.Ext.Samples.{memory}

unfoldable pub zeros : ℕ → List ℕ
zeros zero = []
zeros (suc n) = 0 ∷ zeros n

pub length-zeros : (n : ℕ) → length (zeros n) ≡ n
unfolding zeros
length-zeros zero = refl
length-zeros (suc n) = omega (arith, length-zeros n)

-- Texts of schemas are large, all else is small.
abbrev pub frame_size : List Message → List ℕ
frame_size (Message.table_schema relid key_json row_json ∷ ms) = zeros 1048576
frame_size _ = 1 ∷ []

abbrev pub with_message : Message → Option (List Message) → Option (List Message)
with_message m none = none
with_message m (some ms) = some (m ∷ ms)

abbrev pub messages_of : Frame → Option (List Message)
messages_of [] = some []
messages_of (none ∷ frame) = none
messages_of (some m ∷ frame) = with_message m (messages_of frame)

pub messages_of-all_made : (ms : List Message) → messages_of (all_made ms) ≡ some ms
messages_of-all_made [] = refl
messages_of-all_made (m ∷ ms) = rw (messages_of-all_made ms) refl

abbrev pub write_messages : Option (List Message) → ℕ → Result (List ℕ)
write_messages none = λ capacity. err einval
write_messages (some ms) = writes memory (frame_size ms)

abbrev pub write_whole : Frame → ℕ → Result (List ℕ)
write_whole frame = write_messages (messages_of frame)

pub write_whole-made :
    (ms : List Message) → write_whole (all_made ms) ≡ writes memory (frame_size ms)
write_whole-made ms = rw (messages_of-all_made ms) refl

abbrev pub writer : FrameWriter memory
writer = record {
  frame_bytes = frame_size;
  write_avro_binary = write_whole;
  write_made = write_whole-made;
}
