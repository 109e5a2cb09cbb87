-- ===== src/DockerStream/Tests.antt =====
-- Frames of the Docker stream at concrete inputs.
use rakazo.Common.{List, [], ◌∷◌, true, ◌≡◌, refl, arith, All}
use rakazo.DockerStream.{Bytes, demux_docker_stream, is_complete_docker_multiplexed_stream}
use rakazo.DockerStream.Frames.{
  Frame, IsFrame, encode, separate, demux-encode, IsBytes, complete_is_encoding,
}

abbrev frames : List Frame
frames = record { kind = 1; payload = 104 ∷ 105 ∷ [] } ∷ record { kind = 2; payload = 33 ∷ [] } ∷ []

frames-IsFrame : All IsFrame frames
frames-IsFrame = (
  record { known = omega arith; fits = omega arith },
  (record { known = omega arith; fits = omega arith }, tt),
)

demux-encode_example : demux_docker_stream (encode frames) ≡ separate frames
demux-encode_example = demux-encode frames frames-IsFrame

abbrev buffer : Bytes
buffer = 1 ∷ 0 ∷ 0 ∷ 0 ∷ 0 ∷ 0 ∷ 0 ∷ 1 ∷ 65 ∷ []

buffer-IsBytes : IsBytes buffer
buffer-IsBytes = ground arith

buffer_complete : is_complete_docker_multiplexed_stream buffer ≡ true
unfolding is_complete_docker_multiplexed_stream
buffer_complete = refl

complete_is_encoding_example : (fs : List Frame) × All IsFrame fs × (encode fs ≡ buffer)
complete_is_encoding_example = complete_is_encoding buffer buffer-IsBytes buffer_complete
