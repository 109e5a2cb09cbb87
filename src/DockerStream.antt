-- ===== src/DockerStream.antt =====
-- infra/sandboxes/supervisor/src/supervisor-logic.ts, `demuxDockerStream`: the output of a Docker
-- exec, which is multiplexed into frames unless it comes from a terminal. A buffer is the list of
-- its bytes; turning the two results into text is left out. The loops run on fuel, one unit for a
-- frame, and the length of the buffer is enough of it.
pub mod Frames
mod Tests
use rakazo.Common.{
  ℕ, zero, suc, ◌+◌, ◌*◌, ◌==◌, ltb, Bool, true, false, ◌||◌, ◌&&◌, not, List, [], ◌∷◌, ◌++◌,
  length, take, drop, if◌then◌else◌,
}

abbrev pub Bytes : Type 0
Bytes = List ℕ

abbrev pub read_u32_be : ℕ → ℕ → ℕ → ℕ → ℕ
read_u32_be a b c d = a * 16777216 + b * 65536 + c * 256 + d

-- Type 0, 1 or 2, three bytes of padding, and a payload that fits in what is left.
abbrev pub is_frame : ℕ → ℕ → ℕ → ℕ → ℕ → Bytes → Bool
is_frame kind x y z size rest =
    (kind == 0 || kind == 1 || kind == 2)
    && (x == 0 && y == 0 && z == 0)
    && not (ltb (length rest) size)

pub is_complete_loop : ℕ → Bytes → Bool
is_complete_loop fuel [] = true
is_complete_loop (suc fuel) (kind ∷ x ∷ y ∷ z ∷ a ∷ b ∷ c ∷ d ∷ rest) =
    let size = read_u32_be a b c d in
    let later = is_complete_loop fuel (drop size rest) in
    if is_frame kind x y z size rest then later else false
is_complete_loop fuel (kind ∷ rest) = false

pub is_complete_docker_multiplexed_stream : Bytes → Bool
unfolding is_complete_loop
is_complete_docker_multiplexed_stream buffer = is_complete_loop (length buffer) buffer

pub record Output : Type 0 where
  pub stdout : Bytes
  pub stderr : Bytes

pub demux_loop : ℕ → Bytes → Output
demux_loop (suc fuel) (kind ∷ x ∷ y ∷ z ∷ a ∷ b ∷ c ∷ d ∷ rest) =
    let size = read_u32_be a b c d in
    let later = demux_loop fuel (drop size rest) in
    let payload = take size rest in
    if kind == 2
    then record later { stderr = payload ++ later.stderr }
    else record later { stdout = payload ++ later.stdout }
demux_loop fuel rest = record { stdout = []; stderr = [] }

pub demux_docker_stream : Bytes → Output
unfolding is_complete_docker_multiplexed_stream demux_loop
demux_docker_stream buffer =
    if not (is_complete_docker_multiplexed_stream buffer)
    then record { stdout = buffer; stderr = [] }
    else demux_loop (length buffer) buffer
