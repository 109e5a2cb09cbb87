-- ===== src/DockerStream/Frames.antt =====
-- Multiplexing a list of frames and taking the stream apart again.
use rakazo.Common.{
  ℕ, zero, suc, ◌/◌, ◌%◌, ◌≤◌, ◌<◌, ◌==◌, ltb, true, false, List, [], ◌∷◌, ◌++◌, length,
  length-append, take, drop, if◌then◌else◌, ◌≡◌, refl, ap, ◌∙◌, arith, All, drop-length_append,
  take-append-drop,
}
use rakazo.DockerStream.{
  Bytes, read_u32_be, is_frame, is_complete_loop, is_complete_docker_multiplexed_stream, Output,
  demux_loop, demux_docker_stream,
}

pub record Frame : Type 0 where
  pub kind : ℕ
  pub payload : Bytes

pub record IsFrame (f : Frame) : Type 0 where
  pub known : f.kind ≤ 2
  pub fits : length f.payload < 4294967296

abbrev encode_frame : Frame → Bytes → Bytes
encode_frame f rest =
    let n = length f.payload in
    f.kind
    ∷ 0
    ∷ 0
    ∷ 0
    ∷ (n / 16777216)
    ∷ ((n / 65536) % 256)
    ∷ ((n / 256) % 256)
    ∷ (n % 256)
    ∷ (f.payload ++ rest)

-- What the Docker daemon sends for the frames.
abbrev pub encode : List Frame → Bytes
encode [] = []
encode (f ∷ fs) = encode_frame f (encode fs)

abbrev pub separate : List Frame → Output
separate [] = record { stdout = []; stderr = [] }
separate (f ∷ fs) =
    let later = separate fs in
    if f.kind == 2
    then record later { stderr = f.payload ++ later.stderr }
    else record later { stdout = f.payload ++ later.stdout }

size_of : (n : ℕ) → read_u32_be (n / 16777216) ((n / 65536) % 256) ((n / 256) % 256) (n % 256) ≡ n
size_of n = omega arith

take-length_append {ℓ} : {A : Type ℓ} (xs ys : List A) → take (length xs) (xs ++ ys) ≡ xs
take-length_append [] ys = refl
take-length_append (x ∷ xs) ys = ap (◌∷◌ x) (take-length_append xs ys)

fits_append : (xs ys : Bytes) → ltb (length (xs ++ ys)) (length xs) ≡ false
fits_append xs ys = ground (arith, length-append xs ys)

encode-IsFrame :
    (f : Frame) (rest : Bytes)
    → IsFrame f
    → is_frame f.kind 0 0 0 (length f.payload) (f.payload ++ rest) ≡ true
encode-IsFrame f rest v = ground (arith, fits_append f.payload rest)

is_complete_loop-encode :
    (fs : List Frame) (fuel : ℕ)
    → All IsFrame fs
    → length (encode fs) ≤ fuel
    → is_complete_loop fuel (encode fs) ≡ true
unfolding is_complete_loop
is_complete_loop-encode [] zero v h = refl
is_complete_loop-encode [] (suc fuel) v h = refl
is_complete_loop-encode (f ∷ fs) zero v h = absurd (omega arith)
is_complete_loop-encode (f ∷ fs) (suc fuel) v h =
    rw
      (
        size_of (length f.payload),
        encode-IsFrame f (encode fs) v.0,
        drop-length_append f.payload (encode fs),
      )
      (is_complete_loop-encode fs fuel v.1 (omega (arith, length-append f.payload (encode fs))))

demux_loop-encode :
    (fs : List Frame) (fuel : ℕ)
    → length (encode fs) ≤ fuel
    → demux_loop fuel (encode fs) ≡ separate fs
unfolding demux_loop
demux_loop-encode [] zero h = refl
demux_loop-encode [] (suc fuel) h = refl
demux_loop-encode (f ∷ fs) zero h = absurd (omega arith)
demux_loop-encode (f ∷ fs) (suc fuel) h = rw (
  size_of (length f.payload),
  take-length_append f.payload (encode fs),
  drop-length_append f.payload (encode fs),
  demux_loop-encode fs fuel (omega (arith, length-append f.payload (encode fs))),
)

-- Whatever frames the daemon sends, in any order and of any sizes that four bytes can state, their
-- payloads come out in order: those of type 2 as the error output and the others as the output.
pub demux-encode :
    (fs : List Frame) → All IsFrame fs → demux_docker_stream (encode fs) ≡ separate fs
unfolding demux_docker_stream is_complete_docker_multiplexed_stream
demux-encode fs v =
    rw (is_complete_loop-encode fs (length (encode fs)) v (omega arith))
      (demux_loop-encode fs (length (encode fs)) (omega arith))

abbrev pub IsBytes : Bytes → Type 0
IsBytes = All (λ b. b < 256)

drop-IsBytes : (n : ℕ) (s : Bytes) → IsBytes s → IsBytes (drop n s)
drop-IsBytes zero s h = h
drop-IsBytes (suc n) [] h = tt
drop-IsBytes (suc n) (c ∷ s) h = drop-IsBytes n s h.1

length-take_fits : (n : ℕ) (s : Bytes) → n ≤ length s → length (take n s) ≡ n
length-take_fits zero s h = refl
length-take_fits (suc n) [] h = absurd (omega arith)
length-take_fits (suc n) (c ∷ s) h = omega (arith, length-take_fits n s (omega arith))

-- The frames that a stream is made of.
record Encodes (s : Bytes) : Type 0 where
  frames : List Frame
  valid : All IsFrame frames
  same : encode frames ≡ s

bytes_of_size :
    (a b c d n : ℕ)
    → a < 256
    → b < 256
    → c < 256
    → d < 256
    → n ≡ read_u32_be a b c d
    → (n / 16777216 ≡ a)
      × ((n / 65536) % 256 ≡ b)
      × ((n / 256) % 256 ≡ c)
      × (n % 256 ≡ d)
      × (n < 4294967296)
bytes_of_size a b c d n ha hb hc hd e = omega arith

same_bytes :
    (k x y z a b c d a' b' c' d' : ℕ) (s t : Bytes)
    → (x ≡ 0) × (y ≡ 0) × (z ≡ 0)
    → (a' ≡ a) × (b' ≡ b) × (c' ≡ c) × (d' ≡ d)
    → s ≡ t
    → (k ∷ 0 ∷ 0 ∷ 0 ∷ a' ∷ b' ∷ c' ∷ d' ∷ s) ≡ (k ∷ x ∷ y ∷ z ∷ a ∷ b ∷ c ∷ d ∷ t)
same_bytes k x y z a b c d a' b' c' d' s t p q e = ground arith

frame-Encodes :
    (kind x y z a b c d : ℕ) (rest : Bytes)
    → IsBytes (kind ∷ x ∷ y ∷ z ∷ a ∷ b ∷ c ∷ d ∷ rest)
    → is_frame kind x y z (read_u32_be a b c d) rest ≡ true
    → Encodes (drop (read_u32_be a b c d) rest)
    → Encodes (kind ∷ x ∷ y ∷ z ∷ a ∷ b ∷ c ∷ d ∷ rest)
frame-Encodes kind x y z a b c d rest v h e =
    let size = read_u32_be a b c d in
    let room : size ≤ length rest = ground arith in
    let n = length-take_fits size rest room in
    let w = v.1.1.1.1 in
    let (ea, eb, ec, ed, lt) =
      bytes_of_size a b c d (length (take size rest)) w.0 w.1.0 w.1.1.0 w.1.1.1.0 n in
    record {
      frames = record { kind = kind; payload = take size rest } ∷ e.frames;
      valid = (record { known = ground arith; fits = lt }, e.valid);
      same =
          same_bytes kind x y z a b c d _ _ _ _ _ rest (ground arith, ground arith, ground arith)
            (ea, eb, ec, ed) (ap (◌++◌ (take size rest)) e.same ∙ take-append-drop size rest);
    }

complete-Encodes : (fuel : ℕ) (s : Bytes) → IsBytes s → is_complete_loop fuel s ≡ true → Encodes s
unfolding is_complete_loop
complete-Encodes fuel [] v h = record { frames = []; valid = tt; same = refl }
complete-Encodes (suc fuel) (kind ∷ x ∷ y ∷ z ∷ a ∷ b ∷ c ∷ d ∷ rest) v h =
    let size = read_u32_be a b c d in
    let framed : is_frame kind x y z size rest ≡ true = ground arith in
    frame-Encodes kind x y z a b c d rest v framed (
      complete-Encodes fuel (drop size rest) (drop-IsBytes size rest v.1.1.1.1.1.1.1.1)
        (ground arith))
complete-Encodes fuel (kind ∷ rest) v h = cc

-- A buffer of bytes that passes for a complete stream is the encoding of some frames, each of type 0, 1
-- or 2 and of a size that four bytes can state.
pub complete_is_encoding :
    (buffer : Bytes)
    → IsBytes buffer
    → is_complete_docker_multiplexed_stream buffer ≡ true
    → (fs : List Frame) × All IsFrame fs × (encode fs ≡ buffer)
unfolding is_complete_docker_multiplexed_stream
complete_is_encoding buffer v h =
    let e = complete-Encodes (length buffer) buffer v h in (e.frames, e.valid, e.same)
