-- ===== src/Redaction/Tests.antt =====
-- The redactor at concrete inputs.
use rakazo.Common.{List, [], ◌∷◌, Text, lit, ◌≡◌, refl}
use mathlib.Core.List.{flatten}
use rakazo.Redaction.{stream, create_streaming_redactor, redact_secret}
use rakazo.Redaction.Leftmost.{Redacts}
use rakazo.Redaction.Stream.{stream_redacts, stream_independent_of_chunks}
use rakazo.Redaction.Whole.{stream-redact_secret}

-- Two secrets, one of which begins the other, and a text cut inside of them.
abbrev secrets : List Text
secrets = lit "abc" ∷ lit "abcdef" ∷ []

abbrev chunks : List Text
chunks = lit "x ab" ∷ lit "cd" ∷ lit "ef abc" ∷ []

stream_redacts_example :
    Redacts secrets (flatten chunks) (stream (create_streaming_redactor secrets) chunks)
stream_redacts_example = stream_redacts secrets chunks

stream_independent_of_chunks_example :
    stream (create_streaming_redactor secrets) chunks
    ≡ stream (create_streaming_redactor secrets) (lit "x abcdef abc" ∷ [])
unfolding flatten
stream_independent_of_chunks_example =
    stream_independent_of_chunks secrets chunks (lit "x abcdef abc" ∷ []) refl

stream-redact_secret_example :
    stream (create_streaming_redactor (lit "abc" ∷ [])) chunks
    ≡ redact_secret (flatten chunks) (lit "abc")
stream-redact_secret_example = stream-redact_secret (lit "abc") chunks
