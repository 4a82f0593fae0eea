-- ===== src/Realtime/Frame/Roundtrip.antt =====
-- A reader of unmasked text frames, by RFC 6455, and what it reads of the server's frames.
use charging_station_system.Prelude.{
  ℕ, zero, suc, ◌+◌, ◌*◌, ◌/◌, ◌%◌, ◌^◌, ◌<◌, ◌≡◌, refl, sym, subst, Option, none, some, List, [],
  ◌∷◌, ◌++◌, arith, not, foldl, ltb, leb, ◌==◌, if◌then◌else◌, length, Bool-cases, inl, inr,
}
use mathlib.Core.List.{append_assoc}
use charging_station_system.Realtime.Frame.{shifted_bytes, frame_header, encode_text_frame}

-- The first `n` bytes and the rest, if there are so many.
unfoldable pub split_bytes : ℕ → List ℕ → Option (List ℕ × List ℕ)
split_bytes zero bytes = some ([], bytes)
split_bytes (suc n) [] = none
split_bytes (suc n) (b ∷ bs) = elim (split_bytes n bs) [
  | none ↦ none
  | some p ↦ some (b ∷ p.0, p.1)
]

abbrev pub big_endian : List ℕ → ℕ
big_endian = foldl (λ n b. n * 256 + b) 0

-- A length of `n` bytes, and as many bytes as it says.
unfoldable pub read_long : ℕ → List ℕ → Option (List ℕ × List ℕ)
unfolding split_bytes
read_long n bytes = elim (split_bytes n bytes) [
  | none ↦ none
  | some p ↦ split_bytes (big_endian p.0) p.1
]

-- The payload of the frame at the start of the bytes, and what follows the frame.
unfoldable pub read_text_frame : List ℕ → Option (List ℕ × List ℕ)
unfolding read_long
read_text_frame (op ∷ n ∷ bytes) =
    if not (op == 0x81)
    then none
    else if ltb n 126
    then split_bytes n bytes
    else if n == 126
    then read_long 2 bytes
    else if n == 127
    then read_long 8 bytes
    else none
read_text_frame _ = none

split_bytes-length : (xs rest : List ℕ) → split_bytes (length xs) (xs ++ rest) ≡ some (xs, rest)
unfolding split_bytes
split_bytes-length [] rest = refl
split_bytes-length (x ∷ xs) rest = rw (split_bytes-length xs rest) refl

read_long-two :
    (n : ℕ) (payload rest : List ℕ)
    → length payload ≡ n
    → n < 65536
    → read_long 2 (n / 256 % 256 ∷ n % 256 ∷ (payload ++ rest)) ≡ some (payload, rest)
unfolding read_long split_bytes
read_long-two n payload rest e small =
    let whole : (0 * 256 + n / 256 % 256) * 256 + n % 256 ≡ length payload = omega arith in
    rw whole (split_bytes-length payload rest)

read_long-eight :
    (n : ℕ) (payload rest : List ℕ)
    → length payload ≡ n
    → n < 2 ^ 64
    → read_long 8 (shifted_bytes 8 n ++ (payload ++ rest)) ≡ some (payload, rest)
unfolding read_long split_bytes shifted_bytes
read_long-eight n payload rest e small =
    let whole : big_endian (shifted_bytes 8 n) ≡ length payload = omega arith in
    rw whole (split_bytes-length payload rest)

-- Whatever text is sent, if its length fits the eight bytes of a frame, a reader of the stream gets it
-- back, and is left with what was sent after it.
pub read_text_frame-encode_text_frame :
    (payload rest : List ℕ)
    → length payload < 2 ^ 64
    → read_text_frame (encode_text_frame payload ++ rest) ≡ some (payload, rest)
unfolding read_text_frame encode_text_frame frame_header
read_text_frame-encode_text_frame payload rest small =
    elim (Bool-cases (ltb (length payload) 126)) [
      | inl short ↦ rw short (rw short (split_bytes-length payload rest))
      | inr more ↦ elim (Bool-cases (leb (length payload) 0xffff)) [
        | inl two ↦
            rw more (rw two (read_long-two (length payload) payload rest refl (ground arith)))
        | inr eight ↦ rw more (
            rw eight (
              subst (λ bytes. read_text_frame (0x81 ∷ 127 ∷ bytes) ≡ some (payload, rest))
                (sym (append_assoc (shifted_bytes 8 (length payload)) payload rest))
                (read_long-eight (length payload) payload rest refl small)))
      ]
    ]
