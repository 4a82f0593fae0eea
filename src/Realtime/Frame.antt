-- ===== src/Realtime/Frame.antt =====
-- `encodeTextFrame` of realtime.service.ts, on the bytes of the text.
pub mod Roundtrip
use charging_station_system.Prelude.{
  ℕ, zero, suc, ◌/◌, ◌%◌, ◌^◌, List, [], ◌∷◌, ◌++◌, ltb, leb, if◌then◌else◌, length,
}

-- The loop over `shift`, from `8 * (k - 1)` down to 0: `(length >> shift) & 0xff`.
unfoldable pub shifted_bytes : ℕ → ℕ → List ℕ
shifted_bytes zero n = []
shifted_bytes (suc k) n = n / 256 ^ k % 256 ∷ shifted_bytes k n

unfoldable pub frame_header : ℕ → List ℕ
unfolding shifted_bytes
frame_header n =
    0x81
    ∷ (if ltb n 126
        then n ∷ []
        else if leb n 0xffff
        then 126 ∷ n / 256 % 256 ∷ n % 256 ∷ []
        else 127 ∷ shifted_bytes 8 n)

unfoldable pub encode_text_frame : List ℕ → List ℕ
unfolding frame_header
encode_text_frame payload = frame_header (length payload) ++ payload
