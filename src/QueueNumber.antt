-- ===== src/QueueNumber.antt =====
-- Queue numbers, such as `F12`: `queueNumber` of dispatch.service.ts and the arithmetic of
-- `nextQueueNo` of charging.service.ts.
pub mod Decimal
use charging_station_system.Prelude.{
  ℕ, zero, suc, ◌+◌, ◌-◌, ◌*◌, ◌/◌, ◌%◌, ◌&&◌, Bool, true, false, List, [], ◌∷◌, ◌++◌, leb, ltb,
  foldl, if◌then◌else◌, filter_by, max, ◌==◌,
}
use charging_station_system.Schema.{ChargeMode, fast, slow, Codes}

abbrev pub is_digit : ℕ → Bool
is_digit c = leb b'0' c && leb c b'9'

-- `text.replace(/\D/g, '')`
unfoldable pub strip_non_digits : Codes → Codes
strip_non_digits = filter_by is_digit

abbrev push_digit : ℕ → ℕ → ℕ
push_digit n c = n * 10 + (c - b'0')

-- `Number(text)` of a text of digits; the empty text is 0.
unfoldable pub number_of : Codes → ℕ
number_of = foldl push_digit 0

-- `queueNumber`
unfoldable pub queue_number : Codes → ℕ
unfolding number_of strip_non_digits
queue_number text = number_of (strip_non_digits text)

-- The decimal digits of a number before a text, on fuel; a number has fewer digits than its size.
digits_before : ℕ → ℕ → Codes → Codes
digits_before zero n rest = rest
digits_before (suc fuel) n rest =
    let more = digits_before fuel (n / 10) ((b'0' + n % 10) ∷ rest) in
    if ltb n 10 then (b'0' + n) ∷ rest else more

-- `${n}`
unfoldable pub decimal : ℕ → Codes
unfolding digits_before
decimal n = digits_before (suc n) n []

abbrev pub prefix_of : ChargeMode → ℕ
prefix_of fast = b'F'
prefix_of slow = b'T'

abbrev pub starts_with : ℕ → Codes → Bool
starts_with c [] = false
starts_with c (d ∷ ds) = d == c

-- The `reduce` of `nextQueueNo`: the greatest number of the texts.
unfoldable pub greatest_number : List Codes → ℕ
unfolding queue_number
greatest_number = foldl (λ current text. max current (queue_number text)) 0

-- The next queue number, from the numbers that are in use.
unfoldable pub next_number : ChargeMode → List Codes → Codes
unfolding greatest_number decimal
next_number mode used = prefix_of mode ∷ decimal (greatest_number used + 1)
