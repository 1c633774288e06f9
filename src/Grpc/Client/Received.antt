-- ===== src/Grpc/Client/Received.antt =====
-- The messages that a caller of the stream's `RecvMsg` sees.
use j7f.Base.{
  ℕ, zero, suc, ◌+◌, ◌*◌, ◌/◌, ◌<◌, ◌≡◌, refl, sym, ap, ◌∙◌, List, [], ◌∷◌, arith, length,
  get_elem?, Text,
}
use j7f.Grpc.Client.{received}

length-received : (ms : List Text) → length (received ms) ≡ length ms / 2
unfolding received
length-received [] = ground arith
length-received (m ∷ []) = ground arith
length-received (m ∷ n ∷ ms) = ground (arith, length-received ms)

every_second :
    (ms : List Text) (i : ℕ)
    → i < length ms / 2
    → get_elem? (received ms) i ≡ get_elem? ms (2 * i + 1)
unfolding received
every_second [] i h = absurd (ground arith)
every_second (m ∷ []) i h = absurd (ground arith)
every_second (m ∷ n ∷ ms) zero h = refl
every_second (m ∷ n ∷ ms) (suc i) h =
    let half : suc (suc (length ms)) / 2 ≡ suc (length ms / 2) = omega arith in
    let at : 2 * suc i + 1 ≡ suc (suc (2 * i + 1)) = omega arith in
    every_second ms i (omega (arith, h, half)) ∙ sym (ap (get_elem? (m ∷ n ∷ ms)) at)

-- A caller of the stream's `RecvMsg` sees half of the messages, rounded down, and each of them
-- is the second of two that came.
received_lem :
    (ms : List Text) (i : ℕ)
    → i < length ms / 2
    → (length (received ms) ≡ length ms / 2)
      × (get_elem? (received ms) i ≡ get_elem? ms (2 * i + 1))
received_lem ms i h = (length-received ms, every_second ms i h)
